-- ===== src/RwLock/Fibers.antt =====
-- Whom `wake_up_fibers` of rwlock.rs wakes, and the invariant of the lock.
use glommio.Base.{
  ℕ, ◌-◌, ◌^◌, ◌≤◌, ◌<◌, ◌≡◌, refl, sym, ◌∙◌, ap, fun_ext, inl, inr, ◌⊎◌, Bool, true, false, List,
  [], ◌∷◌, ◌++◌, Option, some, arith, ◌==◌, ◌&&◌, is_some, Bool-cases, elem, elem-append, Distinct,
  Distinct-append_right, not_elem_front_of_back,
}
use glommio.RwLock.{WaiterNode, RwLock, Loop, choose_loop, wake_up_fibers}
use glommio.RwLock.Wakes.{
  writes, Readers, ThroughWriter, WriterFirst, count_writers, Woke, Woke-nil, Loops, wake_all_lem,
  wake_till_writer_lem, wake_through_writer_lem, after_writer,
}

-- A node as it stands in the queue.
pub record IsQueued (n : WaiterNode) : Type 0 where
  pub has_waker : is_some n.waker ≡ true
  pub not_woken : n.woken ≡ false

pub record IsValid {ℓ} {A : Type ℓ} (lock : RwLock A) : Type 0 where
  pub distinct : Distinct lock.waiters_queue
  pub queued : (j : ℕ) → elem j lock.waiters_queue ≡ true → IsQueued (lock.nodes j)
  pub shut :
      lock.is_shut ≡ true → (lock.waiters_queue ≡ []) × (lock.readers ≡ 0) × (lock.writers ≡ 0)
  -- Never readers and a writer together, and never two writers.
  pub exclusive : (lock.readers ≡ 0) ⊎ (lock.writers ≡ 0)
  pub single : lock.writers ≤ 1
  -- `queued_writers` is at least the number of writers in the queue.
  pub counted : count_writers (writes lock.nodes) lock.waiters_queue ≤ lock.queued_writers
  pub readers_fit : lock.readers < 2 ^ 32
  pub queued_fit : lock.queued_writers < 2 ^ 32

-- Who may be woken: if nobody holds the lock, all readers up to the first writer and that writer; if
-- readers hold it, all readers up to the first writer; if a writer holds it, nobody.
pub record Chosen {ℓ} {A : Type ℓ} (lock : RwLock A) (front back : List ℕ) : Type 0 where
  pub when_free : lock.readers ≡ 0 → lock.writers ≡ 0 → ThroughWriter (writes lock.nodes) front back
  pub when_read :
      0 < lock.readers
      → lock.writers ≡ 0
      → Readers (writes lock.nodes) front × WriterFirst (writes lock.nodes) back
  pub when_written : 0 < lock.writers → front ≡ []

-- `front` is woken and leaves the queue, which keeps `rest`; the lock is held as before.
pub record Fibers {ℓ} {A : Type ℓ} (lock t : RwLock A) (wakes : List ℕ) : Type ℓ where
  pub front : List ℕ
  pub woke : Woke lock.waiters_queue lock.nodes front t.waiters_queue t.nodes wakes
  pub chosen : Chosen lock front t.waiters_queue
  pub same_readers : t.readers ≡ lock.readers
  pub same_writers : t.writers ≡ lock.writers
  pub same_shut : t.is_shut ≡ lock.is_shut
  pub same_value : t.value ≡ lock.value
  pub fewer : t.queued_writers ≤ lock.queued_writers
  pub enough : count_writers (writes lock.nodes) t.waiters_queue ≤ t.queued_writers

no_writers :
    (wr : ℕ → Bool) (ws : List ℕ) → count_writers wr ws ≡ 0 → Readers wr ws × ThroughWriter wr ws []
no_writers wr [] h = (tt, refl)
no_writers wr (w ∷ ws) h = elim (Bool-cases (wr w)) [
  | inl yes_writer ↦ absurd (ground arith)
  | inr rd ↦ let (r, t) = no_writers wr ws (ground arith) in ((rd, r), inr (rd, t))
]

count-append_le :
    (wr : ℕ → Bool) (front back : List ℕ) → count_writers wr back ≤ count_writers wr (front ++ back)
count-append_le wr [] back = omega arith
count-append_le wr (w ∷ front) back = ground (arith, count-append_le wr front back)

count-through :
    (wr : ℕ → Bool) (front back : List ℕ)
    → ThroughWriter wr front back
    → count_writers wr back ≤ count_writers wr (front ++ back) - 1
count-through wr [] back h = rw h (omega arith)
count-through wr (w ∷ front) back (inl (wrt, h)) = rw (h, wrt) (omega arith)
count-through wr (w ∷ front) back (inr (rd, h)) = rw rd (count-through wr front back h)

-- A woken node keeps its kind, and so does every other node.
writes-Woke :
    (ws : List ℕ) (nodes : ℕ → WaiterNode) (front back : List ℕ) (nodes' : ℕ → WaiterNode)
    (wakes : List ℕ)
    → Woke ws nodes front back nodes' wakes
    → writes nodes' ≡ writes nodes
writes-Woke ws nodes front back nodes' wakes k =
    fun_ext
      λ j. elim (Bool-cases (elem j front)) [ inl m ↦ rw (k.marked j m) | inr o ↦ rw (k.apart j o) ]

right_nil : (front back : List ℕ) → front ++ back ≡ [] → back ≡ []
right_nil [] back h = h
right_nil (x ∷ front) back h = absurd (ground arith)

module _ {ℓ} {A : Type ℓ} where
  choose_all :
      (lock : RwLock A) {front back : List ℕ}
      → IsValid lock
      → lock.queued_writers ≡ 0
      → lock.writers ≡ 0
      → front ≡ lock.waiters_queue
      → back ≡ []
      → Chosen lock front back × (count_writers (writes lock.nodes) back ≤ lock.queued_writers)
  choose_all lock {front} {back} v q w f b =
      let (rs, th) = no_writers (writes lock.nodes) lock.waiters_queue (omega (arith, v.counted)) in
      (
        record {
          when_free = λ _ _. rw (f, b) th;
          when_read = λ _ _. (rw f rs, rw b tt);
          when_written = λ pos. absurd (omega arith);
        },
        rw b (omega arith),
      )

  choose_through :
      (lock : RwLock A) {front back : List ℕ}
      → IsValid lock
      → lock.readers ≡ 0
      → lock.writers ≡ 0
      → lock.waiters_queue ≡ front ++ back
      → ThroughWriter (writes lock.nodes) front back
      → Chosen lock front back
        × (count_writers (writes lock.nodes) back
            ≤ after_writer (writes lock.nodes) lock.waiters_queue lock.queued_writers)
  choose_through lock {front} {back} v r w s h = (
    record {
      when_free = λ _ _. h;
      when_read = λ pos. absurd (omega arith);
      when_written = λ pos. absurd (omega arith);
    },
    ground (
      arith,
      ap (count_writers (writes lock.nodes)) s,
      count-through (writes lock.nodes) front back h,
      v.counted,
    ),
  )

  choose_till :
      (lock : RwLock A) {front back : List ℕ}
      → IsValid lock
      → 0 < lock.readers
      → lock.writers ≡ 0
      → lock.waiters_queue ≡ front ++ back
      → Readers (writes lock.nodes) front × WriterFirst (writes lock.nodes) back
      → Chosen lock front back × (count_writers (writes lock.nodes) back ≤ lock.queued_writers)
  choose_till lock {front} {back} v r w s h = (
    record {
      when_free = λ z. absurd (omega arith);
      when_read = λ _ _. h;
      when_written = λ pos. absurd (omega arith);
    },
    let c : count_writers (writes lock.nodes) (front ++ back) ≤ lock.queued_writers =
          rw s at v.counted in
        omega (arith, c, count-append_le (writes lock.nodes) front back),
  )

  from_loop :
      (lock : RwLock A) (queued' : ℕ) (P : List ℕ → List ℕ → Type 0) (run : Option Loop)
      → (l : Loops lock.waiters_queue lock.nodes queued' P run) → choose_loop lock ≡ run
      → ((front back : List ℕ)
          → lock.waiters_queue ≡ front ++ back
          → P front back
          → Chosen lock front back × (count_writers (writes lock.nodes) back ≤ queued'))
      → queued' ≤ lock.queued_writers
      → (r : RwLock A × List ℕ) × (wake_up_fibers lock ≡ some r) × Fibers lock r.0 r.1
  unfolding wake_up_fibers
  from_loop lock queued' P run l e choice less =
      let (c, n) = choice l.front l.back l.woke.split l.holds in
      (
        (
          record lock { waiters_queue = l.back; nodes = l.nodes'; queued_writers = queued' },
          l.wakes,
        ),
        rw (e, l.returns),
        record {
          front = l.front;
          woke = l.woke;
          chosen = c;
          same_readers = refl;
          same_writers = refl;
          same_shut = refl;
          same_value = refl;
          fewer = less;
          enough = n;
        },
      )

  -- `wake_up_fibers` of a valid lock does not panic. It wakes, in order and once each, the part of
  -- the queue that may run, as `Chosen` says, and touches nothing else.
  pub wake_up_fibers_lem :
      (lock : RwLock A)
      → IsValid lock
      → (r : RwLock A × List ℕ) × (wake_up_fibers lock ≡ some r) × Fibers lock r.0 r.1
  unfolding choose_loop
  wake_up_fibers_lem lock v = elim (Bool-cases ((lock.readers == 0) && (lock.writers == 0))) [
    | inl unheld ↦ elim (Bool-cases (lock.queued_writers == 0)) [
      | inl none_queued ↦
          from_loop lock lock.queued_writers _ _
            (wake_all_lem lock.waiters_queue lock.nodes lock.queued_writers v.distinct waiting)
            (ground arith)
            (λ front back s h. choose_all lock v (ground arith) (ground arith) h.0 h.1)
            (omega arith)
      | inr some_queued ↦
          from_loop lock _ _ _
            (wake_through_writer_lem lock.waiters_queue lock.nodes lock.queued_writers v.distinct
              waiting v.counted v.queued_fit)
            (ground arith)
            (λ front back s h. choose_through lock v (ground arith) (ground arith) s h)
            (ground arith)
    ]
    | inr held ↦ elim (Bool-cases (lock.writers == 0)) [
      | inl reading ↦ elim (Bool-cases (lock.queued_writers == 0)) [
        | inl none_queued ↦
            from_loop lock lock.queued_writers _ _
              (wake_all_lem lock.waiters_queue lock.nodes lock.queued_writers v.distinct waiting)
              (ground arith)
              (λ front back s h. choose_all lock v (ground arith) (ground arith) h.0 h.1)
              (omega arith)
        | inr some_queued ↦
            from_loop lock lock.queued_writers _ _
              (wake_till_writer_lem lock.waiters_queue lock.nodes lock.queued_writers v.distinct
                waiting)
              (ground arith)
              (λ front back s h. choose_till lock v (ground arith) (ground arith) s h) (omega arith)
      ]
      | inr writing ↦
          from_loop lock lock.queued_writers
            (λ front back. (front ≡ []) × (back ≡ lock.waiters_queue)) _
            (record {
              front = [];
              back = lock.waiters_queue;
              nodes' = lock.nodes;
              wakes = [];
              returns = refl;
              woke = Woke-nil lock.waiters_queue lock.nodes;
              holds = (refl, refl);
            })
            (ground arith)
            (λ front back s h. (
              record {
                when_free = λ _ z. absurd (ground arith);
                when_read = λ _ z. absurd (ground arith);
                when_written = λ _. h.0;
              },
              rw h.1 v.counted,
            ))
            (omega arith)
    ]
  ]
    where
      waiting : (j : ℕ) → elem j lock.waiters_queue ≡ true → is_some (lock.nodes j).waker ≡ true
      waiting j e = (v.queued j e).has_waker

  -- The lock stays valid.
  pub Fibers-IsValid :
      (lock t : RwLock A) (wakes : List ℕ) → IsValid lock → Fibers lock t wakes → IsValid t
  Fibers-IsValid lock t wakes v f =
      let d : Distinct (f.front ++ t.waiters_queue) = rw f.woke.split at v.distinct in
      record {
        distinct = Distinct-append_right f.front t.waiters_queue d;
        queued = λ j e. rw (f.woke.apart j (not_elem_front_of_back j f.front t.waiters_queue d e)) (
            v.queued j
              (rw f.woke.split (ground (arith, e, elem-append j f.front t.waiters_queue))));
        shut = λ e.
            let (q, r, w) = v.shut (sym f.same_shut ∙ e) in
            (
              right_nil f.front t.waiters_queue (sym f.woke.split ∙ q),
              f.same_readers ∙ r,
              f.same_writers ∙ w,
            );
        exclusive = rw (f.same_readers, f.same_writers) v.exclusive;
        single = omega (arith, f.same_writers, v.single);
        counted = rw (writes-Woke _ _ _ _ _ _ f.woke) f.enough;
        readers_fit = omega (arith, f.same_readers, v.readers_fit);
        queued_fit = omega (arith, f.fewer, v.queued_fit);
      }
