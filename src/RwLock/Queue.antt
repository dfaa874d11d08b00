-- ===== src/RwLock/Queue.antt =====
-- Entering and leaving the waiting queue of rwlock.rs keeps its invariant.
use glommio.Base.{
  ℕ, ◌+◌, ◌^◌, ◌≤◌, ◌<◌, ◌≡◌, refl, inl, inr, Bool, true, false, List, [], ◌∷◌, ◌++◌, some, arith,
  if◌then◌else◌, Bool-cases, elem, remove, elem-append, Distinct-remove, Distinct-snoc,
  elem_of-elem-remove, update,
}
use glommio.RwLock.{
  WaiterNode, RwLock, remove_from_waiting_queue, register_in_waiting_queue, unmark,
}
use glommio.RwLock.Wakes.{writes, count_writers}
use glommio.RwLock.Fibers.{IsValid}

pub count-congr :
    (f g : ℕ → Bool) (ws : List ℕ)
    → ((j : ℕ) → elem j ws ≡ true → f j ≡ g j)
    → count_writers f ws ≡ count_writers g ws
count-congr f g [] h = refl
count-congr f g (w ∷ ws) h =
    ground (arith, h w (ground arith), count-congr f g ws (λ j e. h j (ground arith)))

count-snoc :
    (f : ℕ → Bool) (ws : List ℕ) (i : ℕ)
    → count_writers f (ws ++ (i ∷ []))
      ≡ (if f i then count_writers f ws + 1 else count_writers f ws)
count-snoc f [] i = ground arith
count-snoc f (w ∷ ws) i = ground (arith, count-snoc f ws i)

count-remove_le :
    (f : ℕ → Bool) (ws : List ℕ) (i : ℕ) → count_writers f (remove i ws) ≤ count_writers f ws
count-remove_le f [] i = omega arith
count-remove_le f (w ∷ ws) i = ground (arith, count-remove_le f ws i)

module _ {ℓ} {A : Type ℓ} where
  pub unmark-IsValid : (lock : RwLock A) (i : ℕ) → IsValid lock → IsValid (unmark lock i)
  unfolding unmark
  unmark-IsValid lock i v = record {
    distinct = v.distinct;
    queued = λ j e. ground (arith, v.queued j e);
    shut = v.shut;
    exclusive = v.exclusive;
    single = v.single;
    counted = omega (
      arith,
      v.counted,
      count-congr (writes (unmark lock i).nodes) (writes lock.nodes) lock.waiters_queue
          (λ j e. ground arith),
    );
    readers_fit = v.readers_fit;
    queued_fit = v.queued_fit;
  }

  pub remove-IsValid :
      (lock : RwLock A) (i : ℕ) → IsValid lock → IsValid (remove_from_waiting_queue lock i)
  unfolding remove_from_waiting_queue
  remove-IsValid lock i v = elim (Bool-cases (elem i lock.waiters_queue)) [
    | inl linked ↦ rw linked (record {
      distinct = Distinct-remove i lock.waiters_queue v.distinct;
      queued = λ j e. v.queued j (elem_of-elem-remove j i lock.waiters_queue e);
      shut = λ e. let (q, r, w) = v.shut e in (rw q, r, w);
      exclusive = v.exclusive;
      single = v.single;
      counted = omega (arith, v.counted, count-remove_le (writes lock.nodes) lock.waiters_queue i);
      readers_fit = v.readers_fit;
      queued_fit = v.queued_fit;
    })
    | inr free ↦ rw free v
  ]

  pub register-IsValid :
      (lock : RwLock A) (i waker : ℕ)
      → lock.is_shut ≡ false
      → (lock.nodes i).woken ≡ false
      → lock.queued_writers + 1 < 2 ^ 32
      → IsValid lock
      → IsValid (register_in_waiting_queue lock i waker (lock.nodes i).kind)
  unfolding register_in_waiting_queue
  register-IsValid lock i waker running calm room v =
      let nodes' : ℕ → WaiterNode =
        update lock.nodes i (record (lock.nodes i) { waker = some waker }) in
      let same =
        count-congr (writes nodes') (writes lock.nodes) lock.waiters_queue (λ j e. ground arith) in
      elim (Bool-cases (elem i lock.waiters_queue)) [
        | inl linked ↦ rw linked (record {
          distinct = v.distinct;
          queued = λ j e. ground (arith, v.queued j e);
          shut = v.shut;
          exclusive = v.exclusive;
          single = v.single;
          counted = omega (arith, v.counted, same);
          readers_fit = v.readers_fit;
          queued_fit = v.queued_fit;
        })
        | inr free ↦ rw free (record {
          distinct = Distinct-snoc i lock.waiters_queue free v.distinct;
          queued = λ j e. ground (arith, v.queued j, elem-append j lock.waiters_queue (i ∷ []));
          shut = λ e. absurd (ground arith);
          exclusive = v.exclusive;
          single = v.single;
          counted =
              ground (arith, v.counted, same, count-snoc (writes nodes') lock.waiters_queue i);
          readers_fit = v.readers_fit;
          queued_fit = ground (arith, v.queued_fit);
        })
      ]
