-- ===== src/RwLock/Steps.antt =====
-- The operations of rwlock.rs keep its invariant, and count the guards that they give out.
use glommio.Base.{
  ℕ, ◌+◌, ◌%◌, ◌^◌, ◌<◌, ◌≡◌, refl, subst, inl, inr, Bool, true, false, arith, ◌==◌, ◌&&◌,
  if◌then◌else◌, Bool-cases,
}
use glommio.Errors.{ok, err, closed, ResourceType}
use glommio.RwLock.{
  WaiterKind, reader, writer, RwLock, LockResult, Poll, ready, pending, is_writer,
  remove_from_waiting_queue, register_in_waiting_queue, state_try_read, state_try_write, try_kind,
  poll_with, unmark, poll,
}
use glommio.RwLock.Fibers.{IsValid}
use glommio.RwLock.Queue.{unmark-IsValid, remove-IsValid, register-IsValid}

-- One guard if the call is done without an error.
abbrev pub got_guard : Poll (LockResult (Unit {0})) → ℕ
got_guard (ready (ok _)) = 1
got_guard (ready (err _)) = 0
got_guard pending = 0

abbrev pub read_guards_of : WaiterKind → ℕ → ℕ
read_guards_of reader n = n
read_guards_of writer n = 0

abbrev pub write_guards_of : WaiterKind → ℕ → ℕ
write_guards_of reader n = 0
write_guards_of writer n = n

module _ {ℓ} {A : Type ℓ} where
  -- The lock stays valid and has given out `r` more read guards and `w` more write guards.
  pub record Gains (lock t : RwLock A) (r w : ℕ) : Type ℓ where
    pub valid : IsValid t
    pub more_readers : t.readers ≡ lock.readers + r
    pub more_writers : t.writers ≡ lock.writers + w

  -- The three outcomes of `State::try_read` and `State::try_write` on a valid lock.
  pub data Tried (lock : RwLock A) (kind : WaiterKind) (r : LockResult (RwLock A × Bool))
      : Type ℓ where
    shut : lock.is_shut ≡ true → r ≡ err (closed ResourceType.rw_lock) → Tried lock kind r
    got :
        (t : RwLock A)
        → lock.is_shut ≡ false
        → r ≡ ok (t, true)
        → t.nodes ≡ lock.nodes
        → Gains lock t (if is_writer kind then 0 else 1) (if is_writer kind then 1 else 0)
        → Tried lock kind r
    held : lock.is_shut ≡ false → r ≡ ok (lock, false) → Tried lock kind r

  pub try_kind_lem :
      (lock : RwLock A) (kind : WaiterKind)
      → lock.readers + 1 < 2 ^ 32
      → IsValid lock
      → Tried lock kind (try_kind kind lock)
  unfolding try_kind state_try_read state_try_write
  try_kind_lem lock reader room v = elim (Bool-cases lock.is_shut) [
    | inl e ↦ shut e (ground arith)
    | inr e ↦ elim (Bool-cases (lock.writers == 0)) [
      | inl free ↦
          got (record lock { readers = (lock.readers + 1) % 2 ^ 32 }) e (ground arith) refl
            (record {
              valid = record {
                distinct = v.distinct;
                queued = v.queued;
                shut = λ z. absurd (ground arith);
                exclusive = inr (ground arith);
                single = v.single;
                counted = v.counted;
                readers_fit = omega arith;
                queued_fit = v.queued_fit;
              };
              more_readers = omega arith;
              more_writers = omega arith;
            })
      | inr taken ↦ held e (ground arith)
    ]
  ]
  try_kind_lem lock writer room v = elim (Bool-cases lock.is_shut) [
    | inl e ↦ shut e (ground arith)
    | inr e ↦ elim (Bool-cases ((lock.readers == 0) && (lock.writers == 0))) [
      | inl free ↦
          got (record lock { writers = (lock.writers + 1) % 2 ^ 32 }) e (ground arith) refl
            (record {
              valid = record {
                distinct = v.distinct;
                queued = v.queued;
                shut = λ z. absurd (ground arith);
                exclusive = inl (ground arith);
                single = ground arith;
                counted = v.counted;
                readers_fit = v.readers_fit;
                queued_fit = v.queued_fit;
              };
              more_readers = omega arith;
              more_writers = ground arith;
            })
      | inr taken ↦ held e (ground arith)
    ]
  ]

  pub none_gained :
      (lock t : RwLock A)
      → IsValid t
      → t.readers ≡ lock.readers
      → t.writers ≡ lock.writers
      → (kind : WaiterKind) → Gains lock t (read_guards_of kind 0) (write_guards_of kind 0)
  none_gained lock t v r w reader = record {
    valid = v;
    more_readers = omega arith;
    more_writers = omega arith;
  }
  none_gained lock t v r w writer = record {
    valid = v;
    more_readers = omega arith;
    more_writers = omega arith;
  }

  pub one_gained :
      (lock t u : RwLock A) (kind : WaiterKind)
      → IsValid u
      → u.readers ≡ t.readers
      → u.writers ≡ t.writers
      → Gains lock t (if is_writer kind then 0 else 1) (if is_writer kind then 1 else 0)
      → Gains lock u (read_guards_of kind 1) (write_guards_of kind 1)
  one_gained lock t u reader v r w g = record {
    valid = v;
    more_readers = omega (arith, g.more_readers);
    more_writers = omega (arith, g.more_writers);
  }
  one_gained lock t u writer v r w g = record {
    valid = v;
    more_readers = omega (arith, g.more_readers);
    more_writers = omega (arith, g.more_writers);
  }

  remove_same :
      (lock : RwLock A) (i : ℕ)
      → ((remove_from_waiting_queue lock i).readers ≡ lock.readers)
        × ((remove_from_waiting_queue lock i).writers ≡ lock.writers)
  unfolding remove_from_waiting_queue
  remove_same lock i = (ground arith, ground arith)

  register_same :
      (lock : RwLock A) (i waker : ℕ) (kind : WaiterKind)
      → ((register_in_waiting_queue lock i waker kind).readers ≡ lock.readers)
        × ((register_in_waiting_queue lock i waker kind).writers ≡ lock.writers)
  unfolding register_in_waiting_queue
  register_same lock i waker kind = (ground arith, ground arith)

  unmark_same :
      (lock : RwLock A) (i : ℕ)
      → (((unmark lock i).nodes i).kind ≡ (lock.nodes i).kind)
        × ((unmark lock i).readers ≡ lock.readers)
        × ((unmark lock i).writers ≡ lock.writers)
        × ((unmark lock i).queued_writers ≡ lock.queued_writers)
        × (((unmark lock i).nodes i).woken ≡ false)
  unfolding unmark
  unmark_same lock i = (ground arith, refl, refl, refl, ground arith)

  poll_with_lem :
      (lock : RwLock A) (i waker : ℕ)
      → lock.readers + 1 < 2 ^ 32
      → lock.queued_writers + 1 < 2 ^ 32
      → (lock.nodes i).woken ≡ false
      → IsValid lock
      → (kind : WaiterKind) → kind ≡ (lock.nodes i).kind
      → let r = poll_with lock i waker (try_kind kind lock) in
        Gains lock r.0 (read_guards_of kind (got_guard r.1)) (write_guards_of kind (got_guard r.1))
  unfolding poll_with
  poll_with_lem lock i waker room room' calm v kind same = elim (try_kind_lem lock kind room v) [
    | shut _ e ↦ rw (e, poll_with) (none_gained lock lock v refl refl kind)
    | got t _ e _ g ↦
        rw (e, poll_with)
          (one_gained lock t (remove_from_waiting_queue t i) kind (remove-IsValid t i g.valid)
            (remove_same t i).0 (remove_same t i).1 g)
    | held running e ↦
        rw (e, poll_with)
          (none_gained lock _ (register-IsValid lock i waker running calm room' v)
            (register_same lock i waker (lock.nodes i).kind).0
            (register_same lock i waker (lock.nodes i).kind).1 kind)
  ]

  -- A poll of the waiter `i` keeps a valid lock valid and gives out one guard of the waiter's kind if
  -- it is done without an error, and none otherwise.
  pub poll_lem :
      (lock : RwLock A) (i waker : ℕ)
      → lock.readers + 1 < 2 ^ 32
      → lock.queued_writers + 1 < 2 ^ 32
      → IsValid lock
      → let n = got_guard (poll lock i waker).1 in
        Gains lock
          (poll lock i waker).0
          (read_guards_of (lock.nodes i).kind n)
          (write_guards_of (lock.nodes i).kind n)
  unfolding poll
  poll_lem lock i waker room room' v =
      let u = unmark lock i in
      let k = unmark_same lock i in
      let g =
        poll_with_lem u i waker (omega (arith, k.1)) (omega (arith, k.3)) k.4
          (unmark-IsValid lock i v) (u.nodes i).kind refl in
      subst
        (λ kind.
          Gains lock (poll lock i waker).0 (read_guards_of kind (got_guard (poll lock i waker).1))
            (write_guards_of kind (got_guard (poll lock i waker).1)))
        k.0
        (record {
          valid = g.valid;
          more_readers = omega (arith, g.more_readers, k.1);
          more_writers = omega (arith, g.more_writers, k.2);
        })
