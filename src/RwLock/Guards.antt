-- ===== src/RwLock/Guards.antt =====
-- Taking and giving back the guards of rwlock.rs, dropping waiters and closing.
use glommio.Base.{ℕ, ◌+◌, ◌^◌, ◌<◌, ◌≡◌, refl, subst, false, arith, elem}
use glommio.Errors.{ok}
use glommio.RwLock.{
  WaiterKind, reader, writer, RwLock, new_waiter, try_kind, acquire_from, read, write, guard_from,
  try_read, try_write,
}
use glommio.RwLock.Wakes.{writes}
use glommio.RwLock.Fibers.{IsValid}
use glommio.RwLock.Steps.{
  Gains, shut, got, held, try_kind_lem, got_guard, read_guards_of, write_guards_of, none_gained,
  one_gained,
}
use glommio.RwLock.Queue.{count-congr}

module _ {ℓ} {A : Type ℓ} where
  new_waiter-IsValid :
      (lock : RwLock A) (i : ℕ) (kind : WaiterKind)
      → elem i lock.waiters_queue ≡ false
      → IsValid lock
      → IsValid (new_waiter lock i kind)
  unfolding new_waiter
  new_waiter-IsValid lock i kind free v = record {
    distinct = v.distinct;
    queued = λ j e. ground (arith, v.queued j);
    shut = v.shut;
    exclusive = v.exclusive;
    single = v.single;
    counted = omega (
      arith,
      v.counted,
      count-congr (writes (new_waiter lock i kind).nodes) (writes lock.nodes) lock.waiters_queue
          (λ j e. ground arith),
    );
    readers_fit = v.readers_fit;
    queued_fit = v.queued_fit;
  }

  acquire_lem :
      (lock : RwLock A) (i : ℕ) (kind : WaiterKind)
      → lock.readers + 1 < 2 ^ 32
      → elem i lock.waiters_queue ≡ false
      → IsValid lock
      → let r = acquire_from lock i kind (try_kind kind lock) in
        Gains lock r.0 (read_guards_of kind (got_guard r.1)) (write_guards_of kind (got_guard r.1))
  unfolding acquire_from
  acquire_lem lock i kind room free v = elim (try_kind_lem lock kind room v) [
    | shut _ e ↦ rw (e, acquire_from) (none_gained lock lock v refl refl kind)
    | got t _ e _ g ↦ rw (e, acquire_from) (one_gained lock t t kind g.valid refl refl g)
    | held _ e ↦
        rw (e, acquire_from)
          (none_gained lock _ (new_waiter-IsValid lock i kind free v) (unfold new_waiter in refl)
            (unfold new_waiter in refl) kind)
  ]

  -- `read` gives out one read guard if it is done without an error, and none otherwise.
  pub read_lem :
      (lock : RwLock A) (i : ℕ)
      → lock.readers + 1 < 2 ^ 32
      → elem i lock.waiters_queue ≡ false
      → IsValid lock
      → Gains lock (read lock i).0 (got_guard (read lock i).1) 0
  unfolding read try_kind
  read_lem lock i room free v = acquire_lem lock i reader room free v

  -- `write` gives out one write guard if it is done without an error, and none otherwise.
  pub write_lem :
      (lock : RwLock A) (i : ℕ)
      → lock.readers + 1 < 2 ^ 32
      → elem i lock.waiters_queue ≡ false
      → IsValid lock
      → Gains lock (write lock i).0 0 (got_guard (write lock i).1)
  unfolding write try_kind
  write_lem lock i room free v = acquire_lem lock i writer room free v

  pub try_read_lem :
      (lock : RwLock A) {t : RwLock A}
      → lock.readers + 1 < 2 ^ 32
      → IsValid lock
      → try_read lock ≡ ok t
      → Gains lock t 1 0
  unfolding try_read guard_from try_kind
  try_read_lem lock {t} room v e = elim (try_kind_lem lock reader room v) [
    | shut _ f ↦ absurd (ground (arith, e, f))
    | got u _ f _ g ↦
        let same : u ≡ t = ground (arith, e, f) in subst (λ x. Gains lock x 1 0) same g
    | held _ f ↦ absurd (ground (arith, e, f))
  ]

  pub try_write_lem :
      (lock : RwLock A) {t : RwLock A}
      → lock.readers + 1 < 2 ^ 32
      → IsValid lock
      → try_write lock ≡ ok t
      → Gains lock t 0 1
  unfolding try_write guard_from try_kind
  try_write_lem lock {t} room v e = elim (try_kind_lem lock writer room v) [
    | shut _ f ↦ absurd (ground (arith, e, f))
    | got u _ f _ g ↦
        let same : u ≡ t = ground (arith, e, f) in subst (λ x. Gains lock x 0 1) same g
    | held _ f ↦ absurd (ground (arith, e, f))
  ]
