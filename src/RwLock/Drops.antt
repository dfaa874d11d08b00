-- ===== src/RwLock/Drops.antt =====
-- Giving back the guards of rwlock.rs, dropping waiters and closing.
use glommio.Base.{
  ℕ, ◌+◌, ◌-◌, ◌%◌, ◌^◌, ◌≤◌, ◌<◌, ◌≡◌, refl, sym, ◌∙◌, ap, subst, inl, inr, ◌⊎◌, true, false, List,
  [], some, arith, ltb, ◌||◌, if◌then◌else◌, map, Bool-cases, elem, remove, elem-remove_self,
}
use glommio.Errors.{ok, err, can_not_be_closed, ResourceType}
use glommio.RwLock.{
  RwLock, LockResult, remove_from_waiting_queue, wake_up_fibers, drop_waiter, drop_read_guard,
  drop_write_guard, close,
}
use glommio.RwLock.Wakes.{wake_all_lem}
use glommio.RwLock.Fibers.{IsValid, Fibers, wake_up_fibers_lem, Fibers-IsValid}
use glommio.RwLock.Queue.{remove-IsValid}

module _ {ℓ} {A : Type ℓ} where
  given_back-IsValid :
      (lock : RwLock A) (r w : ℕ)
      → r ≤ lock.readers
      → w ≤ lock.writers
      → lock.is_shut ≡ false
      → IsValid lock
      → IsValid (record lock { readers = r; writers = w })
  given_back-IsValid lock r w less less' running v = record {
    distinct = v.distinct;
    queued = v.queued;
    shut = λ e. absurd (ground arith);
    exclusive = grind (arith, v.exclusive);
    single = omega (arith, v.single);
    counted = v.counted;
    readers_fit = omega (arith, v.readers_fit);
    queued_fit = v.queued_fit;
  }

  drop_read_guard_eq :
      (lock : RwLock A)
      → 0 < lock.readers
      → lock.readers < 2 ^ 32
      → lock.is_shut ≡ false
      → drop_read_guard lock ≡ wake_up_fibers (record lock { readers = lock.readers - 1 })
  unfolding drop_read_guard
  drop_read_guard_eq lock pos fit running =
      let less : (lock.readers + 2 ^ 32 - 1) % 2 ^ 32 ≡ lock.readers - 1 = omega arith in
      ap
        (λ b.
          if b
          then some (lock, [])
          else wake_up_fibers (record lock { readers = (lock.readers + 2 ^ 32 - 1) % 2 ^ 32 }))
        running
      ∙ ap (λ (n : ℕ). wake_up_fibers (record lock { readers = n })) less

  drop_write_guard_eq :
      (lock : RwLock A)
      → 0 < lock.writers
      → lock.writers ≤ 1
      → lock.is_shut ≡ false
      → drop_write_guard lock ≡ wake_up_fibers (record lock { writers = lock.writers - 1 })
  unfolding drop_write_guard
  drop_write_guard_eq lock pos fit running =
      let less : (lock.writers + 2 ^ 32 - 1) % 2 ^ 32 ≡ lock.writers - 1 = omega arith in
      ap
        (λ b.
          if b
          then some (lock, [])
          else wake_up_fibers (record lock { writers = (lock.writers + 2 ^ 32 - 1) % 2 ^ 32 }))
        running
      ∙ ap (λ (n : ℕ). wake_up_fibers (record lock { writers = n })) less

  -- Dropping a read guard of a valid lock does not panic and keeps it valid. One reader less holds
  -- the lock, and whoever may then run is woken.
  pub drop_read_guard_lem :
      (lock : RwLock A)
      → 0 < lock.readers
      → IsValid lock
      → (r : RwLock A × List ℕ) × (drop_read_guard lock ≡ some r)
        × Fibers (record lock { readers = lock.readers - 1 }) r.0 r.1
        × IsValid r.0
  drop_read_guard_lem lock pos v = elim (Bool-cases lock.is_shut) [
    | inl e ↦ absurd (omega (arith, (v.shut e).1))
    | inr running ↦
        let less = record lock { readers = lock.readers - 1 } in
        let lv =
          given_back-IsValid lock (lock.readers - 1) lock.writers (omega arith) (omega arith)
            running v in
        let (r, e, f) = wake_up_fibers_lem less lv in
        (
          r,
          drop_read_guard_eq lock pos v.readers_fit running ∙ e,
          f,
          Fibers-IsValid less r.0 r.1 lv f,
        )
  ]

  -- Dropping the write guard of a valid lock does not panic and keeps it valid. Nobody holds the
  -- lock any more, and whoever may then run is woken: all readers up to the first writer, and it.
  pub drop_write_guard_lem :
      (lock : RwLock A)
      → 0 < lock.writers
      → IsValid lock
      → (r : RwLock A × List ℕ) × (drop_write_guard lock ≡ some r)
        × Fibers (record lock { writers = lock.writers - 1 }) r.0 r.1
        × IsValid r.0
  drop_write_guard_lem lock pos v = elim (Bool-cases lock.is_shut) [
    | inl e ↦ absurd (omega (arith, (v.shut e).2))
    | inr running ↦
        let less = record lock { writers = lock.writers - 1 } in
        let lv =
          given_back-IsValid lock lock.readers (lock.writers - 1) (omega arith) (omega arith)
            running v in
        let (r, e, f) = wake_up_fibers_lem less lv in
        (r, drop_write_guard_eq lock pos v.single running ∙ e, f, Fibers-IsValid less r.0 r.1 lv f)
  ]

  -- What dropping a waiter does: one that was woken and not polled since passes its wake-up on,
  -- any other just leaves the queue.
  abbrev pub Dropped : RwLock A → ℕ → RwLock A × List ℕ → Type ℓ
  Dropped lock i (t, wakes) =
      (t.readers ≡ lock.readers)
      × (t.writers ≡ lock.writers)
      × ((lock.nodes i).woken ≡ true → lock.is_shut ≡ false → Fibers lock t wakes)
      × ((lock.nodes i).woken ≡ false
          → (wakes ≡ [])
            × (elem i t.waiters_queue ≡ false)
            × (t.queued_writers ≡ lock.queued_writers))

  -- Dropping a waiter of a valid lock does not panic, keeps it valid and takes or gives no guard. A
  -- woken waiter of an open lock passes its wake-up on, as `wake_up_fibers` does. A waiter that was
  -- not woken leaves the queue and wakes nobody, and `queued_writers` stays, also if it is a writer.
  pub drop_waiter_keeps_guards :
      (lock : RwLock A) (i : ℕ)
      → IsValid lock
      → (r : RwLock A × List ℕ) × (drop_waiter lock i ≡ some r) × Dropped lock i r × IsValid r.0
  unfolding drop_waiter remove_from_waiting_queue
  drop_waiter_keeps_guards lock i v = elim (Bool-cases (lock.nodes i).woken) [
    | inl woken ↦ elim (Bool-cases lock.is_shut) [
      | inl e ↦ (
        (lock, []),
        ground arith,
        (refl, refl, λ _ running. absurd (ground arith), λ calm. absurd (ground arith)),
        v,
      )
      | inr running ↦
          let (r, e, f) = wake_up_fibers_lem lock v in
          (
            r,
            ground (arith, e),
            (f.same_readers, f.same_writers, λ _ _. f, λ calm. absurd (ground arith)),
            Fibers-IsValid lock r.0 r.1 v f,
          )
    ]
    | inr calm ↦ elim (Bool-cases (elem i lock.waiters_queue)) [
      | inl linked ↦ (
        (record lock { waiters_queue = remove i lock.waiters_queue }, []),
        ground arith,
        (
          refl,
          refl,
          λ woken. absurd (ground arith),
          λ _. (refl, elem-remove_self i lock.waiters_queue v.distinct, refl),
        ),
        rw linked at (remove-IsValid lock i v),
      )
      | inr free ↦ (
        (lock, []),
        ground arith,
        (refl, refl, λ woken. absurd (ground arith), λ _. (refl, free, refl)),
        v,
      )
    ]
  ]

  -- `close` of a valid lock does not panic and keeps it valid. A lock that is held stays as it was,
  -- and the call fails. Otherwise the lock is closed, keeps its value, and the wakers of exactly the
  -- waiters in the queue are called, in order; a call on a lock that is closed already changes
  -- nothing and calls no waker.
  pub close_wakes_or_fails :
      (lock : RwLock A)
      → IsValid lock
      → (r : RwLock A × List ℕ × LockResult (Unit {0})) × (close lock ≡ some r)
        × IsValid r.0
        × (r.0.readers ≡ lock.readers)
        × (r.0.writers ≡ lock.writers)
        × (((r.2 ≡ err (can_not_be_closed ResourceType.rw_lock))
              × (r.0 ≡ lock)
              × (0 < lock.readers + lock.writers))
            ⊎ ((r.2 ≡ ok tt)
                × (r.0.is_shut ≡ true)
                × (r.0.waiters_queue ≡ [])
                × (r.0.value ≡ lock.value)
                × (map (λ j. (lock.nodes j).waker) lock.waiters_queue ≡ map some r.1)
                × (lock.is_shut ≡ true → (r.0 ≡ lock) × (r.1 ≡ []))))
  unfolding close
  close_wakes_or_fails lock v = elim (Bool-cases lock.is_shut) [
    | inl e ↦ (
      (lock, [], ok tt),
      ground arith,
      v,
      refl,
      refl,
      inr (refl, e, (v.shut e).0, refl, rw (v.shut e).0 refl, λ shut. (refl, refl)),
    )
    | inr running ↦ elim (Bool-cases (ltb 0 lock.writers || ltb 0 lock.readers)) [
      | inl busy ↦ (
        (lock, [], err (can_not_be_closed ResourceType.rw_lock)),
        ground arith,
        v,
        refl,
        refl,
        inl (refl, refl, ground arith),
      )
      | inr idle ↦
          let l =
            wake_all_lem lock.waiters_queue lock.nodes lock.queued_writers v.distinct
              (λ j e. (v.queued j e).has_waker) in
          (
            (
              record lock { is_shut = true; waiters_queue = l.back; nodes = l.nodes' },
              l.wakes,
              ok tt,
            ),
            ground (arith, l.returns),
            subst
                (λ ws.
                  IsValid (record lock { waiters_queue = ws; is_shut = true; nodes = l.nodes' }))
                (sym l.holds.1)
                (record {
                  distinct = tt;
                  queued = λ j e. absurd (ground arith);
                  shut = λ _. (refl, ground arith, ground arith);
                  exclusive = v.exclusive;
                  single = v.single;
                  counted = omega arith;
                  readers_fit = v.readers_fit;
                  queued_fit = v.queued_fit;
                }),
            refl,
            refl,
            inr (
              refl,
              refl,
              l.holds.1,
              refl,
              ap (map (λ j. (lock.nodes j).waker)) (sym l.holds.0) ∙ l.woke.called,
              λ shut. absurd (ground arith),
            ),
          )
    ]
  ]
