-- ===== src/RwLock/Exclusion.antt =====
-- Runs of rwlock.rs: any interleaving of its calls, with the guards that are alive.
use glommio.Base.{
  ℕ, ◌+◌, ◌-◌, ◌^◌, ◌≤◌, ◌<◌, ◌≡◌, refl, ap, subst, inl, ◌⊎◌, false, List, some, arith, elem,
  same_result,
}
use glommio.Errors.{ok}
use glommio.RwLock.{
  WaiterNode, RwLock, LockResult, new, poll, read, write, try_read, try_write, drop_waiter,
  drop_read_guard, drop_write_guard, close,
}
use glommio.RwLock.Fibers.{IsValid}
use glommio.RwLock.Steps.{Gains, poll_lem, got_guard, read_guards_of, write_guards_of}
use glommio.RwLock.Guards.{read_lem, write_lem, try_read_lem, try_write_lem}
use glommio.RwLock.Drops.{
  drop_read_guard_lem, drop_write_guard_lem, drop_waiter_keeps_guards, close_wakes_or_fails,
}

-- A lock with its guards that are alive.
pub record World {ℓ} (A : Type ℓ) : Type ℓ where
  pub lock : RwLock A
  pub read_guards : ℕ
  pub write_guards : ℕ

module _ {ℓ} {A : Type ℓ} where
  -- The u32 counters have room for one more.
  pub record Room (lock : RwLock A) : Type 0 where
    pub for_reader : lock.readers + 1 < 2 ^ 32
    pub for_writer : lock.queued_writers + 1 < 2 ^ 32

  abbrev pub polled : World A → ℕ → ℕ → World A
  polled w i waker =
      let n = got_guard (poll w.lock i waker).1 in
      record {
        lock = (poll w.lock i waker).0;
        read_guards = w.read_guards + read_guards_of (w.lock.nodes i).kind n;
        write_guards = w.write_guards + write_guards_of (w.lock.nodes i).kind n;
      }

  -- One call. A waiter is placed where no linked node is; only a guard that is alive is dropped.
  pub data Step (w : World A) : World A → Type ℓ where
    reads :
        (i : ℕ)
        → Room w.lock
        → elem i w.lock.waiters_queue ≡ false
        → Step w (record w {
          lock = (read w.lock i).0;
          read_guards = w.read_guards + got_guard (read w.lock i).1;
        })
    writes :
        (i : ℕ)
        → Room w.lock
        → elem i w.lock.waiters_queue ≡ false
        → Step w (record w {
          lock = (write w.lock i).0;
          write_guards = w.write_guards + got_guard (write w.lock i).1;
        })
    polls : (i waker : ℕ) → Room w.lock → Step w (polled w i waker)
    tries_read :
        {t : RwLock A}
        → Room w.lock
        → try_read w.lock ≡ ok t
        → Step w (record w { lock = t; read_guards = w.read_guards + 1 })
    tries_write :
        {t : RwLock A}
        → Room w.lock
        → try_write w.lock ≡ ok t
        → Step w (record w { lock = t; write_guards = w.write_guards + 1 })
    drops_read :
        {t : RwLock A} {wakes : List ℕ}
        → 0 < w.read_guards
        → drop_read_guard w.lock ≡ some (t, wakes)
        → Step w (record w { lock = t; read_guards = w.read_guards - 1 })
    drops_write :
        {t : RwLock A} {wakes : List ℕ}
        → 0 < w.write_guards
        → drop_write_guard w.lock ≡ some (t, wakes)
        → Step w (record w { lock = t; write_guards = w.write_guards - 1 })
    drops_waiter :
        (i : ℕ) {t : RwLock A} {wakes : List ℕ}
        → drop_waiter w.lock i ≡ some (t, wakes)
        → Step w (record w { lock = t })
    closes :
        {t : RwLock A} {wakes : List ℕ} {r : LockResult (Unit {0})}
        → close w.lock ≡ some (t, wakes, r)
        → Step w (record w { lock = t })

  pub data Reach (value : A) (nodes : ℕ → WaiterNode) : World A → Type ℓ where
    start : Reach value nodes (record { lock = new value nodes; read_guards = 0; write_guards = 0 })
    later : {w x : World A} → Reach value nodes w → Step w x → Reach value nodes x

  -- The lock is valid and counts the guards that are alive.
  pub record Inv (w : World A) : Type ℓ where
    pub valid : IsValid w.lock
    pub reading : w.lock.readers ≡ w.read_guards
    pub writing : w.lock.writers ≡ w.write_guards

  gained :
      {w : World A} {t : RwLock A} (r x : ℕ)
      → Inv w
      → Gains w.lock t r x
      → Inv
          (record { lock = t; read_guards = w.read_guards + r; write_guards = w.write_guards + x })
  gained r x v g = record {
    valid = g.valid;
    reading = omega (arith, g.more_readers, v.reading);
    writing = omega (arith, g.more_writers, v.writing);
  }

  Step-Inv : {w x : World A} → Step w x → Inv w → Inv x
  Step-Inv {w} (reads i room free) v =
      let g = read_lem w.lock i room.for_reader free v.valid in
      record {
        valid = g.valid;
        reading = omega (arith, g.more_readers, v.reading);
        writing = omega (arith, g.more_writers, v.writing);
      }
  Step-Inv {w} (writes i room free) v =
      let g = write_lem w.lock i room.for_reader free v.valid in
      record {
        valid = g.valid;
        reading = omega (arith, g.more_readers, v.reading);
        writing = omega (arith, g.more_writers, v.writing);
      }
  Step-Inv {w} (polls i waker room) v =
      gained _ _ v (poll_lem w.lock i waker room.for_reader room.for_writer v.valid)
  Step-Inv {w} (tries_read room e) v =
      let g = try_read_lem w.lock room.for_reader v.valid e in
      record {
        valid = g.valid;
        reading = omega (arith, g.more_readers, v.reading);
        writing = omega (arith, g.more_writers, v.writing);
      }
  Step-Inv {w} (tries_write room e) v =
      let g = try_write_lem w.lock room.for_reader v.valid e in
      record {
        valid = g.valid;
        reading = omega (arith, g.more_readers, v.reading);
        writing = omega (arith, g.more_writers, v.writing);
      }
  Step-Inv {w} (drops_read {t} pos e) v =
      let (r, f, k, u) = drop_read_guard_lem w.lock (omega (arith, v.reading)) v.valid in
      let same : r ≡ (t, _) = same_result f e in
      record {
        valid = subst (λ (p : RwLock A × List ℕ). IsValid p.0) same u;
        reading =
            omega
              (arith, k.same_readers, v.reading, ap (λ (p : RwLock A × List ℕ). p.0.readers) same);
        writing =
            omega
              (arith, k.same_writers, v.writing, ap (λ (p : RwLock A × List ℕ). p.0.writers) same);
      }
  Step-Inv {w} (drops_write {t} pos e) v =
      let (r, f, k, u) = drop_write_guard_lem w.lock (omega (arith, v.writing)) v.valid in
      let same : r ≡ (t, _) = same_result f e in
      record {
        valid = subst (λ (p : RwLock A × List ℕ). IsValid p.0) same u;
        reading =
            omega
              (arith, k.same_readers, v.reading, ap (λ (p : RwLock A × List ℕ). p.0.readers) same);
        writing =
            omega
              (arith, k.same_writers, v.writing, ap (λ (p : RwLock A × List ℕ). p.0.writers) same);
      }
  Step-Inv {w} (drops_waiter i {t} e) v =
      let (r, f, k, u) = drop_waiter_keeps_guards w.lock i v.valid in
      let same : r ≡ (t, _) = same_result f e in
      record {
        valid = subst (λ (p : RwLock A × List ℕ). IsValid p.0) same u;
        reading = omega (arith, k.0, v.reading, ap (λ (p : RwLock A × List ℕ). p.0.readers) same);
        writing = omega (arith, k.1, v.writing, ap (λ (p : RwLock A × List ℕ). p.0.writers) same);
      }
  Step-Inv {w} (closes {t} e) v =
      let (r, f, u, nr, nw, _) = close_wakes_or_fails w.lock v.valid in
      let same : r ≡ (t, _, _) = same_result f e in
      record {
        valid = subst (λ (p : RwLock A × List ℕ × LockResult (Unit {0})). IsValid p.0) same u;
        reading = omega (
          arith,
          nr,
          v.reading,
          ap (λ (p : RwLock A × List ℕ × LockResult (Unit {0})). p.0.readers) same,
        );
        writing = omega (
          arith,
          nw,
          v.writing,
          ap (λ (p : RwLock A × List ℕ × LockResult (Unit {0})). p.0.writers) same,
        );
      }

  new-Inv :
      (value : A) (nodes : ℕ → WaiterNode)
      → Inv (record { lock = new value nodes; read_guards = 0; write_guards = 0 })
  unfolding new
  new-Inv value nodes = record {
    valid = record {
      distinct = tt;
      queued = λ j e. absurd (ground arith);
      shut = λ e. absurd (ground arith);
      exclusive = inl refl;
      single = omega arith;
      counted = omega arith;
      readers_fit = omega arith;
      queued_fit = omega arith;
    };
    reading = refl;
    writing = refl;
  }

  Reach-Inv : {value : A} {nodes : ℕ → WaiterNode} {w : World A} → Reach value nodes w → Inv w
  Reach-Inv {value} {nodes} start = new-Inv value nodes
  Reach-Inv (later r st) = Step-Inv st (Reach-Inv r)

  -- Whatever calls have been made, in whatever order, no write guard is alive beside a read guard or
  -- beside another write guard, and the lock is valid.
  pub Reach-exclusive :
      {value : A} {nodes : ℕ → WaiterNode} {w : World A}
      → Reach value nodes w
      → ((w.read_guards ≡ 0) ⊎ (w.write_guards ≡ 0)) × (w.write_guards ≤ 1) × IsValid w.lock
  Reach-exclusive r =
      let v = Reach-Inv r in
      (
        grind (arith, v.valid.exclusive, v.reading, v.writing),
        omega (arith, v.valid.single, v.writing),
        v.valid,
      )
