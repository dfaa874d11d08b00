-- ===== src/RwLock/Tests.antt =====
-- The lock on concrete inputs.
use glommio.Base.{
  map, ℕ, zero, suc, ◌+◌, ◌*◌, ◌≤◌, ◌<◌, ◌≡◌, refl, inl, ◌⊎◌, true, false, List, [], ◌∷◌, Option,
  none, some, arith, length,
}
use glommio.Errors.{ok, err, closed, can_not_be_closed, ResourceType}
use glommio.RwLock.{
  reader, writer, WaiterNode, RwLock, LockResult, new, poll, read, write, state_try_read,
  state_try_write, acquire_from, poll_with, try_kind, new_waiter, unmark, wake_up_fibers,
  choose_loop, wake_through_writer, wake_all, drop_waiter, close, into_inner,
}
use glommio.RwLock.Fibers.{IsQueued, IsValid, Fibers, wake_up_fibers_lem}
use glommio.RwLock.{drop_write_guard}
use glommio.RwLock.Drops.{
  Dropped, drop_write_guard_lem, drop_waiter_keeps_guards, close_wakes_or_fails,
}
use glommio.RwLock.Exclusion.{World, Reach, start, later, writes, reads, polls, Reach-exclusive}

abbrev blank : ℕ → WaiterNode
blank j = record { kind = reader; waker = none; woken = false }

-- Node 1 is a writer, the others are readers; node `j` has the waker `j`.
abbrev crowd : ℕ → WaiterNode
crowd (suc zero) = record { kind = writer; waker = some 1; woken = false }
crowd j = record { kind = reader; waker = some j; woken = false }

-- 0, 1 and 2 wait.
abbrev waiting : ℕ → ℕ → RwLock ℕ
waiting readers writers = record {
  value = some 5;
  writers = writers;
  readers = readers;
  queued_writers = 1;
  waiters_queue = 0 ∷ 1 ∷ 2 ∷ [];
  is_shut = false;
  nodes = crowd;
}

crowd-IsQueued : (j : ℕ) → IsQueued (crowd j)
crowd-IsQueued zero = record { has_waker = refl; not_woken = refl }
crowd-IsQueued (suc zero) = record { has_waker = refl; not_woken = refl }
crowd-IsQueued (suc (suc j)) = record { has_waker = refl; not_woken = refl }

waiting-IsValid : (writers : ℕ) → writers ≤ 1 → IsValid (waiting 0 writers)
waiting-IsValid writers h = record {
  distinct = (refl, (refl, (refl, tt)));
  queued = λ j e. crowd-IsQueued j;
  shut = λ e. absurd (ground arith);
  exclusive = inl refl;
  single = h;
  counted = omega arith;
  readers_fit = omega arith;
  queued_fit = omega arith;
}

-- With nobody holding it, reader 0 and writer 1 are woken and reader 2 stays.
wake_example : Option ℕ
unfolding wake_up_fibers choose_loop wake_through_writer
wake_example = elim (wake_up_fibers (waiting 0 0)) [
  | none ↦ none
  | some (t, wakes) ↦ some (length t.waiters_queue * 10 + length wakes)
]

wake_example_lem : wake_example ≡ some 12
unfolding wake_example
wake_example_lem = refl

into_inner_closed :
    into_inner (record (waiting 0 0) { is_shut = true }) ≡ some (err (closed ResourceType.rw_lock))
unfolding into_inner
into_inner_closed = refl

into_inner_open : into_inner (waiting 0 0) ≡ some (ok 5)
unfolding into_inner close wake_all
into_inner_open = refl

wake_up_fibers_lem_example :
    (r : RwLock ℕ × List ℕ) × (wake_up_fibers (waiting 0 0) ≡ some r) × Fibers (waiting 0 0) r.0 r.1
wake_up_fibers_lem_example = wake_up_fibers_lem (waiting 0 0) (waiting-IsValid 0 (omega arith))

drop_write_guard_lem_example :
    (r : RwLock ℕ × List ℕ) × (drop_write_guard (waiting 0 1) ≡ some r)
    × Fibers (waiting 0 0) r.0 r.1
    × IsValid r.0
drop_write_guard_lem_example =
    drop_write_guard_lem (waiting 0 1) (omega arith) (waiting-IsValid 1 (omega arith))

drop_waiter_keeps_guards_example :
    (r : RwLock ℕ × List ℕ) × (drop_waiter (waiting 0 1) 1 ≡ some r)
    × Dropped (waiting 0 1) 1 r
    × IsValid r.0
drop_waiter_keeps_guards_example =
    drop_waiter_keeps_guards (waiting 0 1) 1 (waiting-IsValid 1 (omega arith))

close_wakes_or_fails_example :
    (r : RwLock ℕ × List ℕ × LockResult (Unit {0})) × (close (waiting 0 0) ≡ some r)
    × IsValid r.0
    × (r.0.readers ≡ 0)
    × (r.0.writers ≡ 0)
    × (((r.2 ≡ err (can_not_be_closed ResourceType.rw_lock)) × (r.0 ≡ waiting 0 0) × (0 < 0 + 0))
        ⊎ ((r.2 ≡ ok tt)
            × (r.0.is_shut ≡ true)
            × (r.0.waiters_queue ≡ [])
            × (r.0.value ≡ some 5)
            × (some 0 ∷ some 1 ∷ some 2 ∷ [] ≡ map some r.1)
            × (false ≡ true → (r.0 ≡ waiting 0 0) × (r.1 ≡ []))))
close_wakes_or_fails_example = close_wakes_or_fails (waiting 0 0) (waiting-IsValid 0 (omega arith))

-- A writer gets the lock at once; a reader then has to wait.
contended : World ℕ
contended = record {
  lock = (poll (read (write (new 5 blank) 0).0 1).0 1 7).0;
  read_guards = 0;
  write_guards = 1;
}

contended_run : Reach 5 blank contended
unfolding contended new write read state_try_write state_try_read acquire_from poll poll_with
    try_kind new_waiter unmark
contended_run =
    later
      (later
        (later start
          (writes 0 (record { for_reader = omega arith; for_writer = omega arith }) refl))
        (reads 1 (record { for_reader = omega arith; for_writer = omega arith }) refl))
      (polls 1 7 (record { for_reader = omega arith; for_writer = omega arith }))

Reach-exclusive_example :
    ((contended.read_guards ≡ 0) ⊎ (contended.write_guards ≡ 0))
    × (contended.write_guards ≤ 1)
    × IsValid contended.lock
Reach-exclusive_example = Reach-exclusive contended_run
