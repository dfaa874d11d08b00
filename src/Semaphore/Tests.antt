-- ===== src/Semaphore/Tests.antt =====
-- The semaphore on concrete inputs.
use glommio.Base.{
  map, zero, suc, ℕ, ◌+◌, ◌≡◌, refl, true, false, List, [], ◌∷◌, Option, none, some, arith, elem,
  option_map,
}
use glommio.Errors.{err, would_block, ResourceType}
use glommio.Semaphore.{
  WaiterNode, Semaphore, new, acquire, poll, signal, drop_waiter, try_acquire, try_acquire_permit,
  state_try_acquire, wake_fitting, poll_with, acquire_from, process_wakes,
}
use glommio.Semaphore.Wakes.{IsQueued, Woke, wake_fitting_lem}
use glommio.Semaphore.Invariant.{IsValid, Woken}
use glommio.Semaphore.Cancel.{Dropped, signal_wakes_fitting, drop_waiter_passes_on}
use glommio.Semaphore.Units.{
  World, Reach, start, later, acquires, polls, gives, NoPanic, Reach-NoPanic,
}
use glommio.Semaphore.Conservation.{Reach-units}
use glommio.Semaphore.Cancel.{close_wakes_all}
use glommio.Semaphore.{close}

abbrev blank : ℕ → WaiterNode
blank j = record { units = 0; waker = none; woken = false }

abbrev want : ℕ → ℕ → WaiterNode
want units k = record { units = units; waker = some k; woken = false }

-- Node 0 wants 5 units, node 1 wants 1, both wait.
abbrev crowd : ℕ → WaiterNode
crowd zero = want 5 10
crowd (suc j) = want 1 11

abbrev waiting : ℕ → Semaphore
waiting avail = record { avail = avail; is_shut = false; waiters_list = 0 ∷ 1 ∷ []; nodes = crowd }

waiting-IsQueued : (j : ℕ) → elem j (0 ∷ 1 ∷ []) ≡ true → IsQueued (crowd j)
waiting-IsQueued zero e = record { has_waker = refl; not_woken = refl; wants = omega arith }
waiting-IsQueued (suc j) e = record { has_waker = refl; not_woken = refl; wants = omega arith }

waiting-IsValid : IsValid (waiting 2)
waiting-IsValid = record {
  distinct = (refl, (refl, tt));
  queued = waiting-IsQueued;
  shut = λ e. cc;
  small = omega arith;
}

-- With 2 units the first waiter is passed over and the second is woken.
signal_skips :
    option_map {B = List ℕ × List ℕ} (λ r. (r.0, r.2)) (wake_fitting 2 (0 ∷ 1 ∷ []) crowd)
    ≡ some (0 ∷ [], 11 ∷ [])
unfolding wake_fitting
signal_skips = refl

would_block_error :
    try_acquire_permit (waiting 7) 3 ≡ err (would_block (ResourceType.semaphore 3 7))
unfolding try_acquire_permit try_acquire
would_block_error = refl

wake_fitting_lem_example :
    (r : List ℕ × (ℕ → WaiterNode) × List ℕ) × (wake_fitting 2 (0 ∷ 1 ∷ []) crowd ≡ some r)
    × Woke 2 (0 ∷ 1 ∷ []) crowd r
wake_fitting_lem_example = wake_fitting_lem 2 (0 ∷ 1 ∷ []) crowd (refl, (refl, tt)) waiting-IsQueued

signal_wakes_fitting_example :
    (r : Semaphore × List ℕ) × (signal (waiting 2) 3 ≡ some r) × Woken (waiting 2) 3 r × IsValid r.0
signal_wakes_fitting_example = signal_wakes_fitting (waiting 2) 3 waiting-IsValid

drop_waiter_passes_on_example :
    (r : Semaphore × List ℕ) × (drop_waiter (waiting 2) 0 ≡ some r)
    × Dropped (waiting 2) 0 r
    × IsValid r.0
drop_waiter_passes_on_example = drop_waiter_passes_on (waiting 2) 0 waiting-IsValid

-- Waiter 1 wants 5 units and waits. 5 come, and wake it; before it is polled, waiter 2 takes one.
queued_world : World
queued_world = record { sem = (poll (acquire (new 0 blank) 1 5).0 1 10).0; taken = 0; returned = 0 }

queued_run : Reach 0 blank queued_world
unfolding queued_world acquire try_acquire state_try_acquire poll new
queued_run = later (later start (acquires 1 5 refl)) (polls 1 10)

Reach-NoPanic_example : IsValid queued_world.sem × NoPanic queued_world.sem
Reach-NoPanic_example = Reach-NoPanic (omega arith) queued_run

Reach-units_example : queued_world.sem.avail + queued_world.taken ≡ 0 + queued_world.returned
unfolding queued_world
Reach-units_example = Reach-units queued_run (omega arith)

close_wakes_all_example :
    (r : Semaphore × List ℕ) × (close (waiting 2) ≡ some r)
    × (r.0.is_shut ≡ true)
    × (r.0.waiters_list ≡ [])
    × (r.0.avail ≡ 2)
    × (map (λ j. (crowd j).waker) (waiting 2).waiters_list ≡ map some r.1)
    × IsValid r.0
close_wakes_all_example = close_wakes_all (waiting 2) waiting-IsValid

-- From 0 units: waiter 1 wants 5 and waiter 2 wants 1, and both wait. A signal of 5 wakes waiter 1.
-- Before it runs, waiter 3 takes one unit on its first poll. Waiter 1 is polled and waits again.
-- Then 4 units are free, waiter 2 wants 1 and is in the list, and nobody has a wake-up left.
abbrev two_wait : Semaphore
two_wait = (poll (acquire (poll (acquire (new 0 blank) 1 5).0 1 10).0 2 1).0 2 11).0

abbrev after : Option (Semaphore × List ℕ) → Semaphore
after none = two_wait
after (some (s, _)) = s

abbrev lost : Semaphore
lost = (poll (poll (acquire (after (signal two_wait 5)) 3 1).0 3 12).0 1 10).0

lost_world : World
lost_world = record { sem = lost; taken = 1; returned = 5 }

lost_run : Reach 0 blank lost_world
unfolding lost_world acquire try_acquire acquire_from state_try_acquire poll poll_with new signal
    process_wakes wake_fitting
lost_run =
    later
      (later
        (later
          (later
            (later
              (later (later (later start (acquires 1 5 refl)) (polls 1 10)) (acquires 2 1 refl))
              (polls 2 11))
            (gives 5 refl))
          (acquires 3 1 refl))
        (polls 3 12))
      (polls 1 10)

lost_wake :
    (lost.avail ≡ 4)
    × (lost.waiters_list ≡ 2 ∷ 1 ∷ [])
    × ((lost.nodes 2).units ≡ 1)
    × ((lost.nodes 1).woken ≡ false)
    × ((lost.nodes 2).woken ≡ false)
    × ((lost.nodes 3).woken ≡ false)
unfolding acquire try_acquire acquire_from state_try_acquire poll poll_with new signal process_wakes
    wake_fitting
lost_wake = (refl, refl, refl, refl, refl, refl)
