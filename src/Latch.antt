-- ===== src/Latch.antt =====
-- glommio/src/executor/latch.rs. An update of the atomic counter is one step and setting the state
-- under the mutex is another, so that the threads of a run can interleave between them.
pub mod Laws
mod Tests
use glommio.Base.{ℕ, ◌-◌, Bool, true, false, not, Option, none, some, ltb, leb, ◌==◌, if◌then◌else◌}

pub data LatchState : Type 0 where
  pending : LatchState
  ready : LatchState
  canceled : LatchState

-- `struct LatchInner`; the condition variable has no state of its own.
pub record Latch : Type 0 where
  pub count : ℕ
  pub state : LatchState

pub data Counted (E : Type 0) : Type 0 where
  ok : ℕ → Counted E
  err : E → Counted E

pub new : ℕ → Latch
new count = record { count = count; state = if ltb 0 count then pending else ready }

pub set_state : Latch → LatchState → Latch
set_state l s = record l { state = s }

-- `wait_while` returns the state once it is not pending; until then the thread sleeps.
pub wait : Latch → Option LatchState
wait l = elim l.state [ pending ↦ none | ready ↦ some ready | canceled ↦ some canceled ]

-- `fetch_update`: the counter, and its value before.
pub fetch_update : Latch → Option ℕ → Latch × Counted ℕ
fetch_update l none = (l, err l.count)
fetch_update l (some n) = (record l { count = n }, ok l.count)

-- The second step of `update`, when the new value of the counter was 0.
pub settle_zero : Latch × Counted ℕ → Option ℕ → LatchState → Latch × Counted ℕ
unfolding set_state
settle_zero (l, r) none state_if_zero = (l, r)
settle_zero (l, r) (some n) state_if_zero =
    if n == 0 then (set_state l state_if_zero, r) else (l, r)

pub update : Latch → LatchState → (ℕ → Option ℕ) → Latch × Counted ℕ
unfolding fetch_update settle_zero
update l state_if_zero f = settle_zero (fetch_update l (f l.count)) (f l.count) state_if_zero

pub less : ℕ → ℕ → Option ℕ
less n v = if leb n v then some (v - n) else none

pub to_zero : ℕ → Option ℕ
to_zero v = if not (v == 0) then some 0 else none

pub count_down : Latch → ℕ → Latch × Counted ℕ
unfolding update less
count_down l n = update l ready (less n)

-- The error of `cancel` is what `wait` returns; `none` as the error is a wait that sleeps.
pub cancel_result : Latch × Counted ℕ → Latch × Counted (Option LatchState)
unfolding wait
cancel_result (l, ok n) = (l, ok n)
cancel_result (l, err n) = (l, err (wait l))

pub cancel : Latch → Latch × Counted (Option LatchState)
unfolding cancel_result update to_zero
cancel l = cancel_result (update l canceled to_zero)

-- `arrive_and_wait`: the count down and the state of the wait that follows.
pub arrive_and_wait : Latch → Latch × Option LatchState
unfolding count_down wait
arrive_and_wait l = let r = count_down l 1 in (r.0, wait r.0)
