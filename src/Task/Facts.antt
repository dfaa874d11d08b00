-- ===== src/Task/Facts.antt =====
-- What the phase of a task of glommio/src/task says of its flags and of its count.
use glommio.Base.{◌<◌, ◌≡◌, refl, Bool, true, false, ◌||◌, arith, ap, ◌⊎◌, inl, inr}
use glommio.Task.Machine.{
  Phase, queued, idle, polling, cancelled, disarmed, stale, over, complete, taken, View, flags,
  runnables, own_references, total, one_if, at_phase, is_idle,
}

pub or_true : (a b : Bool) → (a || b) ≡ true → (a ≡ true) ⊎ (b ≡ true)
or_true true b e = inl refl
or_true false b e = inr e

pub data Polling {A : Type 0} : Phase A → Type 0 where
  is_polling : (again stopped : Bool) → Polling (polling again stopped)

pub running-Polling : {A : Type 0} (p : Phase A) (h : Bool) → (flags p h).running ≡ true → Polling p
unfolding flags
running-Polling queued h e = absurd (cc)
running-Polling idle h e = absurd (cc)
running-Polling (polling again stopped) h e = is_polling again stopped
running-Polling cancelled h e = absurd (cc)
running-Polling disarmed h e = absurd (cc)
running-Polling (stale again) h e = absurd (cc)
running-Polling over h e = absurd (cc)
running-Polling (complete a) h e = absurd (cc)
running-Polling taken h e = absurd (cc)

pub own-Polling : {A : Type 0} (p : Phase A) → Polling p → own_references p ≡ 2
unfolding own_references
own-Polling p (is_polling again stopped) = refl

pub Polling-total : {A : Type 0} (v : View A) → Polling v.phase → 1 < total v
unfolding total
Polling-total v q = omega (arith, own-Polling v.phase q)

pub handle_flag : {A : Type 0} (p : Phase A) (h : Bool) → (flags p h).handle ≡ h
unfolding flags
handle_flag queued h = refl
handle_flag idle h = refl
handle_flag (polling again stopped) h = refl
handle_flag cancelled h = refl
handle_flag disarmed h = refl
handle_flag (stale again) h = refl
handle_flag over h = refl
handle_flag (complete a) h = refl
handle_flag taken h = refl

pub one_runnable : {A : Type 0} (p : Phase A) → 0 < runnables p → runnables p ≡ 1
unfolding runnables
one_runnable queued h = refl
one_runnable idle h = absurd (omega arith)
one_runnable (polling again stopped) h = absurd (omega arith)
one_runnable cancelled h = refl
one_runnable disarmed h = refl
one_runnable (stale again) h = refl
one_runnable over h = absurd (omega arith)
one_runnable (complete a) h = absurd (omega arith)
one_runnable taken h = absurd (omega arith)

pub idle_runnables : {A : Type 0} (p : Phase A) → 0 < runnables p → is_idle p ≡ false
unfolding runnables is_idle
idle_runnables queued h = refl
idle_runnables idle h = absurd (omega arith)
idle_runnables (polling again stopped) h = refl
idle_runnables cancelled h = refl
idle_runnables disarmed h = refl
idle_runnables (stale again) h = refl
idle_runnables over h = refl
idle_runnables (complete a) h = refl
idle_runnables taken h = refl

pub idle_handle :
    {A : Type 0} (p : Phase A) (v : View A)
    → v.handle ≡ true
    → is_idle p ≡ true
    → 1 < total (at_phase p v)
unfolding is_idle total own_references
idle_handle idle v h e = omega (arith, ap one_if h)
idle_handle queued v h e = absurd (cc)
idle_handle (polling again stopped) v h e = absurd (cc)
idle_handle cancelled v h e = absurd (cc)
idle_handle disarmed v h e = absurd (cc)
idle_handle (stale again) v h e = absurd (cc)
idle_handle over v h e = absurd (cc)
idle_handle (complete a) v h e = absurd (cc)
idle_handle taken v h e = absurd (cc)

pub own_runnable : {A : Type 0} (p : Phase A) → 0 < runnables p → 0 < own_references p
unfolding runnables own_references
own_runnable queued h = omega arith
own_runnable idle h = omega arith
own_runnable (polling again stopped) h = omega arith
own_runnable cancelled h = omega arith
own_runnable disarmed h = omega arith
own_runnable (stale again) h = omega arith
own_runnable over h = absurd (omega arith)
own_runnable (complete a) h = absurd (omega arith)
own_runnable taken h = absurd (omega arith)
