-- ===== src/Task/Machine.antt =====
-- What a task of glommio/src/task does, as a machine of few phases: the flags of the header, the
-- reference count and the union are functions of the phase and of who holds a reference.
use glommio.Base.{ℕ, ◌+◌, ◌≡◌, Bool, true, false, not, List, Option, none, ◌==◌, if◌then◌else◌}
use glommio.Task.{
  State, Task, Union, future, moved, output, Cell, live, freed, Closure, queues, drops, call_waker,
}

-- A task is `disarmed` when its future has been dropped under a runnable, `stale` when it has been
-- cleaned up under one, which may have kept its flag. `polling` says whether it is to run again and whether it is cancelled.
pub data Phase (A : Type 0) : Type 0 where
  queued : Phase A
  idle : Phase A
  polling : Bool → Bool → Phase A
  cancelled : Phase A
  disarmed : Phase A
  stale : Bool → Phase A
  over : Phase A
  complete : A → Phase A
  taken : Phase A

pub record View (A : Type 0) : Type 0 where
  pub phase : Phase A
  pub handle : Bool
  pub linked : Bool
  pub awaiter : Option ℕ
  pub wakers : ℕ
  pub wakes : ℕ
  pub cleanups : ℕ
  pub woken : List ℕ

abbrev pub bits : Bool → Bool → Bool → Bool → Bool → Bool → Bool → Bool → State
bits s r c x h f d o = record {
  scheduled = s;
  running = r;
  completed = c;
  closed = x;
  handle = h;
  future_dropped = f;
  schedule_dropped = d;
  output_present = o;
}

unfoldable pub flags : {A : Type 0} → Phase A → Bool → State
flags queued h = bits true false false false h false false false
flags idle h = bits false false false false h false false false
flags (polling again stopped) h = bits again true false stopped h false false false
flags cancelled h = bits true false false true h false false false
flags disarmed h = bits true false false true h true false false
flags (stale again) h = bits again false false true h true true false
flags over h = bits false false false true h true true false
flags (complete a) h = bits false false true false h true true true
flags taken h = bits false false true true h true true false

unfoldable pub contents : {A : Type 0} → Phase A → Union A
contents queued = future
contents idle = future
contents (polling again stopped) = future
contents cancelled = future
contents disarmed = moved
contents (stale again) = moved
contents over = moved
contents (complete a) = output a
contents taken = moved

unfoldable pub is_active : {A : Type 0} → Phase A → Bool
is_active queued = true
is_active idle = true
is_active (polling again stopped) = not stopped
is_active cancelled = false
is_active disarmed = false
is_active (stale again) = false
is_active over = false
is_active (complete a) = false
is_active taken = false

-- The runnables in the queue.
unfoldable pub runnables : {A : Type 0} → Phase A → ℕ
runnables queued = 1
runnables idle = 0
runnables (polling again stopped) = 0
runnables cancelled = 1
runnables disarmed = 1
runnables (stale again) = 1
runnables over = 0
runnables (complete a) = 0
runnables taken = 0

-- The references of the registry and of the runnable, in the queue or in `run`.
unfoldable pub own_references : {A : Type 0} → Phase A → ℕ
own_references queued = 2
own_references idle = 1
own_references (polling again stopped) = 2
own_references cancelled = 2
own_references disarmed = 2
own_references (stale again) = 1
own_references over = 0
own_references (complete a) = 0
own_references taken = 0

abbrev pub one_if : Bool → ℕ
one_if true = 1
one_if false = 0

unfoldable pub total : {A : Type 0} → View A → ℕ
unfolding own_references
total v = one_if v.handle + own_references v.phase + (v.wakers + v.wakes + v.cleanups)

unfoldable pub task : {A : Type 0} → View A → Task A
unfolding flags contents is_active runnables total
task v = record {
  state = flags v.phase v.handle;
  references = total v;
  active = is_active v.phase;
  linked = v.linked;
  scheduling = false;
  awaiter = v.awaiter;
  union = contents v.phase;
  queue = runnables v.phase;
  wakes = v.wakes;
  cleanups = v.cleanups;
  woken = v.woken;
}

-- The allocation is freed when nobody holds a reference.
unfoldable pub settle : {A : Type 0} → View A → Cell A
unfolding task total
settle v = if total v == 0 then freed (task v) else live (task v)

abbrev pub at_phase : {A : Type 0} → Phase A → View A → View A
at_phase p v = record v { phase = p }

-- The phase changes and the awaiter is woken.
unfoldable pub tell : {A : Type 0} → Phase A → View A → View A
unfolding call_waker
tell p v = record v { phase = p; awaiter = none; woken = call_waker v.awaiter none v.woken }

-- The end of a task, which is then no longer in the registry.
unfoldable pub ends : {A : Type 0} → Phase A → View A → View A
unfolding tell
ends p v = record (tell p v) { linked = false }

unfoldable pub scheduled_as : {A : Type 0} → Closure → Phase A → View A → View A
unfolding ends
scheduled_as queues p v = record v { phase = p }
scheduled_as drops p v = ends over v

-- One more waker in somebody's hands.
abbrev pub more : {A : Type 0} → View A → View A
more v = record v { wakers = v.wakers + 1 }

unfoldable pub is_idle : {A : Type 0} → Phase A → Bool
is_idle queued = false
is_idle idle = true
is_idle (polling again stopped) = false
is_idle cancelled = false
is_idle disarmed = false
is_idle (stale again) = false
is_idle over = false
is_idle (complete a) = false
is_idle taken = false

-- Whether the registry still has its reference.
unfoldable pub is_held : {A : Type 0} → Phase A → Bool
is_held queued = true
is_held idle = true
is_held (polling again stopped) = true
is_held cancelled = true
is_held disarmed = true
is_held (stale again) = false
is_held over = false
is_held (complete a) = false
is_held taken = false

unfoldable pub is_complete : {A : Type 0} → Phase A → Bool
is_complete queued = false
is_complete idle = false
is_complete (polling again stopped) = false
is_complete cancelled = false
is_complete disarmed = false
is_complete (stale again) = false
is_complete over = false
is_complete (complete a) = true
is_complete taken = false

-- A task out of the registry's hands is not linked and no task waits for it, and an output waits
-- for a handle.
pub record Good {A : Type 0} (v : View A) : Type 0 where
  pub unlinked : is_held v.phase ≡ false → v.linked ≡ false
  pub told : is_held v.phase ≡ false → v.awaiter ≡ none
  pub wanted : is_complete v.phase ≡ true → v.handle ≡ true
