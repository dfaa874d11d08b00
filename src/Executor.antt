-- ===== src/Executor.antt =====
-- The task queues of an executor: `TaskQueue` and `ExecutorQueues` of glommio/src/executor/mod.rs and
-- their uses in glommio/src/executor/context.rs. Queues, which the code shares by `Rc`, are cells of a
-- store found by their index; a runnable is a number, and times are in nanoseconds. The loop that runs
-- the tasks of a queue is taken apart, since a task that runs can schedule others.
pub mod Sound
pub mod Least
pub mod Steps
pub mod Back
pub mod Cleanups
pub mod Reached
mod Tests
use glommio.Base.{
  ℕ, suc, ◌+◌, ◌-◌, ◌*◌, ◌/◌, ◌%◌, ◌^◌, min, Bool, true, false, not, ◌||◌, ◌&&◌, List, [], ◌∷◌,
  ◌++◌, map, Option, none, some, ltb, ◌==◌, if◌then◌else◌, is_empty, elem, remove, update,
}
use glommio.Errors.{Result, ok, err, GlommioError, queue_error, still_active, not_found}
use glommio.Shares.{Shares, static, dynamic, reciprocal_shares}

-- A latency requirement is the time of `Latency::Matters`.
pub record TaskQueue : Type 0 where
  pub runnables : List ℕ
  pub active : Bool
  pub shares : Shares
  pub latency : Option ℕ
  pub vruntime : ℕ
  pub last_adjustment : ℕ
  pub yielded : Bool
  pub reciprocal : ℕ
  pub runtime : ℕ
  pub queue_selected : ℕ

-- `active_executors` is a heap of shared queues by their virtual runtime, which changes only outside
-- the heap or for all queues at once; here it is the list of the indices.
pub record ExecutorQueues : Type 0 where
  pub queues : ℕ → TaskQueue
  pub active_executors : List ℕ
  pub available_executors : List ℕ
  pub active_executing : Option ℕ
  pub executor_index : ℕ
  pub default_vruntime : ℕ
  pub preempt_timer_duration : ℕ
  pub default_preempt_timer_duration : ℕ
  pub scheduler_runs : ℕ
  pub executor_runtime : ℕ
  pub tasks_executed : ℕ

abbrev pub u64 : ℕ → ℕ
u64 n = n % 2 ^ 64

-- `TaskQueue::new`
pub new_queue : Shares → Option ℕ → ℕ → TaskQueue
unfolding reciprocal_shares
new_queue shares latency now = record {
  runnables = [];
  active = false;
  shares = shares;
  latency = latency;
  vruntime = 0;
  last_adjustment = now;
  yielded = false;
  reciprocal = reciprocal_shares shares;
  runtime = 0;
  queue_selected = 0;
}

-- `ExecutorQueues::new` and the default queue of `LocalExecutor::init`.
pub new : ℕ → ℕ → ExecutorQueues
unfolding new_queue
new preempt_timer_duration now = record {
  queues = λ i. new_queue (static 1000) none now;
  active_executors = [];
  available_executors = 0 ∷ [];
  active_executing = none;
  executor_index = 1;
  default_vruntime = 0;
  preempt_timer_duration = preempt_timer_duration;
  default_preempt_timer_duration = preempt_timer_duration;
  scheduler_runs = 0;
  executor_runtime = 0;
  tasks_executed = 0;
}

-- The element of the heap with the least virtual runtime.
pub least : (ℕ → TaskQueue) → ℕ → List ℕ → ℕ
least queues best [] = best
least queues best (i ∷ rest) =
    if ltb (queues i).vruntime (queues best).vruntime
    then least queues i rest
    else least queues best rest

pub peek : (ℕ → TaskQueue) → List ℕ → Option ℕ
unfolding least
peek queues [] = none
peek queues (i ∷ rest) = some (least queues i rest)

pub required : ExecutorQueues → Option ℕ → ℕ
required s none = s.default_preempt_timer_duration
required s (some d) = d

pub shortest : ExecutorQueues → List ℕ → ℕ
unfolding required
shortest s [] = s.default_preempt_timer_duration
shortest s (i ∷ []) = required s (s.queues i).latency
shortest s (i ∷ j ∷ rest) = min (required s (s.queues i).latency) (shortest s (j ∷ rest))

pub reevaluate_preempt_timer : ExecutorQueues → ExecutorQueues
unfolding shortest
reevaluate_preempt_timer s = record s { preempt_timer_duration = shortest s s.active_executors }

-- The addition wraps in a release build.
pub activate : ExecutorQueues → ℕ → ExecutorQueues
unfolding reevaluate_preempt_timer
activate s i = reevaluate_preempt_timer (record s {
  queues =
      update s.queues i
        (record (s.queues i) { vruntime = u64 (s.default_vruntime + 1); active = true });
  active_executors = i ∷ s.active_executors;
})

pub maybe_activate : ExecutorQueues → ℕ → ExecutorQueues
unfolding activate
maybe_activate s i = if (s.queues i).active then s else activate s i

-- `ExecutorContext::schedule`
pub schedule : ExecutorQueues → ℕ → ℕ → ExecutorQueues
unfolding maybe_activate
schedule s i runnable =
    maybe_activate
      (record s {
        queues =
            update s.queues i
              (record (s.queues i) { runnables = (s.queues i).runnables ++ (runnable ∷ []) });
      })
      i

pub create_task_queue : ExecutorQueues → Shares → Option ℕ → ℕ → ExecutorQueues × ℕ
unfolding new_queue
create_task_queue s shares latency now = (
  record s {
    executor_index = s.executor_index + 1;
    queues = update s.queues s.executor_index (new_queue shares latency now);
    available_executors = s.executor_index ∷ s.available_executors;
  },
  s.executor_index,
)

pub is_executing : Option ℕ → ℕ → Bool
is_executing none i = false
is_executing (some j) i = j == i

pub remove_task_queue : ExecutorQueues → ℕ → Result (Unit {0}) ExecutorQueues
unfolding is_executing
remove_task_queue s i =
    if is_executing s.active_executing i
    then err (queue_error i still_active)
    else if elem i s.available_executors
    then if (s.queues i).active
      then err (queue_error i still_active)
      else ok (record s { available_executors = remove i s.available_executors })
    else err (queue_error i not_found)

pub get_queue : ExecutorQueues → ℕ → Option TaskQueue
get_queue s i = if elem i s.available_executors then some (s.queues i) else none

pub mark_for_yield : ExecutorQueues → Option ℕ → Option ExecutorQueues
mark_for_yield s none = none
mark_for_yield s (some i) =
    some (record s { queues = update s.queues i (record (s.queues i) { yielded = true }) })

-- The panic is that no queue is being executed.
pub mark_me_for_yield : ExecutorQueues → Option ExecutorQueues
unfolding mark_for_yield
mark_me_for_yield s = mark_for_yield s s.active_executing

-- The adjustment period belongs to the shares manager.
pub adjust : Shares → ℕ → ℕ → TaskQueue → TaskQueue
unfolding reciprocal_shares
adjust (static n) now period q = q
adjust (dynamic n) now period q =
    if ltb period (now - q.last_adjustment)
    then record q { last_adjustment = now; reciprocal = reciprocal_shares (dynamic n) }
    else q

pub prepare_to_run : TaskQueue → ℕ → ℕ → TaskQueue
unfolding adjust
prepare_to_run q now period = adjust q.shares now period (record q { yielded = false })

-- The queue that is taken out of the heap is being executed.
pub set_aside : ExecutorQueues → ℕ → ℕ → Option ℕ → ExecutorQueues × Option ℕ
unfolding prepare_to_run
set_aside s now period none = (s, none)
set_aside s now period (some i) = (
  record s {
    active_executors = remove i s.active_executors;
    active_executing = some i;
    queues = update s.queues i (prepare_to_run (s.queues i) now period);
  },
  some i,
)

-- `run_one_task_queue` up to its loop: the queue that it takes, if there is one.
pub take_queue : ExecutorQueues → ℕ → ℕ → ExecutorQueues × Option ℕ
unfolding peek set_aside
take_queue s now period =
    set_aside (record s { scheduler_runs = s.scheduler_runs + 1 }) now period
      (peek s.queues s.active_executors)

pub pop_front : List ℕ → List ℕ × Option ℕ
pop_front [] = ([], none)
pop_front (r ∷ rs) = (rs, some r)

-- One round of the loop: the runnable that is to run, unless the loop is left.
pub next_task : ExecutorQueues → ℕ → Bool → ExecutorQueues × Option ℕ
unfolding pop_front
next_task s i need_preempt =
    if need_preempt || (s.queues i).yielded
    then (s, none)
    else let r = pop_front (s.queues i).runnables in
      (record s { queues = update s.queues i (record (s.queues i) { runnables = r.0 }) }, r.1)

-- The queue after the time `delta`, and its virtual runtime unless that overflows.
pub account_vruntime : TaskQueue → ℕ → TaskQueue × Option ℕ
account_vruntime q delta =
    let delta_scaled = u64 (q.reciprocal * u64 delta) / 2 ^ 12 in
    let q = record q {
      runtime = q.runtime + delta;
      queue_selected = q.queue_selected + 1;
      active = not (is_empty q.runnables);
    } in
    if ltb (q.vruntime + delta_scaled) (2 ^ 64)
    then (record q { vruntime = q.vruntime + delta_scaled }, some (q.vruntime + delta_scaled))
    else (q, none)

-- The virtual runtimes of all queues start again after an overflow.
pub reset : ExecutorQueues → ExecutorQueues
reset s = record s {
  queues = λ i.
      if elem i s.available_executors then record (s.queues i) { vruntime = 0 } else s.queues i;
}

pub settle_vruntime : ExecutorQueues → Option ℕ → ExecutorQueues × ℕ
unfolding reset
settle_vruntime s (some v) = (s, v)
settle_vruntime s none = (reset s, 0)

pub least_vruntime : ExecutorQueues → ℕ → ℕ
unfolding peek
least_vruntime s v = elim (peek s.queues s.active_executors) [
  | none ↦ v
  | some i ↦ (s.queues i).vruntime
]

pub push_or_reevaluate : ExecutorQueues → ℕ → Bool → ExecutorQueues
unfolding reevaluate_preempt_timer
push_or_reevaluate s i true = record s { active_executors = i ∷ s.active_executors }
push_or_reevaluate s i false = reevaluate_preempt_timer s

-- `run_one_task_queue` from the end of its loop, after `elapsed` and `executed` tasks.
pub put_back : ExecutorQueues → ℕ → ℕ → ℕ → ExecutorQueues
unfolding account_vruntime settle_vruntime push_or_reevaluate least_vruntime
put_back s i elapsed executed =
    let (q, v) = account_vruntime (s.queues i) elapsed in
    let (s, v) =
      settle_vruntime
        (record s {
          queues = update s.queues i q;
          active_executing = none;
          executor_runtime = s.executor_runtime + elapsed;
          tasks_executed = s.tasks_executed + executed;
        })
        v in
    let s = push_or_reevaluate s i q.active in record s { default_vruntime = least_vruntime s v }

-- `or_else(|| available_executors.values().next())` and the queue that is made without one; what
-- `next` of the hash map gives is an argument.
pub other_queue : ExecutorQueues → Option ℕ → ℕ → ExecutorQueues × ℕ
unfolding create_task_queue
other_queue s (some i) now = (s, i)
other_queue s none now = create_task_queue s (static 1000) none now

pub cleanup_queue : ExecutorQueues → Option ℕ → ℕ → ExecutorQueues × ℕ
unfolding other_queue
cleanup_queue s other now = if elem 0 s.available_executors then (s, 0) else other_queue s other now

-- The queue in whose context a cleanup runs: the one that is given, the one in execution, or another.
pub context_queue : ExecutorQueues → Option ℕ → Option ℕ → Option ℕ → ℕ → ExecutorQueues × ℕ
unfolding cleanup_queue
context_queue s (some i) executing other now = (s, i)
context_queue s none (some i) other now = (s, i)
context_queue s none none other now = cleanup_queue s other now

pub executing_as : ExecutorQueues × ℕ → ExecutorQueues × Option ℕ
executing_as (s, i) = (record s { active_executing = some i }, s.active_executing)

-- `with_cleanup` up to its callback, with the queue that was in execution before.
pub enter_cleanup : ExecutorQueues → Option ℕ → Option ℕ → ℕ → ExecutorQueues × Option ℕ
unfolding context_queue executing_as
enter_cleanup s queue other now = executing_as (context_queue s queue s.active_executing other now)

-- The end of `with_cleanup`.
pub leave_cleanup : ExecutorQueues → Option ℕ → ExecutorQueues
leave_cleanup s previous = record s { active_executing = previous }

-- One runnable that `finish_shutdown` takes out of a queue.
pub take_task : ExecutorQueues → ℕ → ExecutorQueues × Option ℕ
unfolding pop_front
take_task s i =
    let r = pop_front (s.queues i).runnables in
    (record s { queues = update s.queues i (record (s.queues i) { runnables = r.0 }) }, r.1)
