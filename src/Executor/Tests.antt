-- ===== src/Executor/Tests.antt =====
-- An executor with two task queues in a short run, and instances of its theorems.
use glommio.Base.{
  ℕ, ◌≤◌, ◌≡◌, refl, ◌⊎◌, true, false, [], ◌∷◌, none, some, arith, is_empty, elem, Distinct,
}
use glommio.Shares.{static}
use glommio.Executor.{
  ExecutorQueues, new, new_queue, schedule, maybe_activate, activate, reevaluate_preempt_timer,
  create_task_queue, take_queue, remove_task_queue, is_executing, enter_cleanup, context_queue,
  executing_as,
}
use glommio.Executor.Sound.{executes}
use glommio.Executor.Reached.{
  Reach, start, later, schedules, creates, enters, Reach-in_reach, Reach-takes_least,
  Reach-removes_idle,
}

two_queues : ExecutorQueues
unfolding create_task_queue
two_queues = (create_task_queue (new 100 0) (static 500) (some 10) 0).0

two_queues_run : Reach 100 0 two_queues []
unfolding two_queues
two_queues_run = later start (creates (static 500) (some 10) 0)

-- Task 42 is scheduled in the queue 1.
waiting : ExecutorQueues
unfolding schedule two_queues
waiting = schedule two_queues 1 42

waiting_run : Reach 100 0 waiting []
unfolding waiting two_queues create_task_queue new
waiting_run = later two_queues_run (schedules 1 42 (omega arith))

-- A cleanup of queue 1, which is active, is under way; the loop executes nothing.
cleaning : ExecutorQueues
unfolding waiting enter_cleanup
cleaning = (enter_cleanup waiting (some 1) none 0).0

cleaning_run : Reach 100 0 cleaning (none ∷ [])
unfolding cleaning waiting two_queues enter_cleanup context_queue executing_as create_task_queue new
    schedule maybe_activate activate reevaluate_preempt_timer
cleaning_run = later waiting_run (enters (some 1) none 0)

Reach-in_reach_example :
    Distinct cleaning.active_executors
    × (((elem 1 cleaning.active_executors ≡ true) × (executes none 1 ≡ false))
        ⊎ ((elem 1 cleaning.active_executors ≡ false) × (executes none 1 ≡ true)))
unfolding cleaning enter_cleanup context_queue executing_as waiting two_queues create_task_queue new
    new_queue schedule maybe_activate activate reevaluate_preempt_timer
Reach-in_reach_example = Reach-in_reach 1 cleaning_run refl

Reach-takes_least_example :
    (i : ℕ) × ((take_queue waiting 3 0).1 ≡ some i)
    × (elem i waiting.active_executors ≡ true)
    × ((waiting.queues i).vruntime ≤ (waiting.queues 1).vruntime)
unfolding waiting two_queues create_task_queue new new_queue schedule maybe_activate activate
    reevaluate_preempt_timer
Reach-takes_least_example = Reach-takes_least 1 3 0 waiting_run refl refl

-- During a cleanup of queue 0, queue 1 is removed.
tidying : ExecutorQueues
unfolding two_queues enter_cleanup
tidying = (enter_cleanup two_queues (some 0) none 0).0

tidying_run : Reach 100 0 tidying (none ∷ [])
unfolding tidying two_queues enter_cleanup context_queue executing_as create_task_queue new
tidying_run = later two_queues_run (enters (some 0) none 0)

abbrev without_1 : ExecutorQueues
unfolding tidying
without_1 = record tidying { available_executors = 0 ∷ [] }

Reach-removes_idle_example :
    (is_empty (tidying.queues 1).runnables ≡ true)
    × (elem 1 without_1.active_executors ≡ false)
    × (executes without_1.active_executing 1 ≡ false)
    × (executes none 1 ≡ false)
unfolding without_1 tidying enter_cleanup context_queue executing_as two_queues create_task_queue
    new new_queue remove_task_queue is_executing
Reach-removes_idle_example = Reach-removes_idle 1 tidying_run refl
