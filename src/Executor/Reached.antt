-- ===== src/Executor/Reached.antt =====
-- The runs of the task queues of an executor of glommio/src/executor: queues are made and removed,
-- runnables are scheduled from everywhere, and the loop takes its turns, in any order.
use glommio.Base.{
  ℕ, ◌≤◌, ◌<◌, ◌≡◌, refl, sym, ap, subst, ◌∙◌, ◌⊎◌, inl, inr, Bool, true, false, not, List, [], ◌∷◌,
  Option, none, some, arith, is_empty, elem, remove, Distinct,
}
use glommio.Errors.{ok}
use glommio.Executor.{
  ExecutorQueues, new, create_task_queue, remove_task_queue, mark_me_for_yield, take_queue,
  next_task, put_back, is_executing, enter_cleanup, leave_cleanup, take_task, schedule,
}
use glommio.Shares.{Shares}
use glommio.Executor.Sound.{Fits, Sound, executes, new-Sound, outermost, outside, outside-schedule}
use glommio.Executor.Least.{peek-least, peek-none}
use glommio.Executor.Steps.{take-Sound, take-some, peek-cases, next-Sound, rest-Sound}
use glommio.Executor.Cleanups.{
  outside-create, outside-remove, outside-marked, context_queue-Entered,
}
use glommio.Executor.Back.{put_back-Sound}

-- One call, or one part of a call, and the queues that the cleanups under way put back. The loop
-- takes its turns when no cleanup is under way.
pub data Step (s : ExecutorQueues) (saved : List (Option ℕ))
    : ExecutorQueues → List (Option ℕ) → Type 0 where
  schedules : (i runnable : ℕ) → i < s.executor_index → Step s saved (schedule s i runnable) saved
  creates :
      (shares : Shares) (latency : Option ℕ) (now : ℕ)
      → Step s saved (create_task_queue s shares latency now).0 saved
  removes : (i : ℕ) {t : ExecutorQueues} → remove_task_queue s i ≡ ok t → Step s saved t saved
  yields : {t : ExecutorQueues} → mark_me_for_yield s ≡ some t → Step s saved t saved
  takes :
      (now period : ℕ)
      → saved ≡ []
      → s.active_executing ≡ none
      → Step s saved (take_queue s now period).0 saved
  nexts :
      (i : ℕ) (need_preempt : Bool)
      → saved ≡ []
      → s.active_executing ≡ some i
      → Step s saved (next_task s i need_preempt).0 saved
  puts :
      (i elapsed executed : ℕ)
      → saved ≡ []
      → s.active_executing ≡ some i
      → Step s saved (put_back s i elapsed executed) saved
  enters :
      (queue other : Option ℕ) (now : ℕ)
      → Step s saved
          (enter_cleanup s queue other now).0
          ((enter_cleanup s queue other now).1 ∷ saved)
  leaves :
      (previous : Option ℕ) (rest : List (Option ℕ))
      → saved ≡ previous ∷ rest
      → Step s saved (leave_cleanup s previous) rest
  drains : (i : ℕ) → Step s saved (take_task s i).0 saved

pub data Reach (timer now : ℕ) : ExecutorQueues → List (Option ℕ) → Type 0 where
  start : Reach timer now (new timer now) []
  later :
      {s t : ExecutorQueues} {saved saved' : List (Option ℕ)}
      → Reach timer now s saved
      → Step s saved t saved'
      → Reach timer now t saved'

-- A queue that is removed is neither active nor in execution.
remove-ok :
    (s t : ExecutorQueues) (i : ℕ)
    → remove_task_queue s i ≡ ok t
    → (is_executing s.active_executing i ≡ false)
      × ((s.queues i).active ≡ false)
      × (elem i s.available_executors ≡ true)
      × (t ≡ record s { available_executors = remove i s.available_executors })
unfolding remove_task_queue
remove-ok s t i e = ground arith

-- In a loop step no cleanup is under way.
loop_step :
    {s t : ExecutorQueues} (saved : List (Option ℕ))
    → saved ≡ []
    → (Sound s → Sound t)
    → Sound (outside s saved)
    → Sound (outside t saved)
loop_step {s} {t} saved e f v =
    subst (λ l. Sound (outside t l)) (sym e) (f (subst (λ l. Sound (outside s l)) e v))

Step-Sound :
    {s t : ExecutorQueues} {saved saved' : List (Option ℕ)}
    → Step s saved t saved'
    → Sound (outside s saved)
    → Sound (outside t saved')
unfolding mark_me_for_yield enter_cleanup leave_cleanup take_task
Step-Sound {s} {saved = saved} (schedules i r h) v = outside-schedule s saved i r h v
Step-Sound {s} {saved = saved} (creates shares latency now) v =
    outside-create s saved shares latency now v
Step-Sound {s} {saved = saved} (removes i {t} e) v =
    subst (λ u. Sound (outside u saved)) (sym (remove-ok s t i e).3)
      (outside-remove s saved (remove i s.available_executors) v)
Step-Sound {s} {saved = saved} (yields {t} e) v = outside-marked s t saved s.active_executing e v
Step-Sound {s} {saved = saved} (takes now period l e) v =
    loop_step saved l (take-Sound s now period e) v
Step-Sound {s} {saved = saved} (nexts i need_preempt l e) v =
    loop_step saved l (next-Sound s i need_preempt e) v
Step-Sound {s} {saved = saved} (puts i elapsed executed l e) v =
    loop_step saved l (put_back-Sound s i elapsed executed e) v
Step-Sound {s} {saved = saved} (enters queue other now) v =
    context_queue-Entered s saved queue s.active_executing other now v
Step-Sound {s} (leaves previous rest l) v = subst (λ k. Sound (outside s k)) l v
Step-Sound {s} {saved = saved} (drains i) v = rest-Sound (outside s saved) i v

pub Reach-Sound :
    {timer now : ℕ} {s : ExecutorQueues} {saved : List (Option ℕ)}
    → Reach timer now s saved
    → Sound (outside s saved)
Reach-Sound {timer} {now} start = new-Sound timer now
Reach-Sound (later r st) = Step-Sound st (Reach-Sound r)

true_is_false : true ≡ false → ⊥
true_is_false e = absurd (cc)

nowhere :
    (false ≡ true) ⊎ (false ≡ true)
    → ((false ≡ true) × (false ≡ false)) ⊎ ((false ≡ false) × (false ≡ true))
nowhere (inl e) = inl (e, refl)
nowhere (inr e) = inr (refl, e)

placed :
    (active waiting in_heap executing : Bool)
    → Fits active waiting in_heap executing
    → waiting ≡ true
    → ((in_heap ≡ true) × (executing ≡ false)) ⊎ ((in_heap ≡ false) × (executing ≡ true))
placed active waiting true true f h = absurd (true_is_false (f.2 refl).1)
placed active waiting true false f h = inl (refl, refl)
placed active waiting false true f h = inr (refl, refl)
placed active waiting false false f h = nowhere (f.3 (f.1 h))

unplaced :
    (active waiting in_heap executing : Bool)
    → Fits active waiting in_heap executing
    → active ≡ false
    → (waiting ≡ false) × (in_heap ≡ false) × (executing ≡ false)
unplaced active waiting in_heap executing f e = ground arith

-- In every run of an executor, with cleanups in any order, each queue that has runnables is where the
-- loop finds it: among the active queues, in which it stands once, or the one that the loop executes,
-- and not both. While cleanups are under way the queue that the loop executes is the outermost one.
pub Reach-in_reach :
    {timer now : ℕ} {s : ExecutorQueues} {saved : List (Option ℕ)} (i : ℕ)
    → Reach timer now s saved
    → is_empty (s.queues i).runnables ≡ false
    → Distinct s.active_executors
      × (((elem i s.active_executors ≡ true)
            × (executes (outermost saved s.active_executing) i ≡ false))
          ⊎ ((elem i s.active_executors ≡ false)
              × (executes (outermost saved s.active_executing) i ≡ true)))
Reach-in_reach {s = s} {saved = saved} i r h =
    let v = Reach-Sound r in
    (
      v.distinct,
      placed (s.queues i).active (not (is_empty (s.queues i).runnables)) (elem i s.active_executors)
          (executes (outermost saved s.active_executing) i) (v.fits i) (ap not h),
    )

only_listed :
    {a b : Bool} → ((a ≡ true) × (b ≡ false)) ⊎ ((a ≡ false) × (b ≡ true)) → b ≡ false → a ≡ true
only_listed (inl (e, f)) h = e
only_listed (inr (e, f)) h = absurd (cc)

double_negation : {b : Bool} → not b ≡ false → b ≡ true
double_negation e = ground arith

-- In every run of an executor, when no cleanup is under way, no queue is in execution and some queue has runnables, the loop
-- takes an active queue, and none that is active has a smaller virtual runtime.
pub Reach-takes_least :
    {timer now : ℕ} {s : ExecutorQueues} (j time period : ℕ)
    → Reach timer now s []
    → s.active_executing ≡ none
    → is_empty (s.queues j).runnables ≡ false
    → (i : ℕ) × ((take_queue s time period).1 ≡ some i)
      × (elem i s.active_executors ≡ true)
      × ((s.queues i).vruntime ≤ (s.queues j).vruntime)
Reach-takes_least {s = s} j time period r e h =
    let listed = only_listed (Reach-in_reach j r h).1 (ap (λ o. executes o j) e) in
    elim (peek-cases s.queues s.active_executors) [
      | inl (i, f) ↦
          let found = peek-least s.queues s.active_executors i f in
          (i, ap (λ q. q.1) (take-some s time period i f), found.0, found.1 j listed)
      | inr f ↦
          absurd
            (true_is_false (sym listed ∙ ap (elem j) (peek-none s.queues s.active_executors f)))
    ]

executes-is_executing : (o : Option ℕ) (i : ℕ) → is_executing o i ≡ false → executes o i ≡ false
unfolding is_executing
executes-is_executing none i h = refl
executes-is_executing (some j) i h = ground arith

-- In every run of an executor, with cleanups in any order, a queue that is removed has no runnables,
-- is not active, and is neither in execution nor the queue that the loop executes.
pub Reach-removes_idle :
    {timer now : ℕ} {s t : ExecutorQueues} {saved : List (Option ℕ)} (i : ℕ)
    → Reach timer now s saved
    → remove_task_queue s i ≡ ok t
    → (is_empty (s.queues i).runnables ≡ true)
      × (elem i t.active_executors ≡ false)
      × (executes t.active_executing i ≡ false)
      × (executes (outermost saved t.active_executing) i ≡ false)
Reach-removes_idle {s = s} {t = t} {saved = saved} i r e =
    let (idle, inactive, there, same) = remove-ok s t i e in
    let v = Reach-Sound r in
    let (empty, out, halted) =
      unplaced (s.queues i).active (not (is_empty (s.queues i).runnables))
        (elem i s.active_executors) (executes (outermost saved s.active_executing) i) (v.fits i)
        inactive in
    (
      double_negation empty,
      ap (λ (u : ExecutorQueues). elem i u.active_executors) same ∙ out,
      ap (λ (u : ExecutorQueues). executes u.active_executing i) same
          ∙ executes-is_executing s.active_executing i idle,
      ap (λ (u : ExecutorQueues). executes (outermost saved u.active_executing) i) same ∙ halted,
    )
