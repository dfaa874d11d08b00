-- ===== src/Executor/Steps.antt =====
-- The calls on the task queues of glommio/src/executor/mod.rs keep each queue with runnables in reach.
use glommio.Base.{
  ℕ, ◌+◌, ◌≡◌, refl, sym, ap, subst, ◌∙◌, ◌⊎◌, inl, inr, Bool, true, false, not, ◌||◌, List, [],
  ◌∷◌, Option, none, some, arith, ◌==◌, if◌then◌else◌, is_empty, elem, remove, update, update_self,
  Bool-cases, ==_iff, elem-remove_ne, elem-remove_self, Distinct-remove,
}
use glommio.Executor.{
  TaskQueue, ExecutorQueues, new_queue, create_task_queue, adjust, prepare_to_run, take_queue,
  next_task, pop_front, set_aside, least, peek,
}
use glommio.Shares.{Shares, static, dynamic}
use glommio.Executor.Sound.{Fits, Sound, executes}
use glommio.Executor.Least.{peek-least}

adjusted :
    (shares : Shares) (now period : ℕ) (q : TaskQueue)
    → ((adjust shares now period q).active ≡ q.active)
      × ((adjust shares now period q).runnables ≡ q.runnables)
unfolding adjust
adjusted (static n) now period q = (refl, refl)
adjusted (dynamic n) now period q = ground arith

prepared :
    (q : TaskQueue) (now period : ℕ)
    → ((prepare_to_run q now period).active ≡ q.active)
      × ((prepare_to_run q now period).runnables ≡ q.runnables)
unfolding prepare_to_run
prepared q now period = adjusted q.shares now period (record q { yielded = false })

pub create-Sound :
    (s : ExecutorQueues) (shares : Shares) (latency : Option ℕ) (now : ℕ)
    → Sound s
    → Sound (create_task_queue s shares latency now).0
unfolding create_task_queue new_queue
create-Sound s shares latency now v = record {
  distinct = v.distinct;
  fits = λ j. ground (arith, v.fits j, v.fresh s.executor_index);
  fresh = λ j k. ground (arith, v.fresh j);
}

-- The queue that `take_queue` finds is set aside.
abbrev pub taken : ExecutorQueues → ℕ → ℕ → ℕ → ExecutorQueues
unfolding prepare_to_run
taken s i now period = record s {
  scheduler_runs = s.scheduler_runs + 1;
  active_executors = remove i s.active_executors;
  active_executing = some i;
  queues = update s.queues i (prepare_to_run (s.queues i) now period);
}

taken-Fits :
    (s : ExecutorQueues) (i now period : ℕ)
    → elem i s.active_executors ≡ true
    → Sound s
    → Fits
        ((taken s i now period).queues i).active
        (not (is_empty ((taken s i now period).queues i).runnables))
        (elem i (remove i s.active_executors))
        (i == i)
unfolding taken
taken-Fits s i now period h v =
    let cell = update_self s.queues i (prepare_to_run (s.queues i) now period) in
    let active =
      ap (λ (q : TaskQueue). q.active) cell
      ∙ (prepared (s.queues i) now period).0
      ∙ (v.fits i).0 h in
    (
      λ _. active,
      λ _. active,
      λ _. (active, elem-remove_self i s.active_executors v.distinct),
      λ _. inr (ground arith),
    )

pub taken-Sound :
    (s : ExecutorQueues) (i now period : ℕ)
    → elem i s.active_executors ≡ true
    → s.active_executing ≡ none
    → Sound s
    → Sound (taken s i now period)
unfolding taken
taken-Sound s i now period h e v = record {
  distinct = Distinct-remove i s.active_executors v.distinct;
  fits = λ j. elim (Bool-cases (j == i)) [
    | inl same ↦
        subst
          (λ n.
            Fits ((taken s i now period).queues n).active
              (not (is_empty ((taken s i now period).queues n).runnables))
              (elem n (remove i s.active_executors)) (n == i))
          (sym ((==_iff j i).0 same)) (taken-Fits s i now period h v)
    | inr other ↦ ground (arith, v.fits j, e, other, elem-remove_ne j i s.active_executors other)
  ];
  fresh =
      λ j k. ground (arith, v.fresh j, v.fresh i, prepared (s.queues i) now period, (v.fits i).0 h);
}

pub mark-Sound :
    (s : ExecutorQueues) (i : ℕ)
    → Sound s
    → Sound (record s { queues = update s.queues i (record (s.queues i) { yielded = true }) })
mark-Sound s i v = record {
  distinct = v.distinct;
  fits = λ j. ground (arith, v.fits j);
  fresh = λ j k. ground (arith, v.fresh j);
}

abbrev pub shorter : ExecutorQueues → ℕ → ExecutorQueues
unfolding pop_front
shorter s i = record s {
  queues =
      update s.queues i (record (s.queues i) { runnables = (pop_front (s.queues i).runnables).0 });
}

leave :
    (s : ExecutorQueues) (i : ℕ) (need_preempt : Bool)
    → (need_preempt || (s.queues i).yielded) ≡ true
    → next_task s i need_preempt ≡ (s, none)
unfolding next_task
leave s i need_preempt h =
    ap (λ (b : Bool). if b then (s, none) else (shorter s i, (pop_front (s.queues i).runnables).1))
      h

take :
    (s : ExecutorQueues) (i : ℕ) (need_preempt : Bool)
    → (need_preempt || (s.queues i).yielded) ≡ false
    → next_task s i need_preempt ≡ (shorter s i, (pop_front (s.queues i).runnables).1)
unfolding next_task shorter
take s i need_preempt h =
    ap (λ (b : Bool). if b then (s, none) else (shorter s i, (pop_front (s.queues i).runnables).1))
      h

pub working :
    (s : ExecutorQueues) (i : ℕ)
    → s.active_executing ≡ some i
    → Sound s
    → ((s.queues i).active ≡ true) × (elem i s.active_executors ≡ false)
working s i e v = (v.fits i).2 (ap (λ o. executes o i) e ∙ (==_iff i i).1 refl)

is_empty-pop_front : (l : List ℕ) → is_empty l ≡ true → is_empty (pop_front l).0 ≡ true
unfolding pop_front
is_empty-pop_front [] h = refl
is_empty-pop_front (x ∷ l) h = absurd (cc h)

pub rest-Sound : (s : ExecutorQueues) (i : ℕ) → Sound s → Sound (shorter s i)
unfolding shorter
rest-Sound s i v = record {
  distinct = v.distinct;
  fits = λ j. ground (arith, v.fits j, is_empty-pop_front (s.queues i).runnables);
  fresh = λ j k. ground (arith, v.fresh j);
}

pub next-Sound :
    (s : ExecutorQueues) (i : ℕ) (need_preempt : Bool)
    → s.active_executing ≡ some i
    → Sound s
    → Sound (next_task s i need_preempt).0
unfolding next_task
next-Sound s i need_preempt e v =
    let leaves = need_preempt || (s.queues i).yielded in
    elim (Bool-cases leaves) [
      | inl h ↦
          subst (λ (r : ExecutorQueues × Option ℕ). Sound r.0) (sym (leave s i need_preempt h)) v
      | inr h ↦
          subst (λ (r : ExecutorQueues × Option ℕ). Sound r.0) (sym (take s i need_preempt h))
            (rest-Sound s i v)
    ]

pub take-some :
    (s : ExecutorQueues) (now period i : ℕ)
    → peek s.queues s.active_executors ≡ some i
    → take_queue s now period ≡ (taken s i now period, some i)
unfolding take_queue set_aside taken
take-some s now period i e =
    ap (set_aside (record s { scheduler_runs = s.scheduler_runs + 1 }) now period) e

pub take-none :
    (s : ExecutorQueues) (now period : ℕ)
    → peek s.queues s.active_executors ≡ none
    → take_queue s now period ≡ (record s { scheduler_runs = s.scheduler_runs + 1 }, none)
unfolding take_queue set_aside
take-none s now period e =
    ap (set_aside (record s { scheduler_runs = s.scheduler_runs + 1 }) now period) e

pub peek-cases :
    (queues : ℕ → TaskQueue) (l : List ℕ)
    → ((i : ℕ) × (peek queues l ≡ some i)) ⊎ (peek queues l ≡ none)
unfolding peek
peek-cases queues [] = inr refl
peek-cases queues (i ∷ l) = inl (least queues i l, refl)

pub take-Sound :
    (s : ExecutorQueues) (now period : ℕ)
    → s.active_executing ≡ none
    → Sound s
    → Sound (take_queue s now period).0
take-Sound s now period e v = elim (peek-cases s.queues s.active_executors) [
  | inl (i, f) ↦
      subst (λ (r : ExecutorQueues × Option ℕ). Sound r.0) (sym (take-some s now period i f))
        (taken-Sound s i now period (peek-least s.queues s.active_executors i f).0 e v)
  | inr f ↦
      subst (λ (r : ExecutorQueues × Option ℕ). Sound r.0) (sym (take-none s now period f))
        (record { distinct = v.distinct; fits = v.fits; fresh = v.fresh })
]
