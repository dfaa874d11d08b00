-- ===== src/Executor/Back.antt =====
-- The end of a turn of a task queue in glommio/src/executor/mod.rs.
use glommio.Base.{
  ℕ, ◌+◌, ◌≤◌, ◌≡◌, refl, sym, ap, subst, ◌∙◌, inl, inr, Bool, true, false, not, ◌||◌, Option, none,
  some, arith, ◌==◌, is_empty, elem, Distinct, update, update_self, update_ne, Bool-cases, ==_iff,
}
use glommio.Executor.{
  TaskQueue, ExecutorQueues, account_vruntime, reset, settle_vruntime, put_back,
  reevaluate_preempt_timer, push_or_reevaluate,
}
use glommio.Executor.Sound.{Fits, Sound, executes}
use glommio.Executor.Steps.{working}

accounted :
    (q : TaskQueue) (delta : ℕ)
    → ((account_vruntime q delta).0.active ≡ not (is_empty q.runnables))
      × ((account_vruntime q delta).0.runnables ≡ q.runnables)
unfolding account_vruntime
accounted q delta = ground arith

-- Only virtual runtimes differ.
Same : ExecutorQueues → ExecutorQueues → Type 0
Same s t =
    ((i : ℕ)
      → ((t.queues i).active ≡ (s.queues i).active)
        × ((t.queues i).runnables ≡ (s.queues i).runnables))
    × (t.active_executors ≡ s.active_executors)
    × (t.active_executing ≡ s.active_executing)
    × (t.executor_index ≡ s.executor_index)

settled-Same : (s : ExecutorQueues) (v : Option ℕ) → Same s (settle_vruntime s v).0
unfolding Same settle_vruntime reset
settled-Same s (some v) = (λ i. (refl, refl), refl, refl, refl)
settled-Same s none = (λ i. ground arith, refl, refl, refl)

-- The state with the queue out of execution and the virtual runtimes settled.
Halted : ExecutorQueues → ℕ → Bool → ExecutorQueues → Type 0
Halted s i b t =
    ((t.queues i).active ≡ b)
    × ((t.queues i).runnables ≡ (s.queues i).runnables)
    × ((j : ℕ)
        → (j == i) ≡ false
        → ((t.queues j).active ≡ (s.queues j).active)
          × ((t.queues j).runnables ≡ (s.queues j).runnables))
    × (t.active_executors ≡ s.active_executors)
    × (t.active_executing ≡ none)
    × (t.executor_index ≡ s.executor_index)

clash : {b : Bool} → b ≡ true → b ≡ false → ⊥
clash e f = absurd (cc)

halted-Fits :
    (t : ExecutorQueues) (i : ℕ)
    → (t.queues i).active ≡ true
    → t.active_executing ≡ none
    → Fits
        (t.queues i).active
        (not (is_empty (t.queues i).runnables))
        (i == i || elem i t.active_executors)
        (executes t.active_executing i)
halted-Fits t i active idle = ground (arith, active, ap (λ o. executes o i) idle)

stopped-Fits :
    (s t : ExecutorQueues) (i : ℕ)
    → (t.queues i).active ≡ false
    → false ≡ not (is_empty (t.queues i).runnables)
    → elem i t.active_executors ≡ false
    → t.active_executing ≡ none
    → Fits
        (t.queues i).active
        (not (is_empty (t.queues i).runnables))
        (elem i t.active_executors)
        (executes t.active_executing i)
stopped-Fits s t i active none_left out idle = ground (arith, ap (λ o. executes o i) idle)

Halted-fresh :
    (s : ExecutorQueues) (i : ℕ) (b : Bool) (t : ExecutorQueues) (j : ℕ)
    → (s.queues i).active ≡ true
    → Halted s i b t
    → Sound s
    → t.executor_index ≤ j
    → (t.queues j).active ≡ false
unfolding Halted
Halted-fresh s i b t j e (active, same, others, heap, idle, index) v k =
    let fresh = v.fresh j (omega (arith, index)) in
    elim (Bool-cases (j == i)) [
      | inl at_i ↦ absurd (clash (ap (λ n. (s.queues n).active) ((==_iff j i).0 at_i) ∙ e) fresh)
      | inr other ↦ (others j other).0 ∙ fresh
    ]

back-Sound :
    (s : ExecutorQueues) (i : ℕ) (b : Bool) (t : ExecutorQueues) (d : ℕ)
    → s.active_executing ≡ some i
    → b ≡ not (is_empty (s.queues i).runnables)
    → Halted s i b t
    → Sound s
    → Sound (record (push_or_reevaluate t i b) { default_vruntime = d })
unfolding Halted push_or_reevaluate reevaluate_preempt_timer
back-Sound s i true t d e h (active, same, others, heap, idle, index) v = record {
  distinct =
      subst (λ l. (elem i l ≡ false) × Distinct l) (sym heap) ((working s i e v).1, v.distinct);
  fits = λ j. elim (Bool-cases (j == i)) [
    | inl at_i ↦
        subst
          (λ n.
            Fits (t.queues n).active (not (is_empty (t.queues n).runnables))
              (n == i || elem n t.active_executors) (executes t.active_executing n))
          (sym ((==_iff j i).0 at_i)) (halted-Fits t i active idle)
    | inr other ↦
        (ground (
          arith,
          v.fits j,
          others j other,
          ap (elem j) heap,
          ap (λ o. executes o j) idle,
          ap (λ o. executes o j) e,
          other,
        ))
  ];
  fresh = λ j k.
      (Halted-fresh s i true t j (working s i e v).0 (active, same, others, heap, idle, index) v k);
}
back-Sound s i false t d e h (active, same, others, heap, idle, index) v = record {
  distinct = subst Distinct (sym heap) v.distinct;
  fits = λ j. elim (Bool-cases (j == i)) [
    | inl at_i ↦
        subst
          (λ n.
            Fits (t.queues n).active (not (is_empty (t.queues n).runnables))
              (elem n t.active_executors) (executes t.active_executing n))
          (sym ((==_iff j i).0 at_i))
          (stopped-Fits s t i active (h ∙ ap (λ l. not (is_empty l)) (sym same))
            (ap (elem i) heap ∙ (working s i e v).1) idle)
    | inr other ↦
        (ground (
          arith,
          v.fits j,
          others j other,
          ap (elem j) heap,
          ap (λ o. executes o j) idle,
          ap (λ o. executes o j) e,
          other,
        ))
  ];
  fresh = λ j k.
      (Halted-fresh s i false t j (working s i e v).0 (active, same, others, heap, idle, index) v
        k);
}

halted :
    (s : ExecutorQueues) (i elapsed executed : ℕ)
    → let q = account_vruntime (s.queues i) elapsed in
      let u = record s {
        queues = update s.queues i q.0;
        active_executing = none;
        executor_runtime = s.executor_runtime + elapsed;
        tasks_executed = s.tasks_executed + executed;
      } in
      Halted s i q.0.active (settle_vruntime u q.1).0
unfolding Halted Same
halted s i elapsed executed =
    let q = account_vruntime (s.queues i) elapsed in
    let u = record s {
      queues = update s.queues i q.0;
      active_executing = none;
      executor_runtime = s.executor_runtime + elapsed;
      tasks_executed = s.tasks_executed + executed;
    } in
    let (cells, heap, idle, index) = settled-Same u q.1 in
    let cell = update_self s.queues i q.0 in
    (
      (cells i).0 ∙ ap (λ (q : TaskQueue). q.active) cell,
      (cells i).1 ∙ ap (λ (q : TaskQueue). q.runnables) cell ∙ (accounted (s.queues i) elapsed).1,
      λ j other.
          let same = update_ne s.queues i j q.0 other in
          (
            (cells j).0 ∙ ap (λ (q : TaskQueue). q.active) same,
            (cells j).1 ∙ ap (λ (q : TaskQueue). q.runnables) same,
          ),
      heap,
      idle,
      index,
    )

pub put_back-Sound :
    (s : ExecutorQueues) (i elapsed executed : ℕ)
    → s.active_executing ≡ some i
    → Sound s
    → Sound (put_back s i elapsed executed)
unfolding put_back
put_back-Sound s i elapsed executed e v =
    let q = account_vruntime (s.queues i) elapsed in
    back-Sound s i q.0.active _ _ e (accounted (s.queues i) elapsed).0 (halted s i elapsed executed)
      v
