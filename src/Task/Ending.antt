-- ===== src/Task/Ending.antt =====
-- How a task of glommio/src/task/raw.rs ends, and how it is scheduled.
use glommio.Base.{ℕ, ◌+◌, ◌-◌, ◌<◌, ◌≡◌, refl, Bool, true, false, some, arith, ap, ◌∙◌}
use glommio.Task.{
  Task, live, queues, drops, next, try, notify, drop_in_place, release, drop_future, cleanup_owner,
  finish, close, drop_task, call_closure, schedule_owned, schedule, max_references,
}
use glommio.Task.Machine.{
  idle, over, View, flags, contents, is_active, runnables, own_references, total, task, settle,
  tell, ends, at_phase, bits, Good,
}
use glommio.Task.Counts.{increment-run, release-run, settle-live, release_lem, ends-Good}

-- A task whose future is gone, before it is taken out of the registry; `n` references exist.
abbrev pub unarmed : {A : Type 0} → ℕ → Bool → View A → Task A
unfolding task tell
unarmed n scheduling v = record (task (tell over v)) {
  state = bits false false false true v.handle true false false;
  references = n;
  scheduling = scheduling;
}

pub finish-unarmed :
    {A : Type 0} (n : ℕ) (v : View A)
    → finish (unarmed n false v) ≡ release (record (task (ends over v)) { references = n })
unfolding finish cleanup_owner notify task ends tell flags is_active contents runnables
finish-unarmed n v = refl

pub release-at :
    {A : Type 0} (n : ℕ) (w : View A)
    → Good w
    → n ≡ total w + 1
    → release (record (task w) { references = n }) ≡ some (settle w)
unfolding release task
release-at n w g e = ap (λ m. release (record (task w) { references = m })) e ∙ release_lem 1 w g

-- The reference of the registry, which `finish` releases, and one more.
pub release-both :
    {A : Type 0} (t : Task A) (n : ℕ) (w : View A)
    → Good w
    → n ≡ total w + 2
    → finish t ≡ release (record (task w) { references = n })
    → next (finish t) release ≡ some (settle w)
unfolding release task
release-both t n w g e f =
    ap (λ r. next r release)
      (f ∙ release-run 1 (record (task w) { references = n }) (omega (arith, e)))
    ∙ release-at (n - 1) w g (omega (arith, e))

-- What schedule does with a task under no other name: the state may say that it is closed.
abbrev pub scheduling : {A : Type 0} → Bool → Bool → View A → Task A
scheduling closed active v = record (task (at_phase idle v)) {
  state = bits true false false closed v.handle false false false;
  active = active;
}

pub schedule-queues :
    {A : Type 0} (x a : Bool) (v : View A)
    → total (at_phase idle v) < max_references
    → schedule queues (scheduling x a v)
      ≡ some
          (live (record (scheduling x a v) { references = total (at_phase idle v) + 1; queue = 1 }))
unfolding schedule schedule_owned call_closure finish cleanup_owner task runnables total
    own_references
schedule-queues x a v r =
    ap (λ t. try t (schedule_owned queues)) (increment-run (scheduling x a v) (omega arith) r)

-- The closure drops the runnable that it is given.
pub schedule_owned-drops :
    {A : Type 0} (x a : Bool) (v : View A)
    → schedule_owned drops (record (scheduling x a v) { references = total (at_phase idle v) + 1 })
      ≡ some (settle (ends over v))
unfolding flags contents is_active runnables own_references total task ends tell schedule_owned
    call_closure finish cleanup_owner drop_task close drop_future drop_in_place notify release
schedule_owned-drops x a v =
    let n = total (at_phase idle v) in
    ap (λ r. next r (λ u. finish (record u { scheduling = false })))
      (release-run 1 (unarmed (n + 1) true v) (omega arith))
    ∙ finish-unarmed (n + 1 - 1) v
    ∙ release-at (n + 1 - 1) (ends over v) (ends-Good v) (omega arith)

pub schedule-drops :
    {A : Type 0} (x a : Bool) (v : View A)
    → 1 < total (at_phase idle v)
    → total (at_phase idle v) < max_references
    → schedule drops (scheduling x a v) ≡ some (live (task (ends over v)))
unfolding own_references total task schedule ends
schedule-drops x a v k r =
    ap (λ t. try t (schedule_owned drops)) (increment-run (scheduling x a v) (omega arith) r)
    ∙ schedule_owned-drops x a v
    ∙ ap some (settle-live (ends over v) (omega arith))
