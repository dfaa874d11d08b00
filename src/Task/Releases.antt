-- ===== src/Task/Releases.antt =====
-- The drop of a waker of glommio/src/task/raw.rs, as long as it leaves nothing more to do.
use glommio.Base.{◌+◌, ◌-◌, ◌<◌, ◌≡◌, refl, true, false, ◌&&◌, some, ◌==◌, arith, sym, ap, ◌∙◌}
use glommio.Task.{
  Task, live, Closure, queues, drops, Place, owner, foreign, destroy, release_references, release,
}
use glommio.Task.Machine.{
  Phase, queued, idle, polling, cancelled, disarmed, stale, over, complete, taken, View, is_active,
  own_references, total, task, settle, tell, ends, scheduled_as, at_phase, Good, is_held,
  is_complete, more, is_idle,
}
use glommio.Task.Counts.{plus, release_lem, ends-Good}
use glommio.Task.Moves.{cancel_phase, cancel_view, is_abandoned}
use glommio.Task.Calls.{drop_waker_foreign, drop_waker, decrement}

pub plus-more : {A : Type 0} (v : View A) → plus 1 v ≡ task (more v)
unfolding task total
plus-more v = ap (λ n. record (task v) { references = n }) (omega arith)

pub release-more : {A : Type 0} (v : View A) → Good v → release (task (more v)) ≡ some (settle v)
unfolding release
release-more v g = ap (release_references 1) (sym (plus-more v)) ∙ release_lem 1 v g

cancel_phase-Good :
    {A : Type 0} (c : Closure) (p : Phase A) (v : View A)
    → Good (at_phase p v)
    → Good (cancel_phase c p (at_phase p v))
unfolding cancel_phase tell scheduled_as ends is_held is_complete
cancel_phase-Good c queued v g = record {
  unlinked = λ h. absurd (cc);
  told = λ h. refl;
  wanted = λ h. absurd (cc);
}
cancel_phase-Good queues idle v g = record {
  unlinked = λ h. absurd (cc);
  told = λ h. refl;
  wanted = λ h. absurd (cc);
}
cancel_phase-Good drops idle v g = ends-Good v
cancel_phase-Good c (polling again false) v g = record {
  unlinked = λ h. absurd (cc);
  told = λ h. refl;
  wanted = λ h. absurd (cc);
}
cancel_phase-Good c (polling again true) v g = g
cancel_phase-Good c cancelled v g = g
cancel_phase-Good c disarmed v g = g
cancel_phase-Good c (stale again) v g = g
cancel_phase-Good c over v g = g
cancel_phase-Good c (complete a) v g = g
cancel_phase-Good c taken v g = g

pub cancel_view-Good : {A : Type 0} (c : Closure) (v : View A) → Good v → Good (cancel_view c v)
unfolding cancel_view
cancel_view-Good c v g = cancel_phase-Good c v.phase v g

cancel-more_by :
    {A : Type 0} (c : Closure) (p : Phase A) (v : View A)
    → cancel_phase c p (more (at_phase p v)) ≡ more (cancel_phase c p (at_phase p v))
unfolding cancel_phase tell scheduled_as ends
cancel-more_by c queued v = refl
cancel-more_by queues idle v = refl
cancel-more_by drops idle v = refl
cancel-more_by c (polling again false) v = refl
cancel-more_by c (polling again true) v = refl
cancel-more_by c cancelled v = refl
cancel-more_by c disarmed v = refl
cancel-more_by c (stale again) v = refl
cancel-more_by c over v = refl
cancel-more_by c (complete a) v = refl
cancel-more_by c taken v = refl

pub cancel-more :
    {A : Type 0} (c : Closure) (v : View A) → cancel_view c (more v) ≡ more (cancel_view c v)
unfolding cancel_view
cancel-more c v = cancel-more_by c v.phase v

pub drop-last :
    {A : Type 0} (c : Closure) (p : Place) (t : Task A)
    → t.references ≡ 1
    → drop_waker c p t ≡ destroy t
unfolding drop_waker drop_waker_foreign
drop-last c owner t h = ground arith
drop-last c (foreign n) t h = ground arith

pub drop-other :
    {A : Type 0} (c : Closure) (p : Place) (t : Task A)
    → 1 < t.references
    → (t.references == 2 && t.active) ≡ false
    → drop_waker c p t ≡ some (live (record t { references = t.references - 1 }))
unfolding drop_waker drop_waker_foreign decrement
drop-other c owner t h e = ground arith
drop-other c (foreign n) t h e = ground arith

pub abandoned_by :
    {A : Type 0} (p : Phase A) (v : View A)
    → (total (at_phase p v) + 1 == 2 && is_active p) ≡ is_abandoned (at_phase p v)
unfolding is_active is_abandoned is_idle total own_references
abandoned_by queued v = ground arith
abandoned_by idle v = ground arith
abandoned_by (polling again stopped) v = ground arith
abandoned_by cancelled v = ground arith
abandoned_by disarmed v = ground arith
abandoned_by (stale again) v = ground arith
abandoned_by over v = ground arith
abandoned_by (complete a) v = ground arith
abandoned_by taken v = ground arith
