-- ===== src/Task/Drops.antt =====
-- The drop of a waker of glommio/src/task/raw.rs.
use glommio.Base.{
  ◌+◌, ◌-◌, ◌<◌, ◌≡◌, refl, true, false, not, ◌&&◌, some, ◌==◌, if◌then◌else◌, arith, sym, ap, ◌∙◌,
  inl, inr, Bool-cases, ◌≢◌,
}
use glommio.Task.{
  Task, live, Closure, Notifier, gone, shut, accepting, Place, owner, foreign, next, release,
  max_references,
}
use glommio.Task.Machine.{
  Phase, queued, idle, polling, cancelled, disarmed, stale, over, complete, taken, View, is_active,
  own_references, total, task, settle, at_phase, Good, more, is_idle,
}
use glommio.Task.Counts.{zero-cases, settle-live, settle-freed, destroy-task}
use glommio.Task.Moves.{cancel_view, is_abandoned, drop_view, cleanup_view}
use glommio.Task.Calls.{drop_waker_foreign, do_cleanup, drop_waker, decrement}
use glommio.Task.Releases.{
  release-more, cancel_view-Good, cancel-more, drop-last, drop-other, abandoned_by,
}
use glommio.Task.Cleanups.{do_cleanup_lem}

drop-two :
    {A : Type 0} (c : Closure) (t : Task A)
    → t.references ≡ 2
    → t.active ≡ true
    → drop_waker c owner t ≡ next (do_cleanup c owner t) release
unfolding drop_waker
drop-two c t h e = ground arith

drop-away :
    {A : Type 0} (c : Closure) (t : Task A)
    → t.references ≡ 2
    → t.active ≡ true
    → drop_waker c (foreign accepting) t ≡ some (live (record t { cleanups = t.cleanups + 1 }))
unfolding drop_waker drop_waker_foreign
drop-away c t h e = ground arith

drop-refused :
    {A : Type 0} (c : Closure) (n : Notifier) (t : Task A)
    → n ≢ accepting
    → 1 < t.references
    → drop_waker c (foreign n) t ≡ some (live (record t { references = t.references - 1 }))
unfolding drop_waker drop_waker_foreign decrement
drop-refused c gone t x h = ground arith
drop-refused c shut t x h = ground arith
drop-refused c accepting t x h = absurd (x refl)

abandoned-facts :
    {A : Type 0} (p : Phase A) (v : View A)
    → is_abandoned (at_phase p v) ≡ true
    → (is_active p ≡ true)
      × (total (at_phase p v) ≡ 1)
      × ((is_idle p && (not v.handle && total (more (at_phase p v)) == 2)) ≡ true)
unfolding is_abandoned is_idle is_active total own_references
abandoned-facts idle v e = ground arith
abandoned-facts queued v e = absurd (cc)
abandoned-facts (polling again stopped) v e = absurd (cc)
abandoned-facts cancelled v e = absurd (cc)
abandoned-facts disarmed v e = absurd (cc)
abandoned-facts (stale again) v e = absurd (cc)
abandoned-facts over v e = absurd (cc)
abandoned-facts (complete a) v e = absurd (cc)
abandoned-facts taken v e = absurd (cc)

drop-abandoned :
    {A : Type 0} (c : Closure) (v : View A)
    → Good v
    → total v + 1 < max_references
    → is_abandoned v ≡ true
    → drop_waker c owner (task (more v)) ≡ some (settle (cancel_view c v))
unfolding cleanup_view task total
drop-abandoned c v g k e =
    let (active, one, b) = abandoned-facts v.phase v e in
    drop-two c (task (more v)) (omega (arith, one)) active
    ∙ ap (λ r. next r release) (do_cleanup_lem c owner (more v) (omega arith) (omega arith))
    ∙ ap (λ b. release (task (if b then cancel_view c (more v) else more v))) b
    ∙ ap (λ w. release (task w)) (cancel-more c v)
    ∙ release-more (cancel_view c v) (cancel_view-Good c v g)

counted_out :
    {A : Type 0} (v : View A)
    → 0 < total v
    → some (live (record (task v) { references = total (more v) - 1 })) ≡ some (settle v)
unfolding task total
counted_out v h =
    ap (λ n. some (live (record (task v) { references = n }))) (omega arith)
    ∙ ap some (sym (settle-live v h))

-- A waker that leaves a task that is not abandoned.
pub drop-kept :
    {A : Type 0} (c : Closure) (p : Place) (v : View A)
    → 0 < total v
    → is_abandoned v ≡ false
    → drop_waker c p (task (more v)) ≡ some (settle v)
unfolding task total
drop-kept c p v h e =
    drop-other c p (task (more v)) (omega arith)
      (ap (λ n. n == 2 && is_active v.phase) (omega arith) ∙ abandoned_by v.phase v ∙ e)
    ∙ counted_out v h

drop-freed :
    {A : Type 0} (c : Closure) (p : Place) (v : View A)
    → Good v
    → total v ≡ 0
    → drop_waker c p (task (more v)) ≡ some (settle v)
unfolding task total
drop-freed c p v g e =
    drop-last c p (task (more v)) (omega (arith, e))
    ∙ destroy-task (total (more v)) v g e
    ∙ ap some (sym (settle-freed v e))

drop_view-kept :
    {A : Type 0} (c : Closure) (p : Place) (v : View A)
    → is_abandoned v ≡ false
    → drop_view c p v ≡ v
unfolding drop_view
drop_view-kept c owner v e = ap (λ b. if b then cancel_view c v else v) e
drop_view-kept c (foreign gone) v e = refl
drop_view-kept c (foreign shut) v e = refl
drop_view-kept c (foreign accepting) v e =
    ap (λ b. if b then record v { cleanups = v.cleanups + 1 } else v) e

drop-told :
    {A : Type 0} (c : Closure) (p : Place) (v : View A)
    → Good v
    → total v + 1 < max_references
    → is_abandoned v ≡ true
    → drop_waker c p (task (more v)) ≡ some (settle (drop_view c p v))
unfolding drop_view task total
drop-told c owner v g k e =
    drop-abandoned c v g k e ∙ ap (λ b. some (settle (if b then cancel_view c v else v))) (sym e)
drop-told c (foreign gone) v g k e =
    let (active, one, b) = abandoned-facts v.phase v e in
    drop-refused c gone (task (more v)) (λ x. absurd (cc)) (omega (arith, one))
    ∙ counted_out v (omega (arith, one))
drop-told c (foreign shut) v g k e =
    let (active, one, b) = abandoned-facts v.phase v e in
    drop-refused c shut (task (more v)) (λ x. absurd (cc)) (omega (arith, one))
    ∙ counted_out v (omega (arith, one))
drop-told c (foreign accepting) v g k e =
    let (active, one, b) = abandoned-facts v.phase v e in
    drop-away c (task (more v)) (omega (arith, one)) active
    ∙ ap
        (λ n.
          some (live (record (task (record v { cleanups = v.cleanups + 1 })) { references = n })))
        (omega arith)
    ∙ ap some (sym (settle-live (record v { cleanups = v.cleanups + 1 }) (omega arith)))
    ∙ ap (λ b. some (settle (if b then record v { cleanups = v.cleanups + 1 } else v))) (sym e)

-- The drop of a waker frees the task with the last reference, and otherwise looks after a task that
-- it leaves alone.
pub drop_waker_lem :
    {A : Type 0} (c : Closure) (p : Place) (v : View A)
    → Good v
    → total v + 1 < max_references
    → drop_waker c p (task (more v)) ≡ some (settle (drop_view c p v))
drop_waker_lem c p v g k = elim (Bool-cases (is_abandoned v)) [
  | inl e ↦ drop-told c p v g k e
  | inr e ↦ elim (zero-cases (total v)) [
    | inl z ↦ drop-freed c p v g z ∙ ap (λ w. some (settle w)) (sym (drop_view-kept c p v e))
    | inr h ↦ drop-kept c p v h e ∙ ap (λ w. some (settle w)) (sym (drop_view-kept c p v e))
  ]
]
