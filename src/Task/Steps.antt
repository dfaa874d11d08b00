-- ===== src/Task/Steps.antt =====
-- The calls of wakers and of cleanup wakers of glommio/src/task lead from one view of the machine to
-- another.
use glommio.Base.{ℕ, ◌+◌, ◌-◌, ◌<◌, ◌≡◌, true, false, some, arith, ltb, sym, ap, ap₂, ◌∙◌}
use glommio.Task.{Closure, Place, next, max_references}
use glommio.Task.Machine.{View, total, task, settle, Good, more}
use glommio.Task.Moves.{is_abandoned, drop_view, cleanup_view, wake_view}
use glommio.Task.Calls.{do_cleanup, drop_waker, wake, wake_cleanup}
use glommio.Task.Cleanups.{active_total, do_cleanup_lem}
use glommio.Task.Keeps.{
  Keeps, wake-Keeps, cleanup-Keeps, drop-Keeps, wake-Good, cleanup-Good, drop-Good, same-Good,
}
use glommio.Task.Drops.{drop_waker_lem}
use glommio.Task.Wakers.{do_wake_lem}
use glommio.Task.World.{Call, wakes, drops_waker, cleans, drops_cleanup, call, heard}
use glommio.Task.Alone.{drop-kept_view}

unfoldable pub fewer : {A : Type 0} → View A → View A
fewer v = record v { wakers = v.wakers - 1 }

pub more-fewer : {A : Type 0} (v : View A) → 0 < v.wakers → more (fewer v) ≡ v
unfolding fewer
more-fewer v h = ap (λ n. record v { wakers = n }) (omega arith)

same_again : (n : ℕ) → n ≡ n + 1 - 1
same_again n = omega arith

pub ltb-less : (n : ℕ) → ltb 0 n ≡ true → 0 < n
ltb-less n e = ground arith

-- The drop of a waker that is counted.
pub drop-fewer :
    {A : Type 0} (c : Closure) (p : Place) (v : View A)
    → Good v
    → 0 < v.wakers
    → total v < max_references
    → drop_waker c p (task v) ≡ some (settle (drop_view c p (fewer v)))
unfolding fewer total
drop-fewer c p v g h k =
    ap (λ u. drop_waker c p (task u)) (sym (more-fewer v h))
    ∙ drop_waker_lem c p (fewer v) (same-Good v (v.wakers - 1) v.wakes v.cleanups g) (omega arith)

-- What a call leads to.
pub record Leads {A : Type 0} (k : Call A) (v : View A) : Type 0 where
  pub after : View A
  pub runs : call k (task v) v.wakers ≡ (some (settle after), after.wakers)
  pub form : Good after
  pub kept : heard k ≡ true → is_abandoned v ≡ false → is_abandoned after ≡ false

pub drops_waker-Leads :
    {A : Type 0} (c : Closure) (p : Place) (v : View A)
    → Good v
    → 0 < v.wakers
    → total v < max_references
    → Leads (drops_waker c p) v
unfolding call fewer Keeps heard
drops_waker-Leads c p v g h k = record {
  after = drop_view c p (fewer v);
  runs = ap₂ (λ r n. (r, n)) (drop-fewer c p v g h k) (sym (drop-Keeps c p (fewer v)).0);
  form = drop-Good c p (fewer v) (same-Good v (v.wakers - 1) v.wakes v.cleanups g);
  kept = λ h e. drop-kept_view c p (fewer v) h;
}

pub wakes-Leads :
    {A : Type 0} (c : Closure) (p : Place) (v : View A)
    → Good v
    → 0 < v.wakers
    → total v + 1 < max_references
    → Leads (wakes c p) v
unfolding call fewer wake Keeps total heard
wakes-Leads c p v g h k =
    let u = wake_view c p v in
    let (same, room) = wake-Keeps c p v in
    let good = wake-Good c p v g in
    record {
      after = drop_view c p (fewer u);
      runs =
          ap₂ (λ r n. (r, n))
            (ap (λ r. next r (drop_waker c p))
                (do_wake_lem c p v (λ e. active_total v.phase v e h) (omega arith))
              ∙ drop-fewer c p u good (omega (arith, same)) (omega (arith, room)))
            (ap (λ n. n - 1) (sym same) ∙ sym (drop-Keeps c p (fewer u)).0);
      form = drop-Good c p (fewer u) (same-Good u (u.wakers - 1) u.wakes u.cleanups good);
      kept = λ h e. drop-kept_view c p (fewer u) h;
    }

-- A notification taken out of the queue is a waker in somebody's hands.
taken_out : {A : Type 0} → View A → View A
taken_out v = record v { cleanups = v.cleanups - 1; wakers = v.wakers + 1 }

taken_out-task :
    {A : Type 0} (v : View A)
    → 0 < v.cleanups
    → record (task v) { cleanups = v.cleanups - 1 } ≡ task (taken_out v)
unfolding task total taken_out
taken_out-task v h = ap (λ n. record (task (taken_out v)) { references = n }) (omega arith)

taken_out-total : {A : Type 0} (v : View A) → 0 < v.cleanups → total (taken_out v) ≡ total v
unfolding total taken_out
taken_out-total v h = omega arith

pub drops_cleanup-Leads :
    {A : Type 0} (c : Closure) (p : Place) (v : View A)
    → Good v
    → 0 < v.cleanups
    → total v < max_references
    → Leads (drops_cleanup c p) v
unfolding call fewer taken_out Keeps task heard
drops_cleanup-Leads c p v g h k =
    let u = taken_out v in
    let good = same-Good v (v.wakers + 1) v.wakes (v.cleanups - 1) g in
    record {
      after = drop_view c p (fewer u);
      runs =
          ap₂ (λ r n. (r, n))
            (ap (drop_waker c p) (taken_out-task v h)
              ∙ drop-fewer c p u good (omega arith) (omega (arith, taken_out-total v h)))
            (same_again v.wakers ∙ sym (drop-Keeps c p (fewer u)).0);
      form = drop-Good c p (fewer u) (same-Good u (u.wakers - 1) u.wakes u.cleanups good);
      kept = λ h e. drop-kept_view c p (fewer u) h;
    }

pub cleans-Leads :
    {A : Type 0} (c : Closure) (p : Place) (v : View A)
    → Good v
    → 0 < v.cleanups
    → total v + 1 < max_references
    → Leads (cleans c p) v
unfolding call fewer taken_out Keeps task wake_cleanup heard
cleans-Leads c p v g h k =
    let u = taken_out v in
    let w = cleanup_view c p u in
    let (same, room) = cleanup-Keeps c p u in
    let good = cleanup-Good c p u (same-Good v (v.wakers + 1) v.wakes (v.cleanups - 1) g) in
    record {
      after = drop_view c p (fewer w);
      runs =
          ap₂ (λ r n. (r, n))
            (ap (λ t. next (do_cleanup c p t) (drop_waker c p)) (taken_out-task v h)
              ∙ ap (λ r. next r (drop_waker c p))
                  (do_cleanup_lem c p u (omega arith) (omega (arith, taken_out-total v h)))
              ∙ drop-fewer c p w good (omega (arith, same))
                  (omega (arith, room, taken_out-total v h)))
            (same_again v.wakers ∙ ap (λ n. n - 1) (sym same) ∙ sym (drop-Keeps c p (fewer w)).0);
      form = drop-Good c p (fewer w) (same-Good w (w.wakers - 1) w.wakes w.cleanups good);
      kept = λ h e. drop-kept_view c p (fewer w) h;
    }
