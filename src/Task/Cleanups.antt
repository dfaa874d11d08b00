-- ===== src/Task/Cleanups.antt =====
-- `do_cleanup` of glommio/src/task/raw.rs.
use glommio.Base.{
  ℕ, ◌+◌, ◌<◌, ◌≡◌, refl, Bool, true, false, not, ◌&&◌, ◌||◌, Option, some, ◌==◌, if◌then◌else◌,
  arith, ap, ◌∙◌, ==_iff,
}
use glommio.Task.{
  Task, Cell, live, Closure, queues, Notifier, gone, shut, accepting, Place, owner, foreign, try,
  increment_references, cancel, max_references,
}
use glommio.Task.Machine.{
  Phase, queued, idle, polling, cancelled, disarmed, stale, over, complete, taken, View, flags,
  is_active, own_references, total, task, at_phase, is_idle,
}
use glommio.Task.Counts.{less_by, increment-run}
use glommio.Task.Moves.{cancel_view, cleanup_view}
use glommio.Task.Cancel.{cancel_lem}
use glommio.Task.Calls.{drop_waker_foreign, do_cleanup, drop_waker, decrement}
use glommio.Task.Releases.{drop-other}

pub if_live :
    {A : Type 0} (b : Bool) (x : Option (Cell A)) (v w : View A)
    → (b ≡ true → x ≡ some (live (task v)))
    → (if b then x else some (live (task w))) ≡ some (live (task (if b then v else w)))
if_live true x v w h = h refl
if_live false x v w h = refl

busy :
    {A : Type 0} (h s r b : Bool) (x y : A)
    → (s || r) ≡ true
    → (if not (h || s || r) && b then x else y) ≡ y
busy true s r b x y e = refl
busy false true r b x y e = refl
busy false false true b x y e = refl
busy false false false b x y e = absurd (cc)

pub busy_task :
    {A : Type 0} (c : Closure) (s r : Bool) (p : Phase A) (v : View A)
    → (s || r) ≡ true
    → (if not (v.handle || s || r) && total (at_phase p v) == 2
        then cancel c (task (at_phase p v))
        else some (live (task (at_phase p v))))
      ≡ some (live (task (at_phase p v)))
busy_task c s r p v e =
    let w = at_phase p v in
    busy v.handle s r (total w == 2) (cancel c (task w)) (some (live (task w))) e

either : (h b : Bool) → (not (h || false || false) && b) ≡ (not h && b)
either true b = refl
either false b = refl

two_of : (h : Bool) (n : ℕ) → (not h && n == 2) ≡ true → n ≡ 2
two_of true n e = absurd (cc)
two_of false n e = (==_iff n 2).0 e

cleanup_by :
    {A : Type 0} (c : Closure) (p : Phase A) (v : View A)
    → total (at_phase p v) < max_references
    → do_cleanup c owner (task (at_phase p v))
      ≡ some (live (task (cleanup_view c owner (at_phase p v))))
unfolding do_cleanup cleanup_view is_idle task is_active flags
cleanup_by c queued v r = busy_task c true false queued v refl
cleanup_by c idle v r =
    let w = at_phase idle v in
    ap (λ b. if b then cancel c (task w) else some (live (task w))) (either v.handle (total w == 2))
    ∙ if_live (not v.handle && total w == 2) (cancel c (task w)) (cancel_view c w) w
        (λ e. cancel_lem c w (λ i. omega (arith, two_of v.handle (total w) e)) r)
cleanup_by c (polling again true) v r = refl
cleanup_by c (polling true false) v r = busy_task c true true (polling true false) v refl
cleanup_by c (polling false false) v r = busy_task c false true (polling false false) v refl
cleanup_by c cancelled v r = refl
cleanup_by c disarmed v r = refl
cleanup_by c (stale again) v r = refl
cleanup_by c over v r = refl
cleanup_by c (complete a) v r = refl
cleanup_by c taken v r = refl

-- A foreign thread only touches the count, and not that if the task has ended.
clone_shut :
    {A : Type 0} (n : Notifier) (t : Task A)
    → 1 < t.references
    → t.references < max_references
    → try (increment_references t) (drop_waker_foreign n) ≡ some (live t)
unfolding drop_waker drop_waker_foreign decrement
clone_shut n t h k =
    ap (λ r. try r (drop_waker_foreign n)) (increment-run t (omega arith) k)
    ∙ drop-other queues (foreign n) (record t { references = t.references + 1 }) (omega arith)
        (ground arith)
    ∙ ap (λ m. some (live (record t { references = m }))) (less_by t.references 1)

pub foreign_by :
    {A : Type 0} (b : Bool) (x y : Option (Cell A)) (v w : View A)
    → (b ≡ true → y ≡ some (live (task v)))
    → x ≡ some (live (task w))
    → (if not b then x else y) ≡ some (live (task (if b then v else w)))
foreign_by true x y v w h k = h refl
foreign_by false x y v w h k = k

pub active_total :
    {A : Type 0} (p : Phase A) (v : View A)
    → is_active p ≡ true
    → 0 < v.wakers
    → 1 < total (at_phase p v)
unfolding is_active total own_references
active_total queued v e h = omega arith
active_total idle v e h = omega arith
active_total (polling again stopped) v e h = omega arith
active_total cancelled v e h = absurd (cc)
active_total disarmed v e h = absurd (cc)
active_total (stale again) v e h = absurd (cc)
active_total over v e h = absurd (cc)
active_total (complete a) v e h = absurd (cc)
active_total taken v e h = absurd (cc)

pub one_more :
    {A : Type 0} (v : View A) (f : Task A → Task A) (w : View A)
    → 0 < total v
    → total v < max_references
    → f (record (task v) { references = total v + 1 }) ≡ task w
    → try (increment_references (task v)) (λ t. some (live (f t))) ≡ some (live (task w))
unfolding task
one_more v f w h k e =
    ap (λ r. try r (λ t. some (live (f t)))) (increment-run (task v) h k)
    ∙ ap (λ t. some (live t)) e

if_not :
    {A : Type 0} (b : Bool) (x y z : A) → (b ≡ true → y ≡ z) → x ≡ z → (if not b then x else y) ≡ z
if_not true x y z h k = h refl
if_not false x y z h k = k

pub clone_if_active :
    {A : Type 0} (v : View A)
    → (is_active v.phase ≡ true → 1 < total v)
    → total v < max_references
    → (if not (is_active v.phase)
        then some (live (task v))
        else try (increment_references (task v)) (drop_waker_foreign shut))
      ≡ some (live (task v))
unfolding task
clone_if_active v h k =
    if_not (is_active v.phase) (some (live (task v)))
      (try (increment_references (task v)) (drop_waker_foreign shut)) (some (live (task v)))
      (λ e. clone_shut shut (task v) (h e) k) refl

-- What a waker that is held does to clean up.
pub do_cleanup_lem :
    {A : Type 0} (c : Closure) (p : Place) (v : View A)
    → 0 < v.wakers
    → total v < max_references
    → do_cleanup c p (task v) ≡ some (live (task (cleanup_view c p v)))
unfolding do_cleanup cleanup_view task total
do_cleanup_lem c owner v h k = cleanup_by c v.phase v k
do_cleanup_lem c (foreign gone) v h k = refl
do_cleanup_lem c (foreign shut) v h k = clone_if_active v (λ e. active_total v.phase v e h) k
do_cleanup_lem c (foreign accepting) v h k =
    foreign_by (is_active v.phase) _ _ (record v { cleanups = v.cleanups + 1 }) v
      (λ e.
        one_more v (λ t. record t { cleanups = t.cleanups + 1 })
          (record v { cleanups = v.cleanups + 1 }) (omega (arith, active_total v.phase v e h)) k
          (ap (λ n. record (task (record v { cleanups = v.cleanups + 1 })) { references = n })
            (omega arith)))
      refl
