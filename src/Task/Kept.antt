-- ===== src/Task/Kept.antt =====
-- No task of glommio/src/task is forgotten while it is idle.
use glommio.Base.{ℕ, ◌+◌, ◌<◌, ◌≡◌, refl, true, false, arith, sym, subst}
use glommio.Task.{Task, Cell, live, Closure, queues, drops}
use glommio.Task.Machine.{
  Phase, queued, idle, polling, cancelled, disarmed, stale, over, complete, taken, View, flags,
  is_active, own_references, total, task, tell, ends, scheduled_as, one_if, at_phase, is_idle,
}
use glommio.Task.Moves.{is_abandoned, run_phase}
use glommio.Task.World.{heard}
use glommio.Task.Reached.{
  Reach, start, start_running, later, Reach-Shown, live-view, shown-Leads, first,
}

first-kept :
    (A : Type 0) (c : Closure) → is_abandoned (scheduled_as c queued (first {A = A})) ≡ false
unfolding scheduled_as ends tell is_abandoned is_idle
first-kept A queues = refl
first-kept A drops = refl

running-kept : (A : Type 0) → is_abandoned (run_phase queued (first {A = A})) ≡ false
unfolding run_phase is_abandoned is_idle
running-kept A = refl

reach-kept :
    {A : Type 0} {x : Cell A} {n : ℕ} (r : Reach heard x n)
    → is_abandoned (Reach-Shown r).view ≡ false
unfolding Reach-Shown
reach-kept {A = A} (start c e) = first-kept A c
reach-kept {A = A} (start_running e) = running-kept A
reach-kept (later k r o p b e) = (shown-Leads k (Reach-Shown r) p b).1.kept o (reach-kept r)

Awaited : {A : Type 0} → Task A → ℕ → Type 0
Awaited t n =
    t.active ≡ true
    → t.state.scheduled ≡ false
    → t.state.running ≡ false
    → 0 < one_if t.state.handle + (n + t.wakes + t.cleanups)

each-Awaited :
    {A : Type 0} (p : Phase A) (v : View A)
    → is_abandoned (at_phase p v) ≡ false
    → Awaited (task (at_phase p v)) v.wakers
unfolding Awaited is_abandoned is_idle task total own_references flags is_active
each-Awaited queued v e a s r = absurd (cc)
each-Awaited idle v e a s r = ground arith
each-Awaited (polling again stopped) v e a s r = absurd (cc)
each-Awaited cancelled v e a s r = absurd (cc)
each-Awaited disarmed v e a s r = absurd (cc)
each-Awaited (stale again) v e a s r = absurd (cc)
each-Awaited over v e a s r = absurd (cc)
each-Awaited (complete b) v e a s r = absurd (cc)
each-Awaited taken v e a s r = absurd (cc)

-- In every run in which the executor hears of each waker that a foreign thread drops, a task that is
-- not over and neither scheduled nor in a poll still has a join handle, a waker that somebody holds,
-- or a wake-up or a cleanup notification in the queue of the notifier.
pub Reach-awaited :
    {A : Type 0} {t : Task A} {n : ℕ}
    → Reach heard (live t) n
    → t.active ≡ true
    → t.state.scheduled ≡ false
    → t.state.running ≡ false
    → 0 < one_if t.state.handle + (n + t.wakes + t.cleanups)
unfolding Awaited
Reach-awaited {t = t} {n = n} r =
    let s = Reach-Shown r in
    let same = (live-view t s.view s.seen).0 in
    subst (λ u. Awaited u n) (sym same)
      (subst (Awaited (task s.view)) (sym s.count)
        (each-Awaited s.view.phase s.view (reach-kept r)))
