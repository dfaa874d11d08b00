-- ===== src/Task/Safety.antt =====
-- What holds of a task of glommio/src/task in all its runs.
use glommio.Base.{
  ℕ, ◌+◌, ◌≤◌, ◌<◌, ◌≡◌, refl, Bool, true, false, not, none, some, arith, sym, ap, ◌∙◌, subst,
}
use glommio.Task.{Task, moved, Cell, live, freed, max_references}
use glommio.Task.Machine.{
  Phase, queued, idle, polling, cancelled, disarmed, stale, over, complete, taken, View, flags,
  contents, runnables, own_references, total, task, settle, one_if, at_phase, Good, is_held,
  is_complete,
}
use glommio.Task.World.{Call, permitted, call}
use glommio.Task.Reached.{Reach, Reach-Shown, live-view, freed-view, shown-Leads}

-- In every run of a task, with calls on any thread in any order, the next call that is permitted runs
-- to its end while the count has room: no abort, no failed assertion, no second drop of the future,
-- no read of an output that is not there and no use of a task that has been freed.
pub Reach-runs :
    {A : Type 0} {ok : Call A → Bool} {t : Task A} {n : ℕ} (k : Call A)
    → Reach ok (live t) n
    → permitted k t n ≡ true
    → t.references + 2 < max_references
    → (x : Cell A) × (m : ℕ) × (call k t n ≡ (some x, m))
Reach-runs k r p b =
    let (same, l) = shown-Leads k (Reach-Shown r) p b in
    (settle l.after, l.after.wakers, same ∙ l.runs)

-- The references that are held: by the handle, the registry until the task is cleaned up, the
-- runnable in the queue or in a poll, and the wakers with those in the queues of the notifier.
abbrev pub held : {A : Type 0} → Task A → ℕ → ℕ
held t n =
    one_if t.state.handle
    + one_if (not t.state.schedule_dropped)
    + (t.queue + one_if t.state.running)
    + (n + t.wakes + t.cleanups)

Counted : {A : Type 0} → Task A → ℕ → Type 0
Counted t n =
    (t.references ≡ held t n) × (0 < t.references) × (t.queue + one_if t.state.running ≤ 1)

each-Counted :
    {A : Type 0} (p : Phase A) (v : View A)
    → 0 < total (at_phase p v)
    → Counted (task (at_phase p v)) v.wakers
unfolding Counted task total own_references flags runnables
each-Counted queued v h = (omega arith, h, omega arith)
each-Counted idle v h = (omega arith, h, omega arith)
each-Counted (polling again stopped) v h = (omega arith, h, omega arith)
each-Counted cancelled v h = (omega arith, h, omega arith)
each-Counted disarmed v h = (omega arith, h, omega arith)
each-Counted (stale again) v h = (omega arith, h, omega arith)
each-Counted over v h = (omega arith, h, omega arith)
each-Counted (complete a) v h = (omega arith, h, omega arith)
each-Counted taken v h = (omega arith, h, omega arith)

-- In every run of a task its count is the number of those who hold a reference: the handle, the
-- registry until the task is cleaned up, the runnable, and the wakers in anybody's hands. Somebody
-- does, and there is at most one runnable, in the queue or in a poll.
pub Reach-counted :
    {A : Type 0} {ok : Call A → Bool} {t : Task A} {n : ℕ}
    → Reach ok (live t) n
    → (t.references ≡ held t n) × (0 < t.references) × (t.queue + one_if t.state.running ≤ 1)
unfolding Counted
Reach-counted {t = t} {n = n} r =
    let s = Reach-Shown r in
    let (same, some_one) = live-view t s.view s.seen in
    subst (λ u. Counted u n) (sym same)
      (subst (Counted (task s.view)) (sym s.count) (each-Counted s.view.phase s.view some_one))

-- Nobody has anything of the task, and nothing of it is left in memory.
Gone : {A : Type 0} → Task A → ℕ → Type 0
Gone t n =
    (n ≡ 0)
    × (t.queue ≡ 0)
    × (t.wakes ≡ 0)
    × (t.cleanups ≡ 0)
    × (t.state.handle ≡ false)
    × (t.state.running ≡ false)
    × (t.linked ≡ false)
    × (t.awaiter ≡ none)
    × (t.union ≡ moved)

no_one : (b : Bool) → one_if b ≡ 0 → b ≡ false
no_one true e = absurd (omega (arith, e))
no_one false e = refl

each-Gone :
    {A : Type 0} (p : Phase A) (v : View A)
    → Good (at_phase p v)
    → total (at_phase p v) ≡ 0
    → Gone (task (at_phase p v)) v.wakers
unfolding Gone task total own_references flags runnables contents is_held is_complete
each-Gone queued v g h = absurd (omega (arith, h))
each-Gone idle v g h = absurd (omega (arith, h))
each-Gone (polling again stopped) v g h = absurd (omega (arith, h))
each-Gone cancelled v g h = absurd (omega (arith, h))
each-Gone disarmed v g h = absurd (omega (arith, h))
each-Gone (stale again) v g h = absurd (omega (arith, h))
each-Gone over v g h = (
  omega (arith, h),
  refl,
  omega (arith, h),
  omega (arith, h),
  no_one v.handle (omega (arith, h)),
  refl,
  g.unlinked refl,
  g.told refl,
  refl,
)
each-Gone (complete a) v g h = absurd (omega (arith, h, ap one_if (g.wanted refl)))
each-Gone taken v g h = (
  omega (arith, h),
  refl,
  omega (arith, h),
  omega (arith, h),
  no_one v.handle (omega (arith, h)),
  refl,
  g.unlinked refl,
  g.told refl,
  refl,
)

-- In every run of a task its memory is freed only when nobody has a reference any more, no wake-up
-- of it is under way, it is out of the registry, no task waits for it, and neither the future nor an
-- output is left in it.
pub Reach-freed :
    {A : Type 0} {ok : Call A → Bool} {t : Task A} {n : ℕ}
    → Reach ok (freed t) n
    → (n ≡ 0)
      × (t.queue ≡ 0)
      × (t.wakes ≡ 0)
      × (t.cleanups ≡ 0)
      × (t.state.handle ≡ false)
      × (t.state.running ≡ false)
      × (t.linked ≡ false)
      × (t.awaiter ≡ none)
      × (t.union ≡ moved)
unfolding Gone
Reach-freed {t = t} {n = n} r =
    let s = Reach-Shown r in
    let (same, z) = freed-view t s.view s.seen in
    subst (λ u. Gone u n) (sym same)
      (subst (Gone (task s.view)) (sym s.count) (each-Gone s.view.phase s.view s.form z))
