-- ===== src/Task/Reached.antt =====
-- The runs of one task of glommio/src/task: the calls of wakers on any thread, of the executor, of
-- the poll and of the join handle, in any order.
use glommio.Base.{
  ℕ, ◌+◌, ◌<◌, ◌≡◌, refl, Bool, true, false, [], none, some, arith, sym, ap, ap₂, ◌∙◌, subst, inl,
  inr,
}
use glommio.Task.{
  Task, Cell, live, freed, Closure, queues, drops, cleanup_owner, finish, call_closure,
  schedule_owned, max_references, allocate,
}
use glommio.Task.Machine.{
  queued, View, flags, contents, is_active, runnables, own_references, total, task, settle, tell,
  ends, scheduled_as, Good, is_held, is_complete,
}
use glommio.Task.Counts.{zero-cases, settle-live, settle-freed, ends-Good}
use glommio.Task.Ending.{schedule_owned-drops}
use glommio.Task.World.{Call, permitted, call}
use glommio.Task.Steps.{Leads}
use glommio.Task.Calls.{run_start}
use glommio.Task.Runs.{run_start_lem}
use glommio.Task.Shutdown.{polling-Good}
use glommio.Task.Moves.{run_phase}
use glommio.Task.Leading.{call_lem}

-- A task with the wakers in anybody's hands. It begins with its first runnable, which the caller of
-- `spawn_local` schedules or runs.
pub data Reach {A : Type 0} (ok : Call A → Bool) : Cell A → ℕ → Type 0 where
  start : (c : Closure) {x : Cell A} → schedule_owned c allocate ≡ some x → Reach ok x 0
  start_running : {x : Cell A} → run_start allocate ≡ some x → Reach ok x 0
  later :
      {t : Task A} {n m : ℕ} {x : Cell A} (k : Call A)
      → Reach ok (live t) n
      → ok k ≡ true
      → permitted k t n ≡ true
      → t.references + 2 < max_references
      → call k t n ≡ (some x, m)
      → Reach ok x m

pub record Shown {A : Type 0} (x : Cell A) (n : ℕ) : Type 0 where
  pub view : View A
  pub seen : x ≡ settle view
  pub count : n ≡ view.wakers
  pub form : Good view

abbrev pub first : {A : Type 0} → View A
first = record {
  phase = queued;
  handle = true;
  linked = true;
  awaiter = none;
  wakers = 0;
  wakes = 0;
  cleanups = 0;
  woken = [];
}

pub starts_as :
    {A : Type 0} (c : Closure)
    → schedule_owned c (allocate {A = A}) ≡ some (settle (scheduled_as c queued first))
unfolding schedule_owned allocate call_closure scheduled_as task flags contents runnables is_active
    total own_references finish cleanup_owner
starts_as {A = A} queues = ap some (sym (settle-live (first {A = A}) (omega arith)))
starts_as drops = schedule_owned-drops false true first

pub starts-Good : {A : Type 0} (c : Closure) → Good (scheduled_as c queued (first {A = A}))
unfolding scheduled_as is_held is_complete
starts-Good queues = record {
  unlinked = λ h. absurd (cc);
  told = λ h. refl;
  wanted = λ h. absurd (cc);
}
starts-Good drops = ends-Good first

pub starts-wakers : (A : Type 0) (c : Closure) → (scheduled_as c queued (first {A = A})).wakers ≡ 0
unfolding scheduled_as ends tell
starts-wakers A queues = refl
starts-wakers A drops = refl

runs_from : (A : Type 0) → Good (first {A = A})
unfolding is_held is_complete
runs_from A = record { unlinked = λ h. absurd (cc); told = λ h. refl; wanted = λ h. absurd (cc) }

pub runs_as :
    (A : Type 0) → run_start (allocate {A = A}) ≡ some (settle (run_phase queued (first {A = A})))
unfolding allocate task flags contents runnables is_active total own_references
runs_as A = run_start_lem (first {A = A}) (runs_from A) refl

pub runs-Good : (A : Type 0) → Good (run_phase queued (first {A = A}))
unfolding run_phase
runs-Good A = polling-Good false false first

pub runs-wakers : (A : Type 0) → (run_phase queued (first {A = A})).wakers ≡ 0
unfolding run_phase
runs-wakers A = refl

pub the_same : {A : Type 0} {x y : A} → some x ≡ some y → x ≡ y
the_same e = cc

live-freed : {A : Type 0} {t u : Task A} → live t ≡ freed u → ⊥
live-freed e = absurd (cc)

live_same : {A : Type 0} {t u : Task A} → live t ≡ live u → t ≡ u
live_same e = cc

-- A live task is the task of a view that somebody holds.
pub live-view :
    {A : Type 0} (t : Task A) (v : View A) → live t ≡ settle v → (t ≡ task v) × (0 < total v)
live-view t v e = elim (zero-cases (total v)) [
  | inl z ↦ absurd (live-freed (e ∙ settle-freed v z))
  | inr h ↦ (live_same (e ∙ settle-live v h), h)
]

freed_same : {A : Type 0} {t u : Task A} → freed t ≡ freed u → t ≡ u
freed_same e = cc

pub freed-view :
    {A : Type 0} (t : Task A) (v : View A) → freed t ≡ settle v → (t ≡ task v) × (total v ≡ 0)
freed-view t v e = elim (zero-cases (total v)) [
  | inl z ↦ (freed_same (e ∙ settle-freed v z), z)
  | inr h ↦ absurd (live-freed (sym (e ∙ settle-live v h)))
]

-- A call on a task that shows a view.
pub shown-Leads :
    {A : Type 0} (k : Call A) {t : Task A} {n : ℕ} (s : Shown (live t) n)
    → permitted k t n ≡ true
    → t.references + 2 < max_references
    → (call k t n ≡ call k (task s.view) s.view.wakers) × Leads k s.view
unfolding task
shown-Leads {A = A} k {t = t} s p b =
    let same = (live-view t s.view s.seen).0 in
    (
      ap₂ (λ u m. call k u m) same s.count,
      call_lem k s.view s.form (sym (ap₂ (λ u m. permitted k u m) same s.count) ∙ p)
          (subst (λ (u : Task A). u.references + 2 < max_references) same b),
    )

unfoldable pub Reach-Shown :
    {A : Type 0} {ok : Call A → Bool} {x : Cell A} {n : ℕ} → Reach ok x n → Shown x n
Reach-Shown {A = A} (start c e) = record {
  view = scheduled_as c queued first;
  seen = the_same (sym e ∙ starts_as c);
  count = sym (starts-wakers A c);
  form = starts-Good c;
}
Reach-Shown {A = A} (start_running e) = record {
  view = run_phase queued first;
  seen = the_same (sym e ∙ runs_as A);
  count = sym (runs-wakers A);
  form = runs-Good A;
}
Reach-Shown (later {t} {n} {m} {x} k r o p b e) =
    let s = Reach-Shown r in
    let (same, l) = shown-Leads k s p b in
    let f = sym e ∙ same ∙ l.runs in
    record {
      view = l.after;
      seen = the_same (ap (λ q. q.0) f);
      count = ap (λ q. q.1) f;
      form = l.form;
    }
