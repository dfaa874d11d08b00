-- ===== src/Task/Unowned.antt =====
-- A task of glommio/src/task whose handle is being dropped.
use glommio.Base.{
  ℕ, ◌+◌, ◌<◌, ◌≡◌, refl, true, false, some, ◌==◌, if◌then◌else◌, arith, sym, ap, ◌∙◌, inl, inr,
  ==_iff, Bool-cases,
}
use glommio.Task.{Task, live, Closure, queues, drops, owner, next, destroy, cancel, max_references}
use glommio.Task.Machine.{
  Phase, idle, disarmed, stale, View, flags, own_references, total, task, settle, tell, ends,
  scheduled_as, at_phase, Good, is_complete, more, is_idle,
}
use glommio.Task.Moves.{cancel_phase, cancel_view, is_abandoned, drop_view}
use glommio.Task.Cancel.{cancel_lem}
use glommio.Task.Calls.{drop_waker, abandon}
use glommio.Task.Releases.{cancel_view-Good, cancel-more, drop-last}
use glommio.Task.Drops.{drop_waker_lem}

-- The handle as one more reference.
pub handle-more :
    {A : Type 0} (p : Phase A) (v : View A)
    → total (record v { phase = p; handle = true })
      ≡ total (more (record v { phase = p; handle = false }))
unfolding total
handle-more p v = omega arith

pub freed-by-drop :
    {A : Type 0} (c : Closure) (t : Task A)
    → (if t.references == 1 then destroy t else drop_waker c owner t) ≡ drop_waker c owner t
freed-by-drop c t = elim (Bool-cases (t.references == 1)) [
  | inl e ↦
      ap (λ b. if b then destroy t else drop_waker c owner t) e
      ∙ sym (drop-last c owner t ((==_iff t.references 1).0 e))
  | inr e ↦ ap (λ b. if b then destroy t else drop_waker c owner t) e
]

pub drop_with :
    {A : Type 0} (c : Closure) (n : ℕ) (w : View A)
    → Good w
    → total w + 1 < max_references
    → n ≡ total (more w)
    → drop_waker c owner (record (task w) { references = n }) ≡ some (settle (drop_view c owner w))
unfolding task
drop_with c n w g k e =
    ap (λ m. drop_waker c owner (record (task w) { references = m })) e
    ∙ drop_waker_lem c owner w g k

abbrev pub unowned : {A : Type 0} → Phase A → View A → View A
unowned p v = record v { phase = p; handle = false }

pub unowned-Good :
    {A : Type 0} (p : Phase A) (v : View A)
    → is_complete p ≡ false
    → Good (record v { phase = p; handle = true })
    → Good (unowned p v)
unowned-Good p v e g = record { unlinked = g.unlinked; told = g.told; wanted = λ h. absurd (cc) }

pub drop_unowned :
    {A : Type 0} (c : Closure) (p : Phase A) (v : View A)
    → Good (unowned p v)
    → total (record v { phase = p; handle = true }) < max_references
    → drop_waker c owner
        (record (task (unowned p v)) { references = total (record v { phase = p; handle = true }) })
      ≡ some (settle (drop_view c owner (unowned p v)))
unfolding total
drop_unowned c p v g k =
    drop_with c (total (record v { phase = p; handle = true })) (unowned p v) g (omega arith)
      (handle-more p v)

pub handle_bound :
    {A : Type 0} (p : Phase A) (v : View A)
    → total (record v { phase = p; handle = true }) < max_references
    → total (unowned p v) + 1 < max_references
unfolding total
handle_bound p v k = omega arith

pub more-disarmed :
    {A : Type 0} (v : View A)
    → total (record v { phase = disarmed; handle = true })
      ≡ total (more (ends (stale true) (unowned (stale true) v))) + 1
unfolding total own_references ends tell
more-disarmed v = omega arith

pub more-positive : {A : Type 0} (w : View A) → 0 < total (more w)
unfolding total
more-positive w = omega arith

pub stale_bound :
    {A : Type 0} (v : View A)
    → total (record v { phase = disarmed; handle = true }) < max_references
    → total (ends (stale true) (unowned (stale true) v)) + 1 < max_references
unfolding total own_references ends tell
stale_bound v k = omega arith

pub cancel_idle-kept :
    {A : Type 0} (c : Closure) (v : View A) → is_abandoned (cancel_view c (at_phase idle v)) ≡ false
unfolding cancel_view cancel_phase is_abandoned is_idle tell scheduled_as ends
cancel_idle-kept queues v = refl
cancel_idle-kept drops v = refl

pub two_left :
    {A : Type 0} (v : View A) → (total (more (unowned idle v)) == 2) ≡ is_abandoned (unowned idle v)
unfolding is_abandoned is_idle total own_references
two_left v = ground arith

pub cancel_bound :
    {A : Type 0} (c : Closure) (v : View A)
    → is_abandoned (unowned idle v) ≡ true
    → total (unowned idle v) + 1 < max_references
    → total (cancel_view c (unowned idle v)) + 1 < max_references
unfolding cancel_view cancel_phase tell scheduled_as ends total own_references is_abandoned is_idle
cancel_bound queues v e k = omega (arith, (==_iff (total (unowned idle v)) 1).0 e)
cancel_bound drops v e k = omega arith

-- An idle task that nobody else can wake is cancelled with its handle.
pub abandon_lem :
    {A : Type 0} (c : Closure) (v : View A)
    → Good (unowned idle v)
    → total (unowned idle v) + 1 < max_references
    → next (abandon c (task (more (unowned idle v)))) (drop_waker c owner)
      ≡ some (settle (drop_view c owner (unowned idle v)))
unfolding abandon drop_view task flags total own_references is_abandoned is_idle
abandon_lem c v g k =
    let w = unowned idle v in
    elim (Bool-cases (is_abandoned w)) [
      | inl e ↦
          ap
            (λ b.
              next (if b then cancel c (task (more w)) else some (live (task (more w))))
                (drop_waker c owner))
            (two_left v ∙ e)
          ∙ ap (λ r. next r (drop_waker c owner))
              (cancel_lem c (more w) (λ i. omega (arith, (==_iff (total w) 1).0 e))
                (omega (arith, k)))
          ∙ ap (λ u. drop_waker c owner (task u)) (cancel-more c w)
          ∙ drop_waker_lem c owner (cancel_view c w) (cancel_view-Good c w g) (cancel_bound c v e k)
          ∙ ap (λ b. some (settle (if b then cancel_view c (cancel_view c w) else cancel_view c w)))
              (cancel_idle-kept c w)
          ∙ ap (λ b. some (settle (if b then cancel_view c w else w))) (sym e)
      | inr e ↦
          ap
            (λ b.
              next (if b then cancel c (task (more w)) else some (live (task (more w))))
                (drop_waker c owner))
            (two_left v ∙ e)
          ∙ drop_waker_lem c owner w g k
    ]
