-- ===== src/Task/Counts.antt =====
-- The reference count of glommio/src/task/raw.rs: taking and releasing references, and the last
-- release.
use glommio.Base.{ℕ, suc, ◌+◌, ◌-◌, ◌<◌, ◌≡◌, refl, some, arith, sym, ap, ◌∙◌, ◌⊎◌, inl, inr}
use glommio.Task.{
  Task, live, freed, increment_references, destroy, release_references, max_references,
}
use glommio.Task.Machine.{
  Phase, queued, idle, polling, cancelled, disarmed, stale, over, complete, taken, View, flags,
  own_references, total, task, settle, tell, ends, at_phase, Good, is_held, is_complete,
}

pub zero-cases : (n : ℕ) → (n ≡ 0) ⊎ (0 < n)
zero-cases ℕ.zero = inl refl
zero-cases (suc n) = inr (omega arith)

pub less_by : (n k : ℕ) → n + k - k ≡ n
less_by n k = omega arith

pub increment-run :
    {A : Type 0} (t : Task A)
    → 0 < t.references
    → t.references < max_references
    → increment_references t ≡ some (record t { references = t.references + 1 })
unfolding increment_references
increment-run t h k = ground arith

-- A release that is not the last one.
pub release-run :
    {A : Type 0} (n : ℕ) (t : Task A)
    → n < t.references
    → release_references n t ≡ some (live (record t { references = t.references - n }))
unfolding release_references
release-run n t h = ground arith

-- A task to which `k` more references exist.
abbrev pub plus : {A : Type 0} → ℕ → View A → Task A
unfolding task
plus k v = record (task v) { references = total v + k }

pub release-live :
    {A : Type 0} (k : ℕ) (v : View A)
    → 0 < total v
    → release_references k (plus k v) ≡ some (live (task v))
unfolding task
release-live k v h =
    release-run k (plus k v) (omega arith)
    ∙ ap (λ n. some (live (record (task v) { references = n }))) (less_by (total v) k)

release-last :
    {A : Type 0} (k : ℕ) (t : Task A)
    → t.references ≡ k
    → release_references k t ≡ destroy (record t { references = 0 })
unfolding release_references
release-last k t h = ground arith

pub settle-live : {A : Type 0} (v : View A) → 0 < total v → settle v ≡ live (task v)
unfolding settle
settle-live v h = ground arith

pub settle-freed : {A : Type 0} (v : View A) → total v ≡ 0 → settle v ≡ freed (task v)
unfolding settle
settle-freed v h = ground arith

destroy_by :
    {A : Type 0} (n : ℕ) (p : Phase A) (v : View A)
    → Good (at_phase p v)
    → total (at_phase p v) ≡ 0
    → destroy (record (task (at_phase p v)) { references = n }) ≡ some (freed (task (at_phase p v)))
unfolding destroy task total flags own_references is_held is_complete
destroy_by n queued v g h = absurd (omega (arith, h))
destroy_by n idle v g h = absurd (omega (arith, h))
destroy_by n (polling again stopped) v g h = absurd (omega (arith, h))
destroy_by n cancelled v g h = absurd (omega (arith, h))
destroy_by n disarmed v g h = absurd (omega (arith, h))
destroy_by n (stale again) v g h = absurd (omega (arith, h))
destroy_by n over v g h = ground (arith, g.unlinked refl, g.told refl)
destroy_by n (complete a) v g h = ground (arith, g.wanted refl)
destroy_by n taken v g h = ground (arith, g.unlinked refl, g.told refl)

pub destroy-task :
    {A : Type 0} (n : ℕ) (v : View A)
    → Good v
    → total v ≡ 0
    → destroy (record (task v) { references = n }) ≡ some (freed (task v))
destroy-task n v g h = destroy_by n v.phase v g h

pub release_lem :
    {A : Type 0} (k : ℕ) (v : View A) → Good v → release_references k (plus k v) ≡ some (settle v)
unfolding task
release_lem k v g = elim (zero-cases (total v)) [
  | inl e ↦
      release-last k (plus k v) (omega (arith, e))
      ∙ destroy-task 0 v g e
      ∙ ap some (sym (settle-freed v e))
  | inr h ↦ release-live k v h ∙ ap some (sym (settle-live v h))
]

pub ends-Good : {A : Type 0} (v : View A) → Good (ends over v)
unfolding ends tell is_complete
ends-Good v = record { unlinked = λ h. refl; told = λ h. refl; wanted = λ h. absurd (cc) }
