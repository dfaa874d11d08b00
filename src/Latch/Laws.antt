-- ===== src/Latch/Laws.antt =====
-- Runs of a latch of latch.rs by threads that count down, cancel and wait: the outcome is decided
-- once.
use mathlib.Core.List.{append-nil}
use glommio.Base.{
  subst, ==_iff, ◌≤◌, ℕ, ◌-◌, ◌<◌, ◌≡◌, refl, sym, ◌∙◌, inl, inr, List, [], ◌∷◌, ◌++◌, Option, none,
  some, arith, ltb, leb, ◌==◌, if◌then◌else◌, not, true, false, Bool-cases,
}
use glommio.Latch.{
  LatchState, pending, ready, canceled, Latch, new, cancel, cancel_result, set_state, fetch_update,
  less, to_zero, count_down, update, settle_zero,
}

-- A latch, with the states that threads still have to set after they have brought the counter to 0.
pub record World : Type 0 where
  pub latch : Latch
  pub owing : List LatchState

-- What a thread owes after an update.
abbrev pub owed : Option ℕ → LatchState → List LatchState
owed none s = []
owed (some n) s = if n == 0 then s ∷ [] else []

-- One step of one thread. `counts` and `cancels` are the update of the counter, `settles` the
-- second step of an earlier update.
pub data Step (w : World) : World → Type 0 where
  counts :
      (n : ℕ)
      → 0 < n
      → Step w (record {
        latch = (fetch_update w.latch (less n w.latch.count)).0;
        owing = w.owing ++ owed (less n w.latch.count) ready;
      })
  cancels : Step w (record {
    latch = (fetch_update w.latch (to_zero w.latch.count)).0;
    owing = w.owing ++ owed (to_zero w.latch.count) canceled;
  })
  settles :
      (s : LatchState) (rest : List LatchState)
      → w.owing ≡ s ∷ rest
      → Step w (record { latch = set_state w.latch s; owing = rest })

pub data Reach (count : ℕ) : World → Type 0 where
  start : Reach count (record { latch = new count; owing = [] })
  later : {w x : World} → Reach count w → Step w x → Reach count x

-- Counting, decided by one thread that has not set the state yet, or set.
pub data Phase (count : ℕ) (state : LatchState) : List LatchState → Type 0 where
  counting : 0 < count → state ≡ pending → Phase count state []
  deciding :
      count ≡ 0
      → state ≡ pending
      → (s : LatchState) → (s ≡ pending → ⊥)
      → Phase count state (s ∷ [])
  decided : count ≡ 0 → (state ≡ pending → ⊥) → Phase count state []

fits-Phase :
    (count n : ℕ) (state : LatchState) (owing : List LatchState)
    → 0 < n
    → n ≤ count
    → Phase count state owing
    → Phase (count - n) state (owing ++ owed (some (count - n)) ready)
fits-Phase count n state owing h l (counting c e) = elim (Bool-cases (count - n == 0)) [
  | inl zero ↦ rw zero (deciding ((==_iff _ _).0 zero) e ready (λ e. cc))
  | inr some_left ↦ rw some_left (counting (ground arith) e)
]
fits-Phase count n state owing h l (deciding z e s d) = absurd (omega arith)
fits-Phase count n state owing h l (decided z d) = absurd (omega arith)

counts-Phase :
    (count n : ℕ) (state : LatchState) (owing : List LatchState)
    → 0 < n
    → Phase count state owing
    → Phase
        (fetch_update (record { count = count; state = state }) (less n count)).0.count
        (fetch_update (record { count = count; state = state }) (less n count)).0.state
        (owing ++ owed (less n count) ready)
unfolding fetch_update less
counts-Phase count n state owing h p = elim (Bool-cases (leb n count)) [
  | inl fits ↦ rw fits (fits-Phase count n state owing h (ground arith) p)
  | inr not ↦ rw not (subst (Phase count state) (sym (append-nil owing)) p)
]

cancels-Phase :
    (count : ℕ) (state : LatchState) (owing : List LatchState)
    → Phase count state owing
    → Phase
        (fetch_update (record { count = count; state = state }) (to_zero count)).0.count
        (fetch_update (record { count = count; state = state }) (to_zero count)).0.state
        (owing ++ owed (to_zero count) canceled)
unfolding fetch_update to_zero
cancels-Phase count state owing (counting c e) =
    let more : (count == 0) ≡ false = ground arith in rw more (deciding refl e canceled (λ e. cc))
cancels-Phase count state owing (deciding z e s d) =
    let none_left : (count == 0) ≡ true = ground arith in rw none_left (deciding z e s d)
cancels-Phase count state owing (decided z d) =
    let none_left : (count == 0) ≡ true = ground arith in rw none_left (decided z d)

settles-Phase :
    (count : ℕ) (state s : LatchState) (owing rest : List LatchState)
    → owing ≡ s ∷ rest
    → Phase count state owing
    → Phase count s rest
settles-Phase count state s owing rest q (counting c e) = absurd (cc)
settles-Phase count state s owing rest q (decided z d) = absurd (cc)
settles-Phase count state s owing rest q (deciding z e t d) =
    let same : t ≡ s = cc in
    let nothing : [] ≡ rest = cc in subst (Phase count s) nothing (decided z (λ k. d (same ∙ k)))

Step-Phase :
    {w x : World}
    → Step w x
    → Phase w.latch.count w.latch.state w.owing
    → Phase x.latch.count x.latch.state x.owing
unfolding set_state
Step-Phase {w} (counts n h) p = counts-Phase w.latch.count n w.latch.state w.owing h p
Step-Phase {w} cancels p = cancels-Phase w.latch.count w.latch.state w.owing p
Step-Phase {w} (settles s rest q) p = settles-Phase w.latch.count w.latch.state s w.owing rest q p

new-Phase : (count : ℕ) → Phase (new count).count (new count).state []
unfolding new
new-Phase count = elim (Bool-cases (ltb 0 count)) [
  | inl some_left ↦ rw some_left (counting (ground arith) refl)
  | inr zero ↦ rw zero (decided (ground arith) (λ e. cc))
]

Reach-Phase : {count : ℕ} {w : World} → Reach count w → Phase w.latch.count w.latch.state w.owing
Reach-Phase {count} start = new-Phase count
Reach-Phase (later r st) = Step-Phase st (Reach-Phase r)

decided_only :
    (count : ℕ) (state : LatchState) (owing : List LatchState)
    → (state ≡ pending → ⊥)
    → Phase count state owing
    → (count ≡ 0) × (owing ≡ [])
decided_only count state owing h (counting c e) = absurd (h e)
decided_only count state owing h (deciding z e s d) = absurd (h e)
decided_only count state owing h (decided z d) = (z, refl)

keeps_latch : (w x : World) → Step w x → w.latch.count ≡ 0 → w.owing ≡ [] → x.latch ≡ w.latch
unfolding fetch_update less to_zero
keeps_latch w x (counts n h) z o = let no : leb n w.latch.count ≡ false = ground arith in rw no refl
keeps_latch w x cancels z o =
    let none_left : (w.latch.count == 0) ≡ true = ground arith in rw none_left refl
keeps_latch w x (settles s rest q) z o = absurd (cc)

-- The outcome is decided once: in every run in which threads count down by at least one, cancel and
-- wait, when the state is no longer pending no further step changes the latch, so all waits return
-- the same.
pub Step-decided :
    {count : ℕ} {w x : World}
    → Reach count w
    → (w.latch.state ≡ pending → ⊥)
    → Step w x
    → x.latch ≡ w.latch
Step-decided {w = w} {x = x} r h st =
    let (z, o) = decided_only w.latch.count w.latch.state w.owing h (Reach-Phase r) in
    keeps_latch w x st z o

-- `cancel` of a latch that still counts makes it canceled, and a count down by 0 after that makes it
-- ready.
pub count_down-cancel :
    (l : Latch)
    → 0 < l.count
    → ((cancel l).0 ≡ record { count = 0; state = canceled })
      × ((count_down (cancel l).0 0).0 ≡ record { count = 0; state = ready })
unfolding count_down cancel cancel_result update settle_zero fetch_update less to_zero set_state
count_down-cancel l h =
    let more : (l.count == 0) ≡ false = ground arith in (rw more refl, rw more refl)
