-- ===== src/Executor/Least.antt =====
-- The choice of the next task queue in glommio/src/executor/mod.rs: the heap is ordered by the
-- virtual runtime.
use glommio.Base.{
  ℕ, ◌≤◌, ◌≡◌, refl, ap, sym, ◌∙◌, subst, inl, inr, Bool, true, false, ◌||◌, List, [], ◌∷◌, none,
  some, arith, ltb, ◌==◌, if◌then◌else◌, elem, Bool-cases, ==_iff,
}
use glommio.Executor.{TaskQueue, least, peek}

or_right : (a b : Bool) → b ≡ true → (a || b) ≡ true
or_right a b e = ground arith

or_insert : (a c b : Bool) → (a || b) ≡ true → (a || (c || b)) ≡ true
or_insert a c b e = ground arith

pub elem-least :
    (queues : ℕ → TaskQueue) (best : ℕ) (l : List ℕ) → elem (least queues best l) (best ∷ l) ≡ true
unfolding least
elem-least queues best [] = ground arith
elem-least queues best (i ∷ l) =
    let f =
      λ (b : Bool). elem (if b then least queues i l else least queues best l) (best ∷ i ∷ l) in
    elim (Bool-cases (ltb (queues i).vruntime (queues best).vruntime)) [
      | inl e ↦
          ap f e
          ∙ or_right (least queues i l == best) (elem (least queues i l) (i ∷ l))
              (elem-least queues i l)
      | inr e ↦
          let x = least queues best l in
          ap f e ∙ or_insert (x == best) (x == i) (elem x l) (elem-least queues best l)
    ]

in_cons :
    (f : ℕ → ℕ) (m j i : ℕ) (l : List ℕ)
    → m ≤ f i
    → (elem j l ≡ true → m ≤ f j)
    → elem j (i ∷ l) ≡ true
    → m ≤ f j
in_cons f m j i l h k e = elim (Bool-cases (j == i)) [
  | inl same ↦ subst (λ n. m ≤ f n) (sym ((==_iff j i).0 same)) h
  | inr other ↦ k (ground (arith, other, e))
]

ltb_less : (a b : ℕ) → ltb a b ≡ true → a ≤ b
ltb_less a b e = ground arith

ltb_not : (a b : ℕ) → ltb a b ≡ false → b ≤ a
ltb_not a b e = ground arith

-- The head of the heap has the least virtual runtime.
least_by :
    (queues : ℕ → TaskQueue) (best : ℕ) (l : List ℕ) (j : ℕ)
    → ((queues (least queues best l)).vruntime ≤ (queues best).vruntime)
      × (elem j l ≡ true → (queues (least queues best l)).vruntime ≤ (queues j).vruntime)
unfolding least
least_by queues best [] j = (omega arith, λ h. absurd (cc))
least_by queues best (i ∷ l) j =
    let f = λ (b : Bool).
      ((queues (if b then least queues i l else least queues best l)).vruntime
        ≤ (queues best).vruntime)
      × (elem j (i ∷ l) ≡ true
          → (queues (if b then least queues i l else least queues best l)).vruntime
            ≤ (queues j).vruntime) in
    elim (Bool-cases (ltb (queues i).vruntime (queues best).vruntime)) [
      | inl e ↦
          let (at_i, at_l) = least_by queues i l j in
          subst f (sym e) (
            omega (arith, at_i, ltb_less (queues i).vruntime (queues best).vruntime e),
            in_cons (λ n. (queues n).vruntime) (queues (least queues i l)).vruntime j i l at_i at_l,
          )
      | inr e ↦
          let (at_best, at_l) = least_by queues best l j in
          subst f (sym e) (
            at_best,
            in_cons (λ n. (queues n).vruntime) (queues (least queues best l)).vruntime j i l
                (omega (arith, at_best, ltb_not (queues i).vruntime (queues best).vruntime e)) at_l,
          )
    ]

the_same : {i j : ℕ} → some i ≡ some j → i ≡ j
the_same e = cc

-- What `peek` finds in a heap.
pub peek-least :
    (queues : ℕ → TaskQueue) (l : List ℕ) (i : ℕ)
    → peek queues l ≡ some i
    → (elem i l ≡ true) × ((j : ℕ) → elem j l ≡ true → (queues i).vruntime ≤ (queues j).vruntime)
unfolding peek
peek-least queues [] i e = absurd (cc)
peek-least queues (best ∷ l) i e =
    let same = the_same e in
    (
      subst (λ n. elem n (best ∷ l) ≡ true) same (elem-least queues best l),
      λ j h.
          subst (λ n. (queues n).vruntime ≤ (queues j).vruntime) same
            (in_cons (λ n. (queues n).vruntime) (queues (least queues best l)).vruntime j best l
              (least_by queues best l j).0 (least_by queues best l j).1 h),
    )

pub peek-none : (queues : ℕ → TaskQueue) (l : List ℕ) → peek queues l ≡ none → l ≡ []
unfolding peek
peek-none queues [] e = refl
peek-none queues (best ∷ l) e = absurd (cc)
