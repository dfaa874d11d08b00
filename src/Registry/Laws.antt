-- ===== src/Registry/Laws.antt =====
-- `insert` and `remove` of glommio/src/task/registry.rs on the list that the registry stands for.
use glommio.Base.{
  ℕ, ◌≡◌, refl, sym, ap, subst, ◌∙◌, inl, inr, true, false, List, [], ◌∷◌, Option, none, some,
  arith, ◌==◌, elem, Distinct, update, update_self, update_ne, Bool-cases, ==_iff, remove,
  Distinct-remove,
}
use glommio.Registry.{Link, head_link, next_of, Registry, point_back, link_in, unlink, clear, new}
use glommio.Registry.Unlink.{unlink-Chain, unlink_prev, point_back_skip, next_inside, apart_of_elem}
use glommio.Registry.Chain.{Chain, Represents, Chain-frame}

-- Only the first task of the chain is told of a new link.
point_back_ne :
    (next : ℕ → Option ℕ) (prev prev' : ℕ → Option Link) (p link : Link) (cur : Option ℕ)
    (l : List ℕ) (i : ℕ)
    → Chain next prev p cur l
    → elem i l ≡ false
    → point_back cur link prev' i ≡ prev' i
unfolding Chain point_back
point_back_ne next prev prev' p link none l i c h = refl
point_back_ne next prev prev' p link (some x) [] i c h = absurd (cc c)
point_back_ne next prev prev' p link (some x) (y ∷ l) i (e, b, c) h = ground (arith, e)

-- The chain after `link_in`, from the field `next` of the new task.
point_back-Chain :
    (next : ℕ → Option ℕ) (prev : ℕ → Option Link) (p link : Link) (cur : Option ℕ) (l : List ℕ)
    (t : ℕ)
    → Chain next prev p cur l
    → elem t l ≡ false
    → Distinct l
    → Chain
        (update next t cur)
        (point_back cur (next_of t) (update prev t (some link)))
        (next_of t)
        cur
        l
unfolding Chain point_back
point_back-Chain next prev p link none [] t c fresh d = refl
point_back-Chain next prev p link (some x) [] t c fresh d = absurd (cc c)
point_back-Chain next prev p link none (y ∷ l) t (e, b, c) fresh d = absurd (cc e)
point_back-Chain next prev p link (some x) (y ∷ l) t (e, b, c) fresh (y_fresh, d) =
    let next' = update next t (some x) in
    let prev' = update (update prev t (some link)) x (some (next_of t)) in
    (
      e,
      ground (arith, e),
      subst (λ o. Chain next' prev' (next_of y) o l) (ground arith)
          (Chain-frame next next' prev prev' (next_of y) (next y) l
            (λ i h. (ground (arith), ground (arith, e))) c),
    )

pub link_in-Represents :
    (r : Registry) (l : List ℕ) (t : ℕ)
    → Represents r l
    → elem t l ≡ false
    → Represents (link_in r t) (t ∷ l)
unfolding link_in Chain
link_in-Represents r l t v fresh =
    let prev = update r.prev_link t (some head_link) in
    let back = λ (i : ℕ) (h : elem i l ≡ false).
      point_back_ne r.next r.prev_link prev head_link (next_of t) r.head l i v.chain h in
    record {
      chain = (
        refl,
        back t fresh ∙ update_self r.prev_link t (some head_link),
        subst
            (λ o.
              Chain (update r.next t r.head) (point_back r.head (next_of t) prev) (next_of t) o l)
            (sym (update_self r.next t r.head))
            (point_back-Chain r.next r.prev_link head_link head_link r.head l t v.chain fresh
              v.distinct),
      );
      distinct = (fresh, v.distinct);
      others = λ i h.
          back i (ground arith)
          ∙ (update_ne r.prev_link t i (some head_link) (ground arith) ∙ v.others i (ground arith));
    }

-- A task of a chain has a link.
pub linked :
    (next : ℕ → Option ℕ) (prev : ℕ → Option Link) (p : Link) (cur : Option ℕ) (l : List ℕ) (t : ℕ)
    → Chain next prev p cur l
    → elem t l ≡ true
    → (link : Link) × (prev t ≡ some link)
unfolding Chain
linked next prev p cur [] t c h = absurd (cc h)
linked next prev p cur (x ∷ xs) t (_, b, c) h = elim (Bool-cases (t == x)) [
  | inl m ↦ (p, ap prev ((==_iff t x).0 m) ∙ b)
  | inr m ↦ linked next prev (next_of x) (next x) xs t c (ground arith)
]

unlink_self :
    (r : Registry) (t i : ℕ) (link : Link) → (i == t) ≡ true → (unlink r t link).prev_link i ≡ none
unfolding unlink clear
unlink_self r t i link h = ground arith

not_elem_of_remove :
    (i t : ℕ) (l : List ℕ) → (i == t) ≡ false → elem i (remove t l) ≡ false → elem i l ≡ false
not_elem_of_remove i t [] m h = refl
not_elem_of_remove i t (x ∷ xs) m h = ground (arith, not_elem_of_remove i t xs m)

pub unlink-Represents :
    (r : Registry) (l : List ℕ) (t : ℕ) (link : Link)
    → Represents r l
    → elem t l ≡ true
    → r.prev_link t ≡ some link
    → Represents (unlink r t link) (remove t l)
unlink-Represents r l t link v h e =
    let elsewhere = λ (i : ℕ) (u : elem i l ≡ false). λ (y : ℕ) (q : r.next t ≡ some y).
      apart_of_elem i y l u (next_inside r.next r.prev_link head_link r.head l t y v.chain h q) in
    record {
      chain = unlink-Chain r head_link l t link v.chain v.distinct (λ i u. refl) h e;
      distinct = Distinct-remove t l v.distinct;
      others = λ i u. elim (Bool-cases (i == t)) [
        | inl m ↦ unlink_self r t i link m
        | inr m ↦
            let out : elem i l ≡ false = not_elem_of_remove i t l m u in
            unlink_prev r t i link m
            ∙ (point_back_skip (r.next t) link r.prev_link i (elsewhere i out) ∙ v.others i out)
      ];
    }

pub new-Represents : Represents new []
unfolding new Chain
new-Represents = record { chain = refl; distinct = tt; others = λ i h. refl }
