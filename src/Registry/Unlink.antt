-- ===== src/Registry/Unlink.antt =====
-- `remove` of glommio/src/task/registry.rs: what it writes, and the chain that is left.
use glommio.Base.{
  ℕ, ◌≡◌, refl, sym, ap, subst, ◌∙◌, inl, inr, Bool, true, false, List, [], ◌∷◌, Option, none, some,
  arith, ◌==◌, if◌then◌else◌, elem, Distinct, update_ne, Bool-cases, ==_iff, remove,
}
use glommio.Registry.{Link, head_link, next_of, Registry, point_back, write, clear, unlink}
use glommio.Registry.Chain.{Chain, Chain-frame}

abbrev pub same : Link → Link → Bool
same head_link head_link = true
same head_link (next_of j) = false
same (next_of i) head_link = false
same (next_of i) (next_of j) = i == j

-- What a link holds.
abbrev pub read : Link → Registry → Option ℕ
read head_link r = r.head
read (next_of i) r = r.next i

-- The link is not a field of a task of the list.
abbrev pub Outside : Link → List ℕ → Type 0
Outside p l = (i : ℕ) → elem i l ≡ true → same p (next_of i) ≡ false

read-unlink :
    (r : Registry) (t : ℕ) (link q : Link)
    → same q (next_of t) ≡ false
    → same q link ≡ false
    → read q (unlink r t link) ≡ read q r
unfolding unlink write clear
read-unlink r t head_link head_link a b = absurd (cc b)
read-unlink r t head_link (next_of i) a b = ground arith
read-unlink r t (next_of j) head_link a b = refl
read-unlink r t (next_of j) (next_of i) a b = ground arith

unlink-read_self :
    (r : Registry) (t : ℕ) (link : Link)
    → same link (next_of t) ≡ false
    → read link (unlink r t link) ≡ r.next t
unfolding unlink write clear
unlink-read_self r t head_link a = refl
unlink-read_self r t (next_of j) a = ground arith

point_back_self :
    (cur : Option ℕ) (link : Link) (prev : ℕ → Option Link) (i : ℕ)
    → cur ≡ some i
    → point_back cur link prev i ≡ some link
unfolding point_back
point_back_self none link prev i e = absurd (cc e)
point_back_self (some j) link prev i e = ground (arith, e)

-- Only the next task is told of the link.
pub point_back_skip :
    (cur : Option ℕ) (link : Link) (prev : ℕ → Option Link) (i : ℕ)
    → ((y : ℕ) → cur ≡ some y → (i == y) ≡ false)
    → point_back cur link prev i ≡ prev i
unfolding point_back
point_back_skip none link prev i h = refl
point_back_skip (some j) link prev i h = ground (arith, h j refl)

write_prev : (link : Link) (v : Option ℕ) (r : Registry) → (write link v r).prev_link ≡ r.prev_link
unfolding write
write_prev head_link v r = refl
write_prev (next_of i) v r = refl

pub unlink_prev :
    (r : Registry) (t i : ℕ) (link : Link)
    → (i == t) ≡ false
    → (unlink r t link).prev_link i ≡ point_back (r.next t) link r.prev_link i
unfolding unlink clear
unlink_prev r t i link h =
    update_ne (point_back (r.next t) link (write link (r.next t) r).prev_link) t i none h
    ∙ ap (λ f. point_back (r.next t) link f i) (write_prev link (r.next t) r)

-- The link of a task of a chain is the start of the chain or a field of a task of the list.
link_apart :
    (next : ℕ → Option ℕ) (prev : ℕ → Option Link) (p : Link) (cur : Option ℕ) (l : List ℕ)
    → (t : ℕ) (link q : Link) → Chain next prev p cur l
    → elem t l ≡ true
    → prev t ≡ some link
    → same q p ≡ false
    → Outside q l
    → same q link ≡ false
unfolding Chain
link_apart next prev p cur [] t link q c h e a o = absurd (cc h)
link_apart next prev p cur (x ∷ xs) t link q (_, b, c) h e a o = elim (Bool-cases (t == x)) [
  | inl m ↦ let m = (==_iff t x).0 m in subst (λ k. same q k ≡ false) (cc (b, e, m)) a
  | inr m ↦
      link_apart next prev (next_of x) (next x) xs t link q c (ground arith) e (o x (ground arith))
        (λ i u. o i (ground arith))
]

-- The task after a task of a chain is in the list.
pub next_inside :
    (next : ℕ → Option ℕ) (prev : ℕ → Option Link) (p : Link) (cur : Option ℕ) (l : List ℕ)
    (t i : ℕ)
    → Chain next prev p cur l
    → elem t l ≡ true
    → next t ≡ some i
    → elem i l ≡ true
unfolding Chain
next_inside next prev p cur [] t i c h e = absurd (cc h)
next_inside next prev p cur (x ∷ []) t i (_, _, c) h e = absurd (ground (arith, c))
next_inside next prev p cur (x ∷ y ∷ ys) t i (_, _, c) h e = elim (Bool-cases (t == x)) [
  | inl m ↦ ground (arith, c.0, e)
  | inr m ↦
      ground (arith, next_inside next prev (next_of x) (next x) (y ∷ ys) t i c (ground arith) e)
]

-- A task that is not in the list is another task.
pub apart_of_elem : (x y : ℕ) (l : List ℕ) → elem x l ≡ false → elem y l ≡ true → (x == y) ≡ false
apart_of_elem x y l h e = ground arith

-- The registry holds the list from the link `p`.
abbrev pub From : Registry → Link → List ℕ → Type 0
From r p l = Chain r.next r.prev_link p (read p r) l

-- The task that is taken out is the first of the chain.
unlink_first :
    (r : Registry) (p : Link) (t : ℕ) (xs : List ℕ)
    → From r p (t ∷ xs)
    → Distinct (t ∷ xs)
    → Outside p (t ∷ xs)
    → From (unlink r t p) p xs
unfolding Chain
unlink_first r p t [] (_, _, c) d o = unlink-read_self r t p (o t (ground arith)) ∙ c
unlink_first r p t (y ∷ ys) (_, _, (c, b, cs)) (fresh, (y_fresh, d)) o =
    let r' = unlink r t p in
    let kept = λ (i : ℕ) (h : elem i (y ∷ ys) ≡ true).
      read-unlink r t p (next_of i) (ground arith) (ground (arith, o i)) in
    (
      unlink-read_self r t p (o t (ground arith)) ∙ c,
      unlink_prev r t y p (ground arith) ∙ point_back_self (r.next t) p r.prev_link y c,
      subst (λ z. Chain r'.next r'.prev_link (next_of y) z ys) (sym (kept y (ground arith)))
          (Chain-frame r.next r'.next r.prev_link r'.prev_link (next_of y) (r.next y) ys
            (λ i h. (
              kept i (ground arith),
              unlink_prev r t i p (ground arith)
                  ∙ point_back_skip (r.next t) p r.prev_link i (λ z q. ground (arith, c, q)),
            ))
            cs),
    )

-- The chain without a task of it.
pub unlink-Chain :
    (r : Registry) (p : Link) (l : List ℕ) (t : ℕ) (link : Link)
    → From r p l
    → Distinct l
    → Outside p l
    → elem t l ≡ true
    → r.prev_link t ≡ some link
    → From (unlink r t link) p (remove t l)
unfolding Chain
unlink-Chain r p [] t link c d o h e = absurd (cc h)
unlink-Chain r p (x ∷ xs) t link (a, b, c) (fresh, d) o h e = elim (Bool-cases (t == x)) [
  | inl m ↦
      let eq : x ≡ t = sym ((==_iff t x).0 m) in
      let p_link : p ≡ link = cc (b, e, eq) in
      subst (From (unlink r t link) p) (sym (ap (λ v. if v then xs else x ∷ remove t xs) m)) (
        subst (λ k. From (unlink r t k) p xs) p_link
          (unlink_first r p t xs (subst (λ k. From r p (k ∷ xs)) eq (a, b, c))
            (subst (λ k. Distinct (k ∷ xs)) eq (fresh, d)) (subst (λ k. Outside p (k ∷ xs)) eq o)))
  | inr m ↦
      let inside : elem t xs ≡ true = ground arith in
      let apart =
        link_apart r.next r.prev_link (next_of x) (r.next x) xs t link p c inside e
          (o x (ground arith)) (λ i u. o i (ground arith)) in
      let skip = point_back_skip (r.next t) link r.prev_link x (λ y q.
        apart_of_elem x y xs fresh
          (next_inside r.next r.prev_link (next_of x) (r.next x) xs t y c inside q)) in
      subst (From (unlink r t link) p) (sym (ap (λ v. if v then xs else x ∷ remove t xs) m)) (
        read-unlink r t link p (o t h) apart ∙ a,
        unlink_prev r t x link (ground arith) ∙ (skip ∙ b),
        unlink-Chain r (next_of x) xs t link c d (λ i u. ground arith) inside e,
      )
]
