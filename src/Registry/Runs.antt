-- ===== src/Registry/Runs.antt =====
-- Sequences of calls of glommio/src/task/registry.rs, next to the same calls on a list.
use glommio.Base.{
  ℕ, sym, subst, inl, inr, List, [], ◌∷◌, Option, none, some, if◌then◌else◌, elem, Bool-cases,
  is_some, remove,
}
use glommio.Registry.{Link, head_link, Registry, insert, link_in, unlink, new, remove_by}
use glommio.Registry.Chain.{Represents}
use glommio.Registry.Laws.{link_in-Represents, unlink-Represents, new-Represents, linked}

pub data Call : Type 0 where
  inserts : ℕ → Call
  removes : ℕ → Call

unfoldable pub call : Call → Registry → Option Registry
call (inserts t) r = insert r t
call (removes t) r = glommio.Registry.remove r t

-- The same call on a list: a task is put at the front once, and only a task of the list is taken out.
unfoldable pub list_call : Call → List ℕ → Option (List ℕ)
list_call (inserts t) l = if elem t l then none else some (t ∷ l)
list_call (removes t) l = if elem t l then some (remove t l) else none

-- The calls in turn, up to the first that fails.
unfoldable pub calls {ℓ} : {A : Type ℓ} → (Call → A → Option A) → List Call → Option A → Option A
calls f cs none = none
calls f [] (some a) = some a
calls f (c ∷ cs) (some a) = calls f cs (f c a)

-- Both fail, or the registry stands for the list.
unfoldable pub Agree : Option Registry → Option (List ℕ) → Type 0
Agree none none = Unit
Agree (some r) (some l) = Represents r l
Agree none (some l) = ⊥
Agree (some r) none = ⊥

insert-Agree :
    (r : Registry) (l : List ℕ) (t : ℕ)
    → Represents r l
    → Agree (insert r t) (list_call (inserts t) l)
unfolding insert list_call Agree
insert-Agree r l t v = elim (Bool-cases (elem t l)) [
  | inl m ↦
      subst (λ b. Agree (insert r t) (if b then none else some (t ∷ l))) (sym m)
        (subst (λ o. Agree (if is_some o then none else some (link_in r t)) none)
          (sym (linked r.next r.prev_link head_link r.head l t v.chain m).1) tt)
  | inr m ↦
      subst (λ b. Agree (insert r t) (if b then none else some (t ∷ l))) (sym m)
        (subst (λ o. Agree (if is_some o then none else some (link_in r t)) (some (t ∷ l)))
          (sym (v.others t m)) (link_in-Represents r l t v m))
]

remove-Agree :
    (r : Registry) (l : List ℕ) (t : ℕ)
    → Represents r l
    → Agree (glommio.Registry.remove r t) (list_call (removes t) l)
unfolding glommio.Registry.remove remove_by list_call Agree
remove-Agree r l t v = elim (Bool-cases (elem t l)) [
  | inl m ↦
      let (link, e) = linked r.next r.prev_link head_link r.head l t v.chain m in
      subst (λ b. Agree (remove_by r t (r.prev_link t)) (if b then some (remove t l) else none))
        (sym m)
        (subst (λ o. Agree (remove_by r t o) (some (remove t l))) (sym e)
          (unlink-Represents r l t link v m e))
  | inr m ↦
      subst (λ b. Agree (remove_by r t (r.prev_link t)) (if b then some (remove t l) else none))
        (sym m) (subst (λ o. Agree (remove_by r t o) none) (sym (v.others t m)) tt)
]

call-Agree :
    (c : Call) (r : Registry) (l : List ℕ) → Represents r l → Agree (call c r) (list_call c l)
unfolding call
call-Agree (inserts t) r l v = insert-Agree r l t v
call-Agree (removes t) r l v = remove-Agree r l t v

calls-Agree :
    (cs : List Call) (r : Option Registry) (l : Option (List ℕ))
    → Agree r l
    → Agree (calls call cs r) (calls list_call cs l)
unfolding calls Agree
calls-Agree cs none none a = tt
calls-Agree cs none (some l) a = absurd a
calls-Agree [] (some r) (some l) a = a
calls-Agree [] (some r) none a = absurd a
calls-Agree (c ∷ cs) (some r) none a = absurd a
calls-Agree (c ∷ cs) (some r) (some l) a =
    calls-Agree cs (call c r) (list_call c l) (call-Agree c r l a)

-- From an empty registry, calls of `insert` and `remove` in any order do what the same calls do on a
-- list: an assertion fails exactly where a task is put in that is in the list or taken out that is
-- not, and otherwise following the fields `next` from the head gives the list, each task of it has the
-- link that points to it, and all other tasks have none.
pub registry_run :
    (cs : List Call) → Agree (calls call cs (some new)) (calls list_call cs (some []))
unfolding Agree
registry_run cs = calls-Agree cs (some new) (some []) new-Represents
