-- ===== src/LocalChannel/Side.antt =====
-- One side of a channel of local_channel.rs: the waiters of one kind, those in the list and those
-- that have been woken and not polled since.
use glommio.Base.{
  ℕ, suc, ◌-◌, ◌≤◌, ◌≡◌, refl, sym, ap, subst, ◌⊎◌, inl, inr, true, false, List, [], ◌∷◌, ◌++◌,
  Option, none, some, arith, length, elem, remove, Distinct, update, elem-append, elem-remove_self,
  elem_of-elem-remove, Distinct-remove, Distinct-snoc, length-remove, ne_of_elem,
}
use glommio.LocalChannel.{WaiterNode, WaiterKind, wake_first, listed}

-- A node in the list of its kind.
pub record Queued (n : WaiterNode) (kind : WaiterKind) : Type 0 where
  pub known : n.kind ≡ some kind
  pub unwoken : n.woken ≡ false
  pub has_waker : (k : ℕ) × (n.waker ≡ some k)

-- A node that has been woken.
abbrev pub Woken : WaiterNode → WaiterKind → Type 0
Woken n kind = (n.woken ≡ true) × (n.kind ≡ some kind)

-- If somebody waits in the list, at least `due` others have been woken and have not been polled.
pub record Side (kind : WaiterKind) (list : List ℕ) (nodes : ℕ → WaiterNode) (due : ℕ)
    : Type 0 where
  pub distinct : Distinct list
  pub queued : (j : ℕ) → elem j list ≡ true → Queued (nodes j) kind
  pub woken : List ℕ
  pub woken_distinct : Distinct woken
  pub woken_marked : (j : ℕ) → elem j woken ≡ true → Woken (nodes j) kind
  pub enough : (list ≡ []) ⊎ (due ≤ length woken)

pub Side-less :
    {kind : WaiterKind} {list : List ℕ} {nodes : ℕ → WaiterNode} {n m : ℕ}
    → m ≤ n
    → Side kind list nodes n
    → Side kind list nodes m
Side-less h v = record {
  distinct = v.distinct;
  queued = v.queued;
  woken = v.woken;
  woken_distinct = v.woken_distinct;
  woken_marked = v.woken_marked;
  enough = elim v.enough [ inl e ↦ inl e | inr e ↦ inr (omega arith) ];
}

-- An empty list owes nothing.
pub Side-nil :
    {kind : WaiterKind} {list : List ℕ} {nodes : ℕ → WaiterNode} {n : ℕ} (m : ℕ)
    → list ≡ []
    → Side kind list nodes n
    → Side kind list nodes m
Side-nil m e v = record {
  distinct = v.distinct;
  queued = v.queued;
  woken = v.woken;
  woken_distinct = v.woken_distinct;
  woken_marked = v.woken_marked;
  enough = inl e;
}

-- Writes to cells of no concern to this side.
pub Side-frame :
    {kind : WaiterKind} {list : List ℕ} {nodes nodes' : ℕ → WaiterNode} {n : ℕ}
    → ((j : ℕ) → (nodes j).kind ≡ some kind → nodes' j ≡ nodes j)
    → Side kind list nodes n
    → Side kind list nodes' n
Side-frame {kind = kind} same v = record {
  distinct = v.distinct;
  queued = λ j e. let q = v.queued j e in subst (λ n. Queued n kind) (sym (same j q.known)) q;
  woken = v.woken;
  woken_distinct = v.woken_distinct;
  woken_marked =
      λ j e. let m = v.woken_marked j e in subst (λ n. Woken n kind) (sym (same j m.1)) m;
  enough = v.enough;
}

pub Side-remove :
    {kind : WaiterKind} {list : List ℕ} {nodes : ℕ → WaiterNode} {n : ℕ} (i : ℕ)
    → Side kind list nodes n
    → Side kind (remove i list) nodes n
Side-remove {list = list} i v = record {
  distinct = Distinct-remove i list v.distinct;
  queued = λ j e. v.queued j (elem_of-elem-remove j i list e);
  woken = v.woken;
  woken_distinct = v.woken_distinct;
  woken_marked = v.woken_marked;
  enough = elim v.enough [ inl e ↦ inl (ap (remove i) e) | inr e ↦ inr e ];
}

-- A new value of a cell that is not woken: one woken waiter fewer at most.
pub Side-write :
    {kind : WaiterKind} {list : List ℕ} {nodes : ℕ → WaiterNode} {n : ℕ} (i : ℕ) (node : WaiterNode)
    → (elem i list ≡ true → Queued node kind)
    → Side kind list nodes n
    → Side kind list (update nodes i node) (n - 1)
Side-write {kind} {list} {nodes} i node h v = record {
  distinct = v.distinct;
  queued = λ j e. ground (arith, h, v.queued j e);
  woken = remove i v.woken;
  woken_distinct = Distinct-remove i v.woken v.woken_distinct;
  woken_marked = λ j e. ground (
    arith,
    v.woken_marked j,
    elem_of-elem-remove j i v.woken,
    elem-remove_self i v.woken v.woken_distinct,
  );
  enough = elim v.enough [ inl e ↦ inl e | inr e ↦ inr (omega (arith, length-remove i v.woken)) ];
}

-- A node goes to the end of the list when nothing is due.
pub Side-snoc :
    {kind : WaiterKind} {list : List ℕ} {nodes : ℕ → WaiterNode} (i : ℕ)
    → elem i list ≡ false
    → Queued (nodes i) kind
    → Side kind list nodes 0
    → Side kind (list ++ (i ∷ [])) nodes 0
Side-snoc {kind} {list} {nodes} i new q v = record {
  distinct = Distinct-snoc i list new v.distinct;
  queued = λ j e. ground (arith, elem-append j list (i ∷ []), v.queued j);
  woken = v.woken;
  woken_distinct = v.woken_distinct;
  woken_marked = v.woken_marked;
  enough = inr (omega arith);
}

-- `wake_first` of a list with somebody in it.
pub Side-wake :
    {kind : WaiterKind} {w : ℕ} {list : List ℕ} {nodes : ℕ → WaiterNode} {n : ℕ}
    → Side kind (w ∷ list) nodes n
    → Side kind list (update nodes w (record (nodes w) { woken = true; waker = none })) (suc n)
Side-wake {kind} {w} {list} {nodes} v = record {
  distinct = v.distinct.1;
  queued = λ j e. ground (arith, v.queued j, ne_of_elem j w list v.distinct.0);
  woken = w ∷ v.woken;
  woken_distinct = (ground (arith, v.woken_marked w, v.queued w (ground arith)), v.woken_distinct);
  woken_marked = λ j e. ground (arith, v.woken_marked j, v.queued w (ground arith));
  enough = elim v.enough [ inl e ↦ absurd (cc) | inr e ↦ inr (omega arith) ];
}

-- A new value of a cell that was not woken costs nothing.
pub Side-rewrite :
    {kind : WaiterKind} {list : List ℕ} {nodes : ℕ → WaiterNode} {n : ℕ} (i : ℕ) (node : WaiterNode)
    → (nodes i).woken ≡ false
    → (elem i list ≡ true → Queued node kind)
    → Side kind list nodes n
    → Side kind list (update nodes i node) n
Side-rewrite {kind} {list} {nodes} i node u h v = record {
  distinct = v.distinct;
  queued = λ j e. ground (arith, h, v.queued j e);
  woken = v.woken;
  woken_distinct = v.woken_distinct;
  woken_marked = λ j e. ground (arith, v.woken_marked j e);
  enough = v.enough;
}

-- `wake_first` pays for one more, and leaves the other side alone.
pub wake_first-Side :
    (kind : WaiterKind) (o : Option (List ℕ)) (nodes : ℕ → WaiterNode) (n : ℕ)
    → Side kind (listed o) nodes n
    → Side kind (listed (wake_first o nodes).0) (wake_first o nodes).1 (suc n)
unfolding wake_first
wake_first-Side kind none nodes n v = Side-nil (suc n) refl v
wake_first-Side kind (some []) nodes n v = Side-nil (suc n) refl v
wake_first-Side kind (some (w ∷ ws)) nodes n v = Side-wake v

pub wake_first-Side_other :
    (kind other : WaiterKind) (o : Option (List ℕ)) (nodes : ℕ → WaiterNode) (n m : ℕ)
    (list : List ℕ)
    → (some kind ≡ some other → ⊥)
    → Side kind (listed o) nodes n
    → Side other list nodes m
    → Side other list (wake_first o nodes).1 m
unfolding wake_first
wake_first-Side_other kind other none nodes n m list ne v y = y
wake_first-Side_other kind other (some []) nodes n m list ne v y = y
wake_first-Side_other kind other (some (w ∷ ws)) nodes n m list ne v y =
    let q = v.queued w (ground arith) in Side-frame (λ j k. ground (arith, q.known, ne)) y
