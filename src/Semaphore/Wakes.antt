-- ===== src/Semaphore/Wakes.antt =====
-- What the wake-up loop of semaphore.rs does to a well-formed queue.
use glommio.Base.{
  ℕ, ◌+◌, ◌-◌, ◌≤◌, ◌<◌, ◌≡◌, refl, inl, inr, true, false, List, [], ◌∷◌, none, some, arith, leb,
  ◌==◌, is_some, Bool-cases, Option-cases, elem, Distinct, update, update_ne, ne_of_elem, sym, ap,
  ◌∙◌,
}
use glommio.Semaphore.{WaiterNode, wake_fitting, keep, call}

-- A node as it stands in the list: it has a waker, is not marked as woken, and wants something.
pub record IsQueued (n : WaiterNode) : Type 0 where
  pub has_waker : is_some n.waker ≡ true
  pub not_woken : n.woken ≡ false
  pub wants : 0 < n.units

-- The units that the nodes of a list want together.
abbrev pub wanted : (ℕ → WaiterNode) → List ℕ → ℕ
wanted nodes [] = 0
wanted nodes (w ∷ ws) = (nodes w).units + wanted nodes ws

abbrev pub woken_node : WaiterNode → WaiterNode
woken_node n = record n { waker = none; woken = true }

pub wanted_congr :
    (f g : ℕ → WaiterNode) (ws : List ℕ)
    → ((j : ℕ) → elem j ws ≡ true → f j ≡ g j)
    → wanted f ws ≡ wanted g ws
wanted_congr f g [] h = refl
wanted_congr f g (w ∷ ws) h =
    ground (arith, h w (ground arith), wanted_congr f g ws (λ j e. h j (ground arith)))

-- The queue `ws` falls into the nodes that stay and those that leave, in its order, and `wakes` are
-- the wakers of those that leave, one for each.
pub data Parted (nodes : ℕ → WaiterNode) : List ℕ → List ℕ → List ℕ → Type 0 where
  all_done : Parted nodes [] [] []
  stay :
      {ws kept wakes : List ℕ} (w : ℕ)
      → Parted nodes ws kept wakes
      → Parted nodes (w ∷ ws) (w ∷ kept) wakes
  leave :
      {ws kept wakes : List ℕ} (w k : ℕ)
      → (nodes w).waker ≡ some k
      → Parted nodes ws kept wakes
      → Parted nodes (w ∷ ws) kept (k ∷ wakes)

all_stay : (nodes : ℕ → WaiterNode) (ws : List ℕ) → Parted nodes ws ws []
all_stay nodes [] = all_done
all_stay nodes (w ∷ ws) = stay w (all_stay nodes ws)

-- The wakers of other nodes do not matter.
Parted-frame :
    {nodes nodes' : ℕ → WaiterNode} {ws kept wakes : List ℕ}
    → ((j : ℕ) → elem j ws ≡ true → (nodes' j).waker ≡ (nodes j).waker)
    → Parted nodes ws kept wakes
    → Parted nodes' ws kept wakes
Parted-frame f all_done = all_done
Parted-frame f (stay w p) = stay w (Parted-frame (λ j e. f j (ground arith)) p)
Parted-frame f (leave w k e p) =
    leave w k (f w (ground arith) ∙ e) (Parted-frame (λ j e. f j (ground arith)) p)

-- What the loop promises for `avail` units over the queue `ws`.
pub record Woke (avail : ℕ) (ws : List ℕ) (nodes : ℕ → WaiterNode)
    (r : List ℕ × (ℕ → WaiterNode) × List ℕ) : Type 0 where
  pub distinct : Distinct r.0
  pub subset : (j : ℕ) → elem j r.0 ≡ true → elem j ws ≡ true
  -- A node that stays in the list is untouched, as is every node that was not in it.
  pub stays : (j : ℕ) → elem j r.0 ≡ true → r.1 j ≡ nodes j
  pub apart : (j : ℕ) → elem j ws ≡ false → r.1 j ≡ nodes j
  -- A node that leaves the list is marked, and its waker has been taken.
  pub leaves : (j : ℕ) → elem j ws ≡ true → elem j r.0 ≡ false → r.1 j ≡ woken_node (nodes j)
  -- The wakers of the nodes that leave are called, in order and once each, and no other.
  pub called : Parted nodes ws r.0 r.2
  -- All that are woken can proceed together.
  pub less : wanted nodes r.0 ≤ wanted nodes ws
  pub fits : wanted nodes ws ≤ wanted nodes r.0 + avail
  -- What is then left is too little for any node that stays.
  pub greedy :
      (j : ℕ) → elem j r.0 ≡ true → avail + wanted nodes r.0 < (nodes j).units + wanted nodes ws

Woke-nil : (avail : ℕ) (nodes : ℕ → WaiterNode) → Woke avail [] nodes ([], nodes, [])
Woke-nil avail nodes = record {
  distinct = tt;
  subset = λ j e. e;
  stays = λ j e. refl;
  apart = λ j e. refl;
  leaves = λ j e f. cc;
  called = all_done;
  less = omega arith;
  fits = omega arith;
  greedy = λ j e. absurd (cc e);
}

Woke-none :
    (ws : List ℕ) (nodes : ℕ → WaiterNode)
    → Distinct ws
    → ((j : ℕ) → elem j ws ≡ true → IsQueued (nodes j))
    → Woke 0 ws nodes (ws, nodes, [])
Woke-none ws nodes d q = record {
  distinct = d;
  subset = λ j e. e;
  stays = λ j e. refl;
  apart = λ j e. refl;
  leaves = λ j e f. cc;
  called = all_stay nodes ws;
  less = omega arith;
  fits = omega arith;
  greedy = λ j e. omega (arith, (q j e).wants);
}

Woke-keep :
    (avail w : ℕ) (ws : List ℕ) (nodes : ℕ → WaiterNode) (r : List ℕ × (ℕ → WaiterNode) × List ℕ)
    → elem w ws ≡ false
    → avail < (nodes w).units
    → Woke avail ws nodes r
    → Woke avail (w ∷ ws) nodes (keep w r)
unfolding keep
Woke-keep avail w ws nodes r h big k = record {
  distinct = ground (arith, k.subset w, k.distinct);
  subset = λ j e. ground (arith, k.subset j);
  stays = λ j e. ground (arith, k.stays j, k.apart w h);
  apart = λ j e. ground (arith, k.apart j);
  leaves = λ j e f. ground (arith, k.leaves j);
  called = stay w k.called;
  less = omega (arith, k.less);
  fits = omega (arith, k.fits);
  greedy = λ j e. ground (arith, k.greedy j, k.less);
}

Woke-call :
    (avail w k : ℕ) (ws : List ℕ) (nodes : ℕ → WaiterNode) (r : List ℕ × (ℕ → WaiterNode) × List ℕ)
    → elem w ws ≡ false
    → (nodes w).units ≤ avail
    → (nodes w).waker ≡ some k
    → Woke (avail - (nodes w).units) ws (update nodes w (woken_node (nodes w))) r
    → wanted (update nodes w (woken_node (nodes w))) ws ≡ wanted nodes ws
    → wanted (update nodes w (woken_node (nodes w))) r.0 ≡ wanted nodes r.0
    → Woke avail (w ∷ ws) nodes (call k r)
unfolding call
Woke-call avail w k ws nodes r h small found v same same' = record {
  distinct = v.distinct;
  subset = λ j e. ground (arith, v.subset j);
  stays = λ j e. ground (arith, v.stays j e, v.subset j e);
  apart = λ j e. ground (arith, v.apart j);
  leaves = λ j e f. ground (arith, v.leaves j, v.apart w h);
  called = leave w k found (
      Parted-frame
        (λ j e. sym (
          ap (λ (n : WaiterNode). n.waker)
            (update_ne nodes w j (woken_node (nodes w)) (ne_of_elem j w ws h e))))
        v.called);
  less = omega (arith, v.less);
  fits = omega (arith, v.fits);
  greedy = λ j e. ground (arith, v.greedy j e, v.subset j e);
}

-- Writing the mark of `w` changes no demand.
wanted-update :
    (nodes : ℕ → WaiterNode) (w : ℕ) (ws : List ℕ)
    → wanted (update nodes w (woken_node (nodes w))) ws ≡ wanted nodes ws
wanted-update nodes w [] = refl
wanted-update nodes w (x ∷ ws) = ground (arith, wanted-update nodes w ws)

-- On a queue of distinct queued nodes the loop of `process_wakes` does not panic. It wakes nodes
-- that can all proceed with the units there are, in turn and once each, it takes exactly those out
-- of the list, and the units that it leaves over are too few for any node that stays.
pub wake_fitting_lem :
    (avail : ℕ) (ws : List ℕ) (nodes : ℕ → WaiterNode)
    → Distinct ws
    → ((j : ℕ) → elem j ws ≡ true → IsQueued (nodes j))
    → (r : List ℕ × (ℕ → WaiterNode) × List ℕ) × (wake_fitting avail ws nodes ≡ some r)
      × Woke avail ws nodes r
unfolding wake_fitting
wake_fitting_lem avail [] nodes d q = (([], nodes, []), refl, Woke-nil avail nodes)
wake_fitting_lem avail (w ∷ ws) nodes d q = elim (Bool-cases (avail == 0)) [
  | inl none_left ↦ (
    (w ∷ ws, nodes, []),
    ground arith,
    let e : avail ≡ 0 = ground arith in rw e (Woke-none (w ∷ ws) nodes d q),
  )
  | inr left ↦ elim (Bool-cases (leb (nodes w).units avail)) [
    | inr big ↦
        let (r, e, k) = wake_fitting_lem avail ws nodes d.1 (λ j e. q j (ground arith)) in
        (keep w r, ground (arith, e), Woke-keep avail w ws nodes r d.0 (ground arith) k)
    | inl small ↦ elim (Option-cases (nodes w).waker) [
      | inl lost ↦
          let h : is_some (nodes w).waker ≡ true = (q w (ground arith)).has_waker in
          absurd (ground arith)
      | inr (k, found) ↦
          let nodes' : ℕ → WaiterNode = update nodes w (woken_node (nodes w)) in
          let (r, e, v) = wake_fitting_lem (avail - (nodes w).units) ws nodes' d.1 (λ j e.
            rw (update_ne nodes w j (woken_node (nodes w)) (ne_of_elem j w ws d.0 e))
              (q j (ground arith))) in
          (
            call k r,
            ground (arith, e, found),
            Woke-call avail w k ws nodes r d.0 (ground arith) found v (wanted-update nodes w ws)
                (wanted-update nodes w r.0),
          )
    ]
  ]
]
