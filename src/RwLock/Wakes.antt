-- ===== src/RwLock/Wakes.antt =====
-- Whom the wake-up loops of rwlock.rs wake: a front part of the queue.
use glommio.Base.{
  ℕ, suc, ◌-◌, ◌^◌, ◌≤◌, ◌<◌, ◌≡◌, refl, sym, ◌∙◌, ap, ap₂, subst, fun_ext, inl, inr, ◌⊎◌, Bool,
  true, false, List, [], ◌∷◌, ◌++◌, Option, some, map, arith, ◌==◌, if◌then◌else◌, is_some,
  Bool-cases, Option-cases, elem, Distinct, not_elem_front, update, ne_of_elem,
}
use glommio.RwLock.{
  WaiterNode, is_writer, Loop, woken_node, wake_till_writer, wake_through_writer, wake_all,
}

-- Which nodes are writers.
abbrev pub writes : (ℕ → WaiterNode) → ℕ → Bool
writes nodes j = is_writer (nodes j).kind

-- All nodes of the list are readers.
abbrev pub Readers : (ℕ → Bool) → List ℕ → Type 0
Readers wr [] = Unit {0}
Readers wr (w ∷ ws) = (wr w ≡ false) × Readers wr ws

-- Readers up to the end of the queue, or readers and then one writer.
abbrev pub ThroughWriter : (ℕ → Bool) → List ℕ → List ℕ → Type 0
ThroughWriter wr [] back = back ≡ []
ThroughWriter wr (w ∷ ws) back =
    ((wr w ≡ true) × (ws ≡ [])) ⊎ ((wr w ≡ false) × ThroughWriter wr ws back)

-- The list is empty or a writer stands at its head.
abbrev pub WriterFirst : (ℕ → Bool) → List ℕ → Type 0
WriterFirst wr [] = Unit {0}
WriterFirst wr (w ∷ ws) = wr w ≡ true

abbrev pub count_writers : (ℕ → Bool) → List ℕ → ℕ
count_writers wr [] = 0
count_writers wr (w ∷ ws) = if wr w then suc (count_writers wr ws) else count_writers wr ws

pub writes-update :
    (nodes : ℕ → WaiterNode) (w : ℕ) → writes (update nodes w (woken_node (nodes w))) ≡ writes nodes
writes-update nodes w = fun_ext λ j. ground arith

-- The part `front` of the queue has been woken, in order and once each: each of its wakers is
-- called, its nodes are marked and have lost their wakers, and nothing else has changed.
pub record Woke (ws : List ℕ) (nodes : ℕ → WaiterNode) (front back : List ℕ)
    (nodes' : ℕ → WaiterNode) (wakes : List ℕ) : Type 0 where
  pub split : ws ≡ front ++ back
  pub called : map (λ j. (nodes j).waker) front ≡ map some wakes
  pub marked : (j : ℕ) → elem j front ≡ true → nodes' j ≡ woken_node (nodes j)
  pub apart : (j : ℕ) → elem j front ≡ false → nodes' j ≡ nodes j

pub Woke-nil : (ws : List ℕ) (nodes : ℕ → WaiterNode) → Woke ws nodes [] ws nodes []
Woke-nil ws nodes = record {
  split = refl;
  called = refl;
  marked = λ j e. absurd (ground arith);
  apart = λ j e. refl;
}

same_wakers :
    (nodes : ℕ → WaiterNode) (w : ℕ) (front : List ℕ)
    → elem w front ≡ false
    → map (λ j. (update nodes w (woken_node (nodes w)) j).waker) front
      ≡ map (λ j. (nodes j).waker) front
same_wakers nodes w [] h = refl
same_wakers nodes w (x ∷ front) h = ground (arith, same_wakers nodes w front)

Woke-cons :
    (w k : ℕ) (ws : List ℕ) (nodes : ℕ → WaiterNode) (front back : List ℕ) (nodes' : ℕ → WaiterNode)
    (wakes : List ℕ)
    → elem w ws ≡ false
    → (nodes w).waker ≡ some k
    → Woke ws (update nodes w (woken_node (nodes w))) front back nodes' wakes
    → Woke (w ∷ ws) nodes (w ∷ front) back nodes' (k ∷ wakes)
Woke-cons w k ws nodes front back nodes' wakes h found v =
    let fresh : elem w front ≡ false =
      not_elem_front w front back (subst (λ l. elem w l ≡ false) v.split h) in
    record {
      split = ap (◌∷◌ w) v.split;
      called = ap₂ ◌∷◌ found (sym (same_wakers nodes w front fresh) ∙ v.called);
      marked = λ j e. ground (arith, v.marked j, v.apart w fresh);
      apart = λ j e. ground (arith, v.apart j);
    }

-- What the lists and nodes must be like for a loop.
abbrev pub Waiting : (ℕ → WaiterNode) → List ℕ → Type 0
Waiting nodes ws = (j : ℕ) → elem j ws ≡ true → is_some (nodes j).waker ≡ true

Waiting-tail :
    (nodes : ℕ → WaiterNode) (w : ℕ) (ws : List ℕ)
    → elem w ws ≡ false
    → Waiting nodes (w ∷ ws)
    → Waiting (update nodes w (woken_node (nodes w))) ws
Waiting-tail nodes w ws h q j e = ground (arith, q j, ne_of_elem j w ws h e)

Waiting-head :
    (nodes : ℕ → WaiterNode) (w : ℕ) (ws : List ℕ)
    → Waiting nodes (w ∷ ws)
    → (k : ℕ) × ((nodes w).waker ≡ some k)
Waiting-head nodes w ws q = elim (Option-cases (nodes w).waker) [
  | inl lost ↦ let h = q w (ground arith) in absurd (ground arith)
  | inr found ↦ found
]

-- What a loop does: it wakes a front part of the queue for which `P` holds, with the rest, and
-- leaves `queued_writers` as `queued'`.
pub record Loops (ws : List ℕ) (nodes : ℕ → WaiterNode) (queued' : ℕ) (P : List ℕ → List ℕ → Type 0)
    (run : Option Loop) : Type 0 where
  pub front : List ℕ
  pub back : List ℕ
  pub nodes' : ℕ → WaiterNode
  pub wakes : List ℕ
  pub returns : run ≡ some (back, nodes', queued', wakes)
  pub woke : Woke ws nodes front back nodes' wakes
  pub holds : P front back

pub wake_all_lem :
    (ws : List ℕ) (nodes : ℕ → WaiterNode) (queued : ℕ)
    → Distinct ws
    → Waiting nodes ws
    → Loops ws nodes queued (λ front back. (front ≡ ws) × (back ≡ [])) (wake_all ws nodes queued)
unfolding wake_all
wake_all_lem [] nodes queued d q = record {
  front = [];
  back = [];
  nodes' = nodes;
  wakes = [];
  returns = refl;
  woke = Woke-nil [] nodes;
  holds = (refl, refl);
}
wake_all_lem (w ∷ ws) nodes queued d q =
    let (k, found) = Waiting-head nodes w ws q in
    let r =
      wake_all_lem ws (update nodes w (woken_node (nodes w))) queued d.1
        (Waiting-tail nodes w ws d.0 q) in
    record {
      front = w ∷ r.front;
      back = r.back;
      nodes' = r.nodes';
      wakes = k ∷ r.wakes;
      returns = ground (arith, found, r.returns);
      woke = Woke-cons w k ws nodes r.front r.back r.nodes' r.wakes d.0 found r.woke;
      holds = (ap (◌∷◌ w) r.holds.0, r.holds.1);
    }

pub wake_till_writer_lem :
    (ws : List ℕ) (nodes : ℕ → WaiterNode) (queued : ℕ)
    → Distinct ws
    → Waiting nodes ws
    → Loops ws nodes queued
        (λ front back. Readers (writes nodes) front × WriterFirst (writes nodes) back)
        (wake_till_writer ws nodes queued)
unfolding wake_till_writer
wake_till_writer_lem [] nodes queued d q = record {
  front = [];
  back = [];
  nodes' = nodes;
  wakes = [];
  returns = refl;
  woke = Woke-nil [] nodes;
  holds = (tt, tt);
}
wake_till_writer_lem (w ∷ ws) nodes queued d q = elim (Bool-cases (writes nodes w)) [
  | inl wr ↦ record {
    front = [];
    back = w ∷ ws;
    nodes' = nodes;
    wakes = [];
    returns = ground arith;
    woke = Woke-nil (w ∷ ws) nodes;
    holds = (tt, wr);
  }
  | inr rd ↦
      let (k, found) = Waiting-head nodes w ws q in
      let r =
        wake_till_writer_lem ws (update nodes w (woken_node (nodes w))) queued d.1
          (Waiting-tail nodes w ws d.0 q) in
      record {
        front = w ∷ r.front;
        back = r.back;
        nodes' = r.nodes';
        wakes = k ∷ r.wakes;
        returns = ground (arith, found, r.returns);
        woke = Woke-cons w k ws nodes r.front r.back r.nodes' r.wakes d.0 found r.woke;
        holds = (
          (rd, subst (λ wr. Readers wr r.front) (writes-update nodes w) r.holds.0),
          subst (λ wr. WriterFirst wr r.back) (writes-update nodes w) r.holds.1,
        );
      }
]

-- One writer less is queued if there was one.
abbrev pub after_writer : (ℕ → Bool) → List ℕ → ℕ → ℕ
after_writer wr ws queued = if count_writers wr ws == 0 then queued else queued - 1

pub wake_through_writer_lem :
    (ws : List ℕ) (nodes : ℕ → WaiterNode) (queued : ℕ)
    → Distinct ws
    → Waiting nodes ws
    → count_writers (writes nodes) ws ≤ queued
    → queued < 2 ^ 32
    → Loops ws nodes
        (after_writer (writes nodes) ws queued)
        (λ front back. ThroughWriter (writes nodes) front back)
        (wake_through_writer ws nodes queued)
unfolding wake_through_writer
wake_through_writer_lem [] nodes queued d q c b = record {
  front = [];
  back = [];
  nodes' = nodes;
  wakes = [];
  returns = refl;
  woke = Woke-nil [] nodes;
  holds = refl;
}
wake_through_writer_lem (w ∷ ws) nodes queued d q c b =
    let (k, found) = Waiting-head nodes w ws q in
    elim (Bool-cases (writes nodes w)) [
      | inl wr ↦ record {
        front = w ∷ [];
        back = ws;
        nodes' = update nodes w (woken_node (nodes w));
        wakes = k ∷ [];
        returns = ground (arith, found);
        woke = Woke-cons w k ws nodes [] ws _ [] d.0 found (Woke-nil ws _);
        holds = inl (wr, refl);
      }
      | inr rd ↦
          let r =
            wake_through_writer_lem ws (update nodes w (woken_node (nodes w))) queued d.1
              (Waiting-tail nodes w ws d.0 q) (rw (writes-update nodes w) (ground arith)) b in
          record {
            front = w ∷ r.front;
            back = r.back;
            nodes' = r.nodes';
            wakes = k ∷ r.wakes;
            returns = ground (
              arith,
              found,
              r.returns,
              ap (λ (wr : ℕ → Bool). count_writers wr ws) (writes-update nodes w),
            );
            woke = Woke-cons w k ws nodes r.front r.back r.nodes' r.wakes d.0 found r.woke;
            holds =
                inr (
                  rd,
                  subst (λ wr. ThroughWriter wr r.front r.back) (writes-update nodes w) r.holds,
                );
          }
    ]
