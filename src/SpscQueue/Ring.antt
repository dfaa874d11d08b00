-- ===== src/SpscQueue/Ring.antt =====
-- The buffer of spsc_queue.rs as a window on its storage that holds a queue.
use Prim.Native.Nat.{bit_and, ◌∣◌}
use native.Mathlib.Nat.{mod-lt, mod-mod_of_dvd, mod-add-mod, add-mod_right}
use glommio.Base.{
  ℕ, zero, suc, ◌+◌, ◌%◌, ◌^◌, ◌≤◌, ◌<◌, ◌≡◌, refl, sym, ◌∙◌, ap, subst, inl, inr, true, false,
  List, [], ◌∷◌, Option, none, some, arith, ltb, ◌==◌, if◌then◌else◌, Bool-cases, length, get_elem?,
  set, get_elem?-set, add-mod_inj,
}
use glommio.SpscQueue.{Slot, Buffer, usize, slot_at}

module _ {ℓ} {A : Type ℓ} where
  -- What a slot holds of the queue: nothing, or the item.
  abbrev pub CellOf : Option A → Slot A → Type ℓ
  CellOf none s = (s.has_value ≡ false) × Unit {ℓ}
  CellOf (some v) s = (s.has_value ≡ true) × (s.value ≡ some v)

  -- The buffer holds the queue `q`, oldest first: its items lie from `head` on, one to a slot, the
  -- other slots are free, and so are those from `tail` up to `limit`.
  pub record Holds (b : Buffer A) (q : List A) : Type ℓ where
    pub masked : (x : ℕ) → bit_and x b.mask ≡ x % b.capacity
    pub divides : b.capacity ∣ 2 ^ 64
    pub some_room : 0 < b.capacity
    pub half : b.capacity ≤ 2 ^ 63
    pub sized : length b.buffer_storage ≡ b.capacity
    pub ahead_pos : 0 < b.lookahead
    pub ahead_le : b.lookahead + b.lookahead ≤ suc b.capacity
    pub head_fits : b.head < 2 ^ 64
    pub fits : length q ≤ b.capacity
    pub tail_at : b.tail ≡ usize (b.head + length q)
    pub gap : ℕ
    pub gap_le : length q + gap ≤ b.capacity
    pub limit_at : b.limit ≡ usize (b.tail + gap)
    pub cells :
        (i : ℕ)
        → i < b.capacity
        → (s : Slot A) × (get_elem? b.buffer_storage ((b.head + i) % b.capacity) ≡ some s)
          × CellOf (get_elem? q i) s

  -- What a call of one end leaves alone.
  abbrev pub Kept : Buffer A → Buffer A → Type ℓ
  Kept b b' = (b'.capacity ≡ b.capacity) × (b'.consumer_id ≡ b.consumer_id) × Unit {ℓ}

  -- The slot that the code finds for the counter `head + i`.
  pub slot_at-head :
      (b : Buffer A) (q : List A)
      → Holds b q
      → (i : ℕ)
      → slot_at b (usize (b.head + i)) ≡ get_elem? b.buffer_storage ((b.head + i) % b.capacity)
  unfolding slot_at
  slot_at-head b q v i =
      ap (get_elem? b.buffer_storage)
        (v.masked (usize (b.head + i)) ∙ mod-mod_of_dvd b.capacity (b.head + i) v.divides)

  pub get_elem?_in : (q : List A) (i : ℕ) → i < length q → (v : A) × (get_elem? q i ≡ some v)
  get_elem?_in [] i h = absurd (omega arith)
  get_elem?_in (x ∷ q) zero h = (x, refl)
  get_elem?_in (x ∷ q) (suc i) h = get_elem?_in q i (omega arith)

  pub get_elem?_out : (q : List A) (i : ℕ) → length q ≤ i → get_elem? q i ≡ none
  get_elem?_out [] i h = refl
  get_elem?_out (x ∷ q) zero h = absurd (omega arith)
  get_elem?_out (x ∷ q) (suc i) h = get_elem?_out q i (omega arith)

  -- The slot for the position `i` has a value exactly when the queue is longer than `i`.
  pub has_value_at :
      (b : Buffer A) (q : List A)
      → Holds b q
      → (i : ℕ) → i < b.capacity
      → (s : Slot A) × (slot_at b (usize (b.head + i)) ≡ some s) × (s.has_value ≡ ltb i (length q))
  has_value_at b q v i h = elim (Bool-cases (ltb i (length q))) [
    | inl inside ↦
        let (s, e, c) = v.cells i h in
        let (x, f) = get_elem?_in q i (ground arith) in
        let c' : CellOf (some x) s = rw f at c in (s, slot_at-head b q v i ∙ e, c'.0 ∙ sym inside)
    | inr outside ↦
        let (s, e, c) = v.cells i h in
        let f = get_elem?_out q i (ground arith) in
        let c' : CellOf none s = rw f at c in (s, slot_at-head b q v i ∙ e, c'.0 ∙ sym outside)
  ]

  -- The counter `tail + k` in terms of the head.
  pub tail_place :
      (b : Buffer A) (q : List A)
      → Holds b q
      → (k : ℕ) → usize (b.tail + k) ≡ usize (b.head + (length q + k))
  tail_place b q v k =
      ap (λ t. usize (t + k)) v.tail_at
      ∙ mod-add-mod (b.head + length q) (2 ^ 64) k
      ∙ ap usize (omega arith)

  -- A counter that is a whole round further finds the same slot.
  pub slot_at-round :
      (b : Buffer A) (q : List A)
      → Holds b q
      → (i : ℕ) → slot_at b (usize (b.head + (i + b.capacity))) ≡ slot_at b (usize (b.head + i))
  slot_at-round b q v i =
      slot_at-head b q v (i + b.capacity)
      ∙ ap (λ n. get_elem? b.buffer_storage (n % b.capacity)) (omega arith)
      ∙ ap (get_elem? b.buffer_storage) (add-mod_right (b.head + i) b.capacity)
      ∙ sym (slot_at-head b q v i)

-- Two offsets below `c` name the same place exactly when they are equal.
same_place : (c h j i : ℕ) → j < c → i < c → ((h + i) % c == (h + j) % c) ≡ (i == j)
same_place c h j i hj hi = ground (arith, add-mod_inj h i j c hi hj)

-- A write at one place of the ring is read back there and nowhere else.
pub written {ℓ} :
    {A : Type ℓ} (l : List A) (c h j i : ℕ) (s : A)
    → length l ≡ c
    → j < c
    → i < c
    → get_elem? (set l ((h + j) % c) s) ((h + i) % c)
      ≡ (if i == j then some s else get_elem? l ((h + i) % c))
written l c h j i s e hj hi =
    get_elem?-set l ((h + j) % c) ((h + i) % c) s
      (subst (λ n. (h + j) % c < n) (sym e) (mod-lt (h + j) (omega arith)))
    ∙ ap (λ t. if t then some s else get_elem? l ((h + i) % c)) (same_place c h j i hj hi)
