-- ===== src/SpscQueue/Push.antt =====
-- try_push of spsc_queue.rs against a queue of bounded length.
use Prim.Native.Nat.{bit_and}
use native.Mathlib.Nat.{mod-mod_of_dvd}
use glommio.Base.{
  ℕ, ◌+◌, ◌-◌, ◌%◌, ◌<◌, ◌≡◌, refl, sym, ◌∙◌, ap, subst, inl, inr, true, false, List, [], ◌∷◌, ◌++◌,
  none, some, arith, ◌==◌, if◌then◌else◌, Bool-cases, length, get_elem?, set, length-set,
  length-append, get_elem?-snoc,
}
use glommio.SpscQueue.{
  Slot, Buffer, usize, slot_at, push_slot, push_reserved, try_push, consumer_disconnected,
}
use glommio.SpscQueue.Ring.{Kept, CellOf, Holds, written}
use glommio.SpscQueue.Reserve.{reserve-Room, reserve-full}

module _ {ℓ} {A : Type ℓ} where
  filled : A → Slot A
  filled v = record { value = some v; has_value = true }

  after_push : Buffer A → A → Buffer A
  unfolding filled
  after_push b v = record b {
    buffer_storage = set b.buffer_storage (bit_and b.tail b.mask) (filled v);
    tail = usize (b.tail + 1);
  }

  tail_index :
      (b : Buffer A) (q : List A)
      → Holds b q
      → bit_and b.tail b.mask ≡ (b.head + length q) % b.capacity
  tail_index b q v =
      v.masked b.tail
      ∙ ap (λ t. t % b.capacity) v.tail_at
      ∙ mod-mod_of_dvd b.capacity (b.head + length q) v.divides

  after_push-read :
      (b : Buffer A) (q : List A) (x : A)
      → Holds b q
      → length q < b.capacity
      → (j : ℕ) → j < b.capacity
      → get_elem? (after_push b x).buffer_storage ((b.head + j) % b.capacity) ≡ (
          if j == length q
          then some (filled x)
          else get_elem? b.buffer_storage ((b.head + j) % b.capacity))
  unfolding after_push
  after_push-read b q x v l j h =
      ap (λ k. get_elem? (set b.buffer_storage k (filled x)) ((b.head + j) % b.capacity))
        (tail_index b q v)
      ∙ written b.buffer_storage b.capacity b.head (length q) j (filled x) v.sized l h

  after_push-cells :
      (b : Buffer A) (q : List A) (x : A)
      → Holds b q
      → length q < b.capacity
      → (i : ℕ) → i < b.capacity
      → (t : Slot A) × (get_elem? (after_push b x).buffer_storage ((b.head + i) % b.capacity)
          ≡ some t)
        × CellOf (get_elem? (q ++ (x ∷ [])) i) t
  unfolding filled
  after_push-cells b q x v l i h = elim (Bool-cases (i == length q)) [
    | inl new ↦
        let k : get_elem? (q ++ (x ∷ [])) i ≡ some x =
          get_elem?-snoc q i x ∙ ap (λ t. if t then some x else get_elem? q i) new in
        (
          filled x,
          after_push-read b q x v l i h
              ∙ ap
                  (λ t.
                    if t
                    then some (filled x)
                    else get_elem? b.buffer_storage ((b.head + i) % b.capacity))
                  new,
          subst (λ o. CellOf o (filled x)) (sym k) (refl, refl),
        )
    | inr old ↦
        let (t, e, c) = v.cells i h in
        let k : get_elem? (q ++ (x ∷ [])) i ≡ get_elem? q i =
          get_elem?-snoc q i x ∙ ap (λ t. if t then some x else get_elem? q i) old in
        (
          t,
          after_push-read b q x v l i h
              ∙ ap
                  (λ t.
                    if t
                    then some (filled x)
                    else get_elem? b.buffer_storage ((b.head + i) % b.capacity))
                  old
              ∙ e,
          subst (λ o. CellOf o t) (sym k) c,
        )
  ]

  after_push-Holds :
      (b : Buffer A) (q : List A) (x : A) (v : Holds b q)
      → length q < b.capacity
      → 0 < v.gap
      → Holds (after_push b x) (q ++ (x ∷ []))
  unfolding after_push
  after_push-Holds b q x v l g = record {
    masked = v.masked;
    divides = v.divides;
    some_room = v.some_room;
    half = v.half;
    sized = length-set b.buffer_storage _ _ ∙ v.sized;
    ahead_pos = v.ahead_pos;
    ahead_le = v.ahead_le;
    head_fits = v.head_fits;
    fits = omega (arith, length-append q (x ∷ []));
    tail_at = omega (arith, v.tail_at, length-append q (x ∷ []));
    gap = v.gap - 1;
    gap_le = omega (arith, v.gap_le, length-append q (x ∷ []));
    limit_at = omega (arith, v.limit_at);
    cells = after_push-cells b q x v l;
  }

  push_slot-Holds :
      (b : Buffer A) (q : List A) (x : A) (v : Holds b q)
      → length q < b.capacity
      → 0 < v.gap
      → (b' : Buffer A) × (push_slot b x (slot_at b b.tail) ≡ some (b', none))
        × Holds b' (q ++ (x ∷ []))
        × Kept b b'
  unfolding push_slot slot_at after_push filled
  push_slot-Holds b q x v l g =
      let (s, e, c) = v.cells (length q) l in
      let e' : get_elem? b.buffer_storage (bit_and b.tail b.mask) ≡ some s =
        ap (get_elem? b.buffer_storage) (tail_index b q v) ∙ e in
      (after_push b x, rw e', after_push-Holds b q x v l g, (refl, refl, tt))

  -- A push onto a buffer that holds a queue shorter than its capacity, with the consumer connected,
  -- takes the item and puts it at the end of the queue.
  pub try_push-room :
      (b : Buffer A) (q : List A) (x : A)
      → Holds b q
      → consumer_disconnected b ≡ false
      → length q < b.capacity
      → (b' : Buffer A) × (try_push b x ≡ some (b', none)) × Holds b' (q ++ (x ∷ [])) × Kept b b'
  unfolding try_push push_reserved
  try_push-room b q x v c l =
      let (b₁, e, (w, g, k)) = reserve-Room b q v l in
      let (b', f, y, m) = push_slot-Holds b₁ q x w (subst (λ n. length q < n) (sym k.0) l) g in
      (b', rw (c, e, f), y, (m.0 ∙ k.0, m.1 ∙ k.1, tt))

  -- A push onto a full ring gives the item back and changes nothing.
  pub try_push-full :
      (b : Buffer A) (q : List A) (x : A)
      → Holds b q
      → length q ≡ b.capacity
      → try_push b x ≡ some (b, some x)
  unfolding try_push push_reserved
  try_push-full b q x v l = elim (Bool-cases (consumer_disconnected b)) [
    | inl gone ↦ rw gone
    | inr there ↦ rw (there, reserve-full b q v l)
  ]
