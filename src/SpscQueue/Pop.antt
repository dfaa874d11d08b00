-- ===== src/SpscQueue/Pop.antt =====
-- try_pop of spsc_queue.rs against a queue.
use Prim.Native.Nat.{bit_and}
use native.Mathlib.Nat.{mod-lt, mod-eq_of_lt, add-mod_right}
use native.Mathlib.Decide.{dec_lt}
use glommio.Base.{
  ℕ, zero, suc, ◌+◌, ◌-◌, ◌%◌, ◌^◌, ◌<◌, ◌≡◌, refl, sym, ◌∙◌, ap, subst, false, List, [], ◌∷◌, none,
  some, arith, ltb, ◌==◌, if◌then◌else◌, length, get_elem?, set, length-set, wrap-mod,
}
use glommio.SpscQueue.{
  Slot, Buffer, usize, slot_at, drop_buffer, drop_rest, size, free_space, try_pop,
}
use glommio.SpscQueue.Ring.{Kept, CellOf, Holds, slot_at-head, has_value_at, get_elem?_out, written}

module _ {ℓ} {A : Type ℓ} where
  head_place : (b : Buffer A) (q : List A) → Holds b q → usize (b.head + 0) ≡ b.head
  head_place b q v = ap usize (omega arith) ∙ mod-eq_of_lt v.head_fits

  pub try_pop-empty : (b : Buffer A) → Holds b [] → try_pop b ≡ some (b, none)
  unfolding try_pop
  try_pop-empty b v =
      let (s, e, h) = has_value_at b [] v 0 v.some_room in
      let e' : slot_at b b.head ≡ some s = rw (head_place b [] v) at e in rw (e', h)

  after_pop : Buffer A → Slot A → Buffer A
  after_pop b s = record b {
    buffer_storage = set b.buffer_storage (bit_and b.head b.mask) (record s { has_value = false });
    head = usize (b.head + 1);
  }

  after_pop-read :
      (b : Buffer A) (x : A) (r : List A) (s : Slot A)
      → Holds b (x ∷ r)
      → (j : ℕ) → j < b.capacity
      → get_elem? (after_pop b s).buffer_storage ((b.head + j) % b.capacity) ≡ (
          if j == 0
          then some (record s { has_value = false })
          else get_elem? b.buffer_storage ((b.head + j) % b.capacity))
  unfolding after_pop
  after_pop-read b x r s v j h =
      ap
        (λ k.
          get_elem? (set b.buffer_storage k (record s { has_value = false }))
            ((b.head + j) % b.capacity))
        (v.masked b.head ∙ ap (λ n. n % b.capacity) (omega arith))
      ∙ written b.buffer_storage b.capacity b.head 0 j _ v.sized v.some_room h

  -- The place for `i` after the head has moved.
  next_place :
      (b : Buffer A) (q : List A)
      → Holds b q
      → (i : ℕ) → (usize (b.head + 1) + i) % b.capacity ≡ (b.head + suc i) % b.capacity
  next_place b q v i =
      wrap-mod b.capacity (2 ^ 64) (b.head + 1) i v.divides ∙ ap (λ n. n % b.capacity) (omega arith)

  last_place :
      (b : Buffer A) (q : List A)
      → Holds b q
      → (i : ℕ) → suc i ≡ b.capacity
      → (b.head + suc i) % b.capacity ≡ (b.head + 0) % b.capacity
  last_place b q v i e =
      ap (λ n. (b.head + n) % b.capacity) e
      ∙ add-mod_right b.head b.capacity
      ∙ ap (λ n. n % b.capacity) (omega arith)

  after_pop-cells :
      (b : Buffer A) (x : A) (r : List A) (s : Slot A) (v : Holds b (x ∷ r)) (i : ℕ)
      → i < b.capacity
      → (t : Slot A) × (get_elem?
            (after_pop b s).buffer_storage
            ((usize (b.head + 1) + i) % b.capacity)
          ≡ some t)
        × CellOf (get_elem? r i) t
  unfolding after_pop
  after_pop-cells b x r s v i h = elim (dec_lt (suc i) b.capacity) [
    | yes inside ↦
        let (t, e, c) = v.cells (suc i) inside in
        let other : (suc i == 0) ≡ false = ground arith in
        (
          t,
          ap (get_elem? (after_pop b s).buffer_storage) (next_place b (x ∷ r) v i)
              ∙ after_pop-read b x r s v (suc i) inside
              ∙ ap
                  (λ o.
                    if o
                    then some (record s { has_value = false })
                    else get_elem? b.buffer_storage ((b.head + suc i) % b.capacity))
                  other
              ∙ e,
          c,
        )
    | no outside ↦ (
      record s { has_value = false },
      ap (get_elem? (after_pop b s).buffer_storage)
            (next_place b (x ∷ r) v i ∙ last_place b (x ∷ r) v i (omega arith))
          ∙ after_pop-read b x r s v 0 v.some_room,
      subst (λ o. CellOf o (record s { has_value = false }))
          (sym (get_elem?_out r i (omega (arith, v.fits)))) (refl, tt),
    )
  ]

  after_pop-Holds :
      (b : Buffer A) (x : A) (r : List A) (s : Slot A) → Holds b (x ∷ r) → Holds (after_pop b s) r
  unfolding after_pop
  after_pop-Holds b x r s v = record {
    masked = v.masked;
    divides = v.divides;
    some_room = v.some_room;
    half = v.half;
    sized = length-set b.buffer_storage _ _ ∙ v.sized;
    ahead_pos = v.ahead_pos;
    ahead_le = v.ahead_le;
    head_fits = mod-lt (b.head + 1) (omega arith);
    fits = omega (arith, v.fits);
    tail_at = v.tail_at ∙ omega arith;
    gap = v.gap;
    gap_le = omega (arith, v.gap_le);
    limit_at = v.limit_at;
    cells = after_pop-cells b x r s v;
  }

  pub try_pop-some :
      (b : Buffer A) (x : A) (r : List A)
      → Holds b (x ∷ r)
      → (b' : Buffer A) × (try_pop b ≡ some (b', some x)) × Holds b' r × Kept b b'
  unfolding try_pop after_pop slot_at
  try_pop-some b x r v =
      let (s, e, c) = v.cells 0 v.some_room in
      let e' : slot_at b b.head ≡ some s =
        sym (ap (slot_at b) (head_place b (x ∷ r) v)) ∙ slot_at-head b (x ∷ r) v 0 ∙ e in
      (after_pop b s, rw (e', c.0, c.1), after_pop-Holds b x r s v, (refl, refl, tt))

  -- Dropping a buffer that holds a queue drops its items in order, each once, and stops: one call
  -- of `try_pop` for an item and one that finds nothing are enough.
  pub drop_buffer_lem :
      (fuel : ℕ) (b : Buffer A) (q : List A)
      → Holds b q
      → length q < fuel
      → drop_buffer fuel b ≡ some q
  unfolding drop_buffer drop_rest
  drop_buffer_lem zero b q v h = absurd (omega arith)
  drop_buffer_lem (suc fuel) b [] v h = rw (try_pop-empty b v)
  drop_buffer_lem (suc fuel) b (x ∷ r) v h =
      let (b', e, w, k) = try_pop-some b x r v in rw (e, drop_buffer_lem fuel b' r w (omega arith))

  -- `size` and `free_space` are right as long as the counters have not wrapped. Once `tail` has
  -- wrapped and `head` has not, `size` is 0 whatever the queue holds.
  pub size_lem :
      (b : Buffer A) (q : List A)
      → Holds b q
      → (size b ≡ (if ltb (b.head + length q) (2 ^ 64) then length q else 0))
        × (free_space b
            ≡ (if ltb (b.head + length q) (2 ^ 64) then b.capacity - length q else b.capacity))
  unfolding size free_space
  size_lem b q v = (
    ground (arith, v.tail_at, v.fits, v.half, v.head_fits),
    ground (arith, v.tail_at, v.fits, v.half, v.head_fits),
  )
