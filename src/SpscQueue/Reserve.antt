-- ===== src/SpscQueue/Reserve.antt =====
-- The test of the limit in try_push of spsc_queue.rs.
use native.Mathlib.Decide.{dec_lt}
use glommio.Base.{
  ℕ, ◌+◌, ◌-◌, ◌≤◌, ◌<◌, ◌≡◌, refl, sym, ◌∙◌, ap, inl, inr, true, false, List, none, some, arith,
  ltb, ◌==◌, Bool-cases, length,
}
use glommio.SpscQueue.{Slot, Buffer, usize, slot_at, look_here, look_ahead, reserve}
use glommio.SpscQueue.Ring.{Kept, Holds, has_value_at, tail_place, slot_at-round}

module _ {ℓ} {A : Type ℓ} where
  -- What the slots at the tail hold: `k` places further, inside the round.
  slot_ahead :
      (b : Buffer A) (q : List A)
      → Holds b q
      → (k : ℕ) → length q + k < b.capacity
      → (s : Slot A) × (slot_at b (usize (b.tail + k)) ≡ some s) × (s.has_value ≡ false)
  slot_ahead b q v k h =
      let (s, e, f) = has_value_at b q v (length q + k) h in
      (s, ap (slot_at b) (tail_place b q v k) ∙ e, f ∙ ground arith)

  -- And in the next round.
  slot_round :
      (b : Buffer A) (q : List A)
      → Holds b q
      → (k i : ℕ) → length q + k ≡ i + b.capacity
      → i < b.capacity
      → (s : Slot A) × (slot_at b (usize (b.tail + k)) ≡ some s) × (s.has_value ≡ ltb i (length q))
  slot_round b q v k i e h =
      let (s, f, g) = has_value_at b q v i h in
      (
        s,
        ap (slot_at b) (tail_place b q v k ∙ ap (λ n. usize (b.head + n)) e)
            ∙ slot_at-round b q v i
            ∙ f,
        g,
      )

  tail_fits : (b : Buffer A) (q : List A) → Holds b q → usize (b.tail + 0) ≡ b.tail
  tail_fits b q v = omega (arith, v.tail_at)

  with_limit-Holds :
      (b : Buffer A) (q : List A)
      → Holds b q
      → (g : ℕ) → length q + g ≤ b.capacity
      → Holds (record b { limit = usize (b.tail + g) }) q
  with_limit-Holds b q v g h = record {
    masked = v.masked;
    divides = v.divides;
    some_room = v.some_room;
    half = v.half;
    sized = v.sized;
    ahead_pos = v.ahead_pos;
    ahead_le = v.ahead_le;
    head_fits = v.head_fits;
    fits = v.fits;
    tail_at = v.tail_at;
    gap = g;
    gap_le = h;
    limit_at = refl;
    cells = v.cells;
  }

  -- `reserve` finds room: the buffer holds the same queue, and the slot at the tail is below the limit.
  abbrev pub Room : Buffer A → List A → Buffer A → Type ℓ
  Room b q b' = (w : Holds b' q) × (0 < w.gap) × Kept b b'

  reserve-here :
      (b : Buffer A) (q : List A)
      → Holds b q
      → length q < b.capacity
      → (look_here b (slot_at b b.tail) ≡ some (some (record b { limit = usize (b.tail + 1) })))
  unfolding look_here
  reserve-here b q v h =
      let (s, e, f) = slot_ahead b q v 0 (omega arith) in
      let e' : slot_at b b.tail ≡ some s = rw (tail_fits b q v) at e in rw (e', f)

  -- A whole round beyond the tail is the slot at the tail.
  same_round :
      (b : Buffer A) (q : List A)
      → Holds b q
      → (k : ℕ) → k ≡ b.capacity
      → slot_at b (usize (b.tail + k)) ≡ slot_at b (usize (b.tail + 0))
  same_round b q v k e =
      ap (slot_at b) (tail_place b q v k ∙ ap (λ n. usize (b.head + n)) (omega arith))
      ∙ slot_at-round b q v (length q)
      ∙ ap (slot_at b) (sym (tail_place b q v 0 ∙ ap (λ n. usize (b.head + n)) (omega arith)))

  limit_test : (b : Buffer A) (q : List A) (v : Holds b q) → (b.tail == b.limit) ≡ (v.gap == 0)
  limit_test b q v = ground (arith, v.tail_at, v.limit_at, v.gap_le, v.half)

  look_ahead-Room :
      (b : Buffer A) (q : List A)
      → Holds b q
      → length q < b.capacity
      → (b' : Buffer A) × (look_ahead b (slot_at b (usize (b.tail + b.lookahead))) ≡ some (some b'))
        × Room b q b'
  unfolding look_ahead with_limit-Holds
  look_ahead-Room b q v h = elim (dec_lt (length q + b.lookahead) b.capacity) [
    | yes inside ↦
        let (s, e, f) = slot_ahead b q v b.lookahead inside in
        (
          _,
          rw (e, f),
          (with_limit-Holds b q v b.lookahead (omega arith), v.ahead_pos, (refl, refl, tt)),
        )
    | no outside ↦
        let (s, e, f) =
          slot_round b q v b.lookahead (length q + b.lookahead - b.capacity) (omega arith)
            (omega (arith, v.ahead_le, v.some_room)) in
        elim (Bool-cases s.has_value) [
          | inl taken ↦ (
            _,
            rw (e, taken, reserve-here b q v h),
            (with_limit-Holds b q v 1 (omega arith), omega arith, (refl, refl, tt)),
          )
          | inr unused ↦ (
            _,
            rw (e, unused),
            (
              with_limit-Holds b q v b.lookahead (ground (arith, v.ahead_le, v.some_room)),
              v.ahead_pos,
              (refl, refl, tt),
            ),
          )
        ]
  ]

  -- When the queue is shorter than the ring, the test of the limit finds room for one more.
  pub reserve-Room :
      (b : Buffer A) (q : List A)
      → Holds b q
      → length q < b.capacity
      → (b' : Buffer A) × (reserve b ≡ some (some b')) × Room b q b'
  unfolding reserve
  reserve-Room b q v h = elim (Bool-cases (b.tail == b.limit)) [
    | inl none_left ↦ let (b', e, r) = look_ahead-Room b q v h in (b', rw (none_left, e), r)
    | inr some_left ↦ (b, rw some_left, (v, ground (arith, limit_test b q v), (refl, refl, tt)))
  ]

  -- When the ring is full it finds none.
  pub reserve-full :
      (b : Buffer A) (q : List A) → Holds b q → length q ≡ b.capacity → reserve b ≡ some none
  unfolding reserve look_ahead look_here
  reserve-full b q v h =
      let none_left : (b.tail == b.limit) ≡ true = ground (arith, limit_test b q v, v.gap_le) in
      let (s, e, f) = slot_round b q v 0 0 (omega arith) v.some_room in
      let e' : slot_at b b.tail ≡ some s = rw (tail_fits b q v) at e in
      let taken : s.has_value ≡ true = f ∙ ground (arith, v.some_room) in
      elim (dec_lt b.lookahead b.capacity) [
        | yes inside ↦
            let (t, g, k) = slot_round b q v b.lookahead b.lookahead (omega arith) inside in
            let also : t.has_value ≡ true = k ∙ ground arith in rw (none_left, g, also, e', taken)
        | no outside ↦ rw (
          none_left,
          same_round b q v b.lookahead (omega (arith, v.ahead_le, v.some_room)) ∙ e,
          taken,
          e',
          taken,
        )
      ]
