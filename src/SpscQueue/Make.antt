-- ===== src/SpscQueue/Make.antt =====
-- make of spsc_queue.rs: the capacity is the next power of two, and the new buffer is empty.
use native.Mathlib.Nat.{
  mod-lt, dvd_of_mod-eq-zero, pow-suc, mul-lt-mul_of_pos_right, le-mul_of_pos_right,
}
use Prim.Native.Nat.{bit_and}
use glommio.Base.{
  ℕ, zero, suc, ◌+◌, ◌*◌, ◌%◌, ◌^◌, ◌≤◌, ◌<◌, ◌≡◌, refl, sym, ap, inl, inr, ◌⊎◌, Bool, true, false,
  ◌&&◌, [], none, some, arith, leb, ◌==◌, ==_iff, option_map, Bool-cases, length, get_elem?,
  bit_and_mask, pow_pos, ltb, if◌then◌else◌, ◌-◌, ◌∙◌,
}
use glommio.SpscQueue.{
  Buffer, allocate_buffer, fresh_slots, power_from, next_power_of_two, make_with, inner_make,
}
use glommio.SpscQueue.Ring.{Holds}

power_left : (k n : ℕ) → k < 64 → n ≤ 2 ^ 63 → 2 ^ k < n → k < 63
power_left k n l h f = elim (Bool-cases (k == 63)) [
  | inl last ↦ absurd (ground (arith, ap (λ i. 2 ^ i) ((==_iff k 63).0 last)))
  | inr not_last ↦ ground arith
]

-- The next power of two is found from any power on that is not too far.
power_from_lem :
    (left k n : ℕ)
    → left + k ≡ 64
    → n ≤ 2 ^ 63
    → k < 64
    → (j : ℕ) × (power_from left (2 ^ k) n ≡ 2 ^ j)
      × (j < 64)
      × (n ≤ 2 ^ j)
      × ((j ≡ k) ⊎ (2 ^ j < 2 * n))
unfolding power_from
power_from_lem zero k n e h l = absurd (omega arith)
power_from_lem (suc left) k n e h l = elim (Bool-cases (leb n (2 ^ k))) [
  | inl here ↦ (k, rw here, l, ground arith, inl refl)
  | inr not_yet ↦
      let more : k < 63 = power_left k n l h (ground arith) in
      let (j, f, j_lt, n_le, least) = power_from_lem left (suc k) n (omega arith) h (omega arith) in
      (
        j,
        rw (not_yet, sym (pow-suc 2 k), f),
        j_lt,
        n_le,
        inr (elim least [
          | inl same ↦ ground (arith, pow-suc 2 k, ap (λ i. 2 ^ i) same)
          | inr less ↦ less
        ]),
      )
]

-- Facts about the 64 powers, by evaluation.
all_below : ℕ → (ℕ → Bool) → Bool
all_below zero p = true
all_below (suc n) p = p n && all_below n p

all_below_lem : (n : ℕ) (p : ℕ → Bool) (x : ℕ) → all_below n p ≡ true → x < n → p x ≡ true
unfolding all_below
all_below_lem zero p x h lt = absurd (omega arith)
all_below_lem (suc n) p x h lt = ground (arith, all_below_lem n p x)

powers_divide : (j : ℕ) → j < 64 → 2 ^ 64 % 2 ^ j ≡ 0
unfolding all_below
powers_divide j h = (==_iff _ _).0 (all_below_lem 64 (λ i. 2 ^ 64 % 2 ^ i == 0) j refl h)

powers_half : (j : ℕ) → j < 64 → 2 ^ j ≤ 2 ^ 63
unfolding all_below
powers_half j h = ground (arith, all_below_lem 64 (λ i. leb (2 ^ i) (2 ^ 63)) j refl h)

length-fresh_slots {ℓ} : (A : Type ℓ) (n : ℕ) → length (fresh_slots {A = A} n) ≡ n
unfolding fresh_slots
length-fresh_slots A zero = refl
length-fresh_slots A (suc n) = ap suc (length-fresh_slots A n)

get_elem?-fresh_slots {ℓ} :
    {A : Type ℓ} (n i : ℕ)
    → i < n
    → get_elem? (fresh_slots {A = A} n) i ≡ some (record { value = none; has_value = false })
unfolding fresh_slots
get_elem?-fresh_slots zero i h = absurd (omega arith)
get_elem?-fresh_slots (suc n) zero h = refl
get_elem?-fresh_slots (suc n) (suc i) h = get_elem?-fresh_slots n i (omega arith)

-- The mask has all bits below the power.
mask_of_power : (j : ℕ) → j < 64 → (2 ^ j + (2 ^ 64 - 1)) % 2 ^ 64 ≡ 2 ^ j - 1
mask_of_power j l = omega (arith, powers_half j l, pow_pos j)

pub make_with-Holds {ℓ} :
    (A : Type ℓ) (initial_value j : ℕ)
    → initial_value < 2 ^ 64
    → j < 64
    → Holds (make_with {A = A} initial_value (2 ^ j) (fresh_slots (2 ^ j))) []
unfolding make_with
make_with-Holds A initial_value j h l = record {
  masked = λ x. ap (bit_and x) (mask_of_power j l) ∙ bit_and_mask j x;
  divides = dvd_of_mod-eq-zero (2 ^ j) (powers_divide j l);
  some_room = pow_pos j;
  half = powers_half j l;
  sized = length-fresh_slots _ (2 ^ j);
  ahead_pos = ground arith;
  ahead_le = ground (arith, pow_pos j);
  head_fits = h;
  fits = omega arith;
  tail_at = omega arith;
  gap = 0;
  gap_le = omega arith;
  limit_at = omega arith;
  cells = λ i k. (
    _,
    get_elem?-fresh_slots (2 ^ j) ((initial_value + i) % 2 ^ j) (mod-lt _ (pow_pos j)),
    (refl, tt),
  );
}

-- The bytes of the least power of two that is not below the capacity.
bytes_fit :
    (slot_size capacity p : ℕ)
    → 0 < slot_size
    → slot_size < 2 ^ 63
    → 2 * capacity * slot_size ≤ 2 ^ 63
    → (p ≡ 1) ⊎ (p < 2 * capacity)
    → p * slot_size < 2 ^ 63
bytes_fit slot_size capacity p pos small h (inl e) = rw e (omega arith)
bytes_fit slot_size capacity p pos small h (inr l) =
    omega (arith, mul-lt-mul_of_pos_right {k = slot_size} l pos)

-- Slots are of at least one byte. When twice the capacity in slots is at most 2 ^ 63 bytes, the
-- constructor does not panic, whatever the initial value of the counters; the new buffer holds the
-- empty queue, and its capacity is the least power of two that is not below the capacity asked for.
pub inner_make_lem {ℓ} :
    {A : Type ℓ} (slot_size capacity initial_value : ℕ)
    → 0 < slot_size
    → slot_size < 2 ^ 63
    → 2 * capacity * slot_size ≤ 2 ^ 63
    → initial_value < 2 ^ 64
    → (b : Buffer A) × (inner_make slot_size capacity initial_value ≡ some b)
      × Holds b []
      × (capacity ≤ b.capacity)
      × ((b.capacity ≡ 1) ⊎ (b.capacity < 2 * capacity))
      × (b.capacity * slot_size < 2 ^ 63)
unfolding inner_make next_power_of_two allocate_buffer
inner_make_lem {A = A} slot_size capacity initial_value pos small h k =
    let fits : capacity ≤ 2 ^ 63 = omega (arith, le-mul_of_pos_right (2 * capacity) pos) in
    let (j, e, l, c, least) = power_from_lem 64 0 capacity refl fits (omega arith) in
    let least' : (2 ^ j ≡ 1) ⊎ (2 ^ j < 2 * capacity) = elim least [
      | inl same ↦ inl (ap (λ i. 2 ^ i) same)
      | inr less ↦ inr less
    ] in
    let bytes = bytes_fit slot_size capacity (2 ^ j) pos small h least' in
    let room : ltb (2 ^ j * slot_size) (2 ^ 63) ≡ true = ground (arith, bytes) in
    (
      make_with initial_value (2 ^ j) (fresh_slots (2 ^ j)),
      ap
            (λ (n : ℕ).
              option_map (make_with {A = A} initial_value n)
                (if ltb (n * slot_size) (2 ^ 63) then some (fresh_slots n) else none))
            e
          ∙ ap
              (λ (b : Bool).
                option_map (make_with {A = A} initial_value (2 ^ j))
                  (if b then some (fresh_slots (2 ^ j)) else none))
              room,
      make_with-Holds _ initial_value j k l,
      c,
      least',
      bytes,
    )
