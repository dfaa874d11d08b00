-- ===== src/SpscQueue/Tests.antt =====
-- Runs of the ring of spsc_queue.rs, and instances of its theorems.
use native.Mathlib.Nat.{dvd_of_mod-eq-zero}
use glommio.Base.{
  ℕ, zero, suc, ◌+◌, ◌-◌, ◌%◌, ◌^◌, ◌≤◌, ◌<◌, ◌≡◌, refl, true, List, [], ◌∷◌, Option, none, some,
  ◌⊎◌, ◌*◌, get_elem?, bit_and_mask, option_map, arith,
}
use glommio.SpscQueue.{
  Buffer, Slot, next_power_of_two, consumer_disconnected, inner_make, allocate_buffer, try_push,
  try_pop, size, free_space, drop_buffer,
}
use glommio.SpscQueue.Ring.{Holds, CellOf}
use glommio.SpscQueue.Pop.{drop_buffer_lem, size_lem}
use glommio.SpscQueue.Runs.{push, pop, run, fifo, run_lem}
use glommio.SpscQueue.Make.{inner_make_lem}

abbrev push_all : Buffer ℕ → List ℕ → Option (Buffer ℕ)
push_all b [] = some b
push_all b (x ∷ xs) = elim (try_push b x) [ none ↦ none | some (b', back) ↦ push_all b' xs ]

abbrev and_then {ℓ κ} : {A : Type ℓ} {B : Type κ} → Option A → (A → Option B) → Option B
and_then none f = none
and_then (some a) f = f a

-- Two places: the third push comes back, and the items come out in order.
three_into_two :
    and_then (and_then (inner_make 16 2 0) (λ b. push_all b (7 ∷ 8 ∷ 9 ∷ []))) (drop_buffer 3)
    ≡ some (7 ∷ 8 ∷ [])
unfolding inner_make try_push drop_buffer next_power_of_two try_pop
three_into_two = refl

-- The counters wrap between two pushes, and `size` then reports an empty queue.
wrapped_size :
    option_map size (and_then (inner_make 16 2 (2 ^ 64 - 1)) (λ b. push_all b (7 ∷ 8 ∷ [])))
    ≡ some 0
unfolding inner_make try_push size next_power_of_two
wrapped_size = refl

-- Slots of 16 bytes do not fit into the memory 2 ^ 60 times.
too_large : inner_make {A = ℕ} 16 (2 ^ 59 + 1) 0 ≡ none
unfolding inner_make next_power_of_two allocate_buffer
too_large = refl

inner_make_lem_example :
    (b : Buffer ℕ) × (inner_make 16 3 0 ≡ some b)
    × Holds b []
    × (3 ≤ b.capacity)
    × ((b.capacity ≡ 1) ⊎ (b.capacity < 2 * 3))
    × (b.capacity * 16 < 2 ^ 63)
inner_make_lem_example =
    inner_make_lem 16 3 0 (omega arith) (omega arith) (omega arith) (omega arith)

-- A full ring of two places whose `tail` has wrapped.
abbrev full_pair : Buffer ℕ
full_pair = record {
  buffer_storage =
      record { value = some 8; has_value = true }
      ∷ record { value = some 7; has_value = true }
      ∷ [];
  capacity = 2;
  mask = 1;
  lookahead = 1;
  tail = 1;
  limit = 1;
  consumer_id = 3;
  head = 2 ^ 64 - 1;
  producer_id = 4;
}

full_pair-cells :
    (i : ℕ)
    → i < 2
    → (s : Slot ℕ) × (get_elem? full_pair.buffer_storage ((2 ^ 64 - 1 + i) % 2) ≡ some s)
      × CellOf (get_elem? (7 ∷ 8 ∷ []) i) s
full_pair-cells zero h = (_, refl, (refl, refl))
full_pair-cells (suc zero) h = (_, refl, (refl, refl))
full_pair-cells (suc (suc i)) h = absurd (omega arith)

full_pair-Holds : Holds full_pair (7 ∷ 8 ∷ [])
full_pair-Holds = record {
  masked = bit_and_mask 1;
  divides = dvd_of_mod-eq-zero 2 refl;
  some_room = omega arith;
  half = omega arith;
  sized = refl;
  ahead_pos = omega arith;
  ahead_le = omega arith;
  head_fits = omega arith;
  fits = omega arith;
  tail_at = refl;
  gap = 0;
  gap_le = omega arith;
  limit_at = refl;
  cells = full_pair-cells;
}

run_lem_example :
    run full_pair (push 9 ∷ pop ∷ push 9 ∷ pop ∷ pop ∷ pop ∷ [])
    ≡ some (fifo 2 (7 ∷ 8 ∷ []) (push 9 ∷ pop ∷ push 9 ∷ pop ∷ pop ∷ pop ∷ []))
unfolding consumer_disconnected
run_lem_example =
    run_lem full_pair (7 ∷ 8 ∷ []) (push 9 ∷ pop ∷ push 9 ∷ pop ∷ pop ∷ pop ∷ []) full_pair-Holds
      refl

drop_buffer_lem_example : drop_buffer 3 full_pair ≡ some (7 ∷ 8 ∷ [])
drop_buffer_lem_example = drop_buffer_lem 3 full_pair (7 ∷ 8 ∷ []) full_pair-Holds (omega arith)

size_lem_example : (size full_pair ≡ 0) × (free_space full_pair ≡ 2)
size_lem_example = size_lem full_pair (7 ∷ 8 ∷ []) full_pair-Holds
