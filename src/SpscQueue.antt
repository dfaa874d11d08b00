-- ===== src/SpscQueue.antt =====
-- glommio/src/channels/spsc_queue.rs: the ring between one producer and one consumer, one call at a
-- time. The usize counters run modulo 2 ^ 64. `none` is a panic of the constructor, an access out
-- of range or a read of a slot that was never written. `Producer` and `Consumer` only pass their calls on to the buffer.
pub mod Ring
pub mod Pop
pub mod Reserve
pub mod Push
pub mod Runs
pub mod Make
mod Tests
use Prim.Native.Nat.{bit_and}
use glommio.Base.{
  ℕ, zero, suc, ◌+◌, ◌-◌, ◌*◌, ◌/◌, ◌%◌, ◌^◌, min, max, Bool, true, false, List, [], ◌∷◌, Option,
  none, some, leb, ltb, ◌==◌, if◌then◌else◌, option_map, get_elem?, set,
}

-- `struct Slot`; a value that was moved out stays in memory.
pub record Slot {ℓ} (A : Type ℓ) : Type ℓ where
  pub value : Option A
  pub has_value : Bool

-- `struct Buffer`, with the two cache lines.
pub record Buffer {ℓ} (A : Type ℓ) : Type ℓ where
  pub buffer_storage : List (Slot A)
  pub capacity : ℕ
  pub mask : ℕ
  pub lookahead : ℕ
  pub tail : ℕ
  pub limit : ℕ
  pub consumer_id : ℕ
  pub head : ℕ
  pub producer_id : ℕ

abbrev pub usize : ℕ → ℕ
usize n = n % 2 ^ 64

abbrev pub usize_max : ℕ
usize_max = 2 ^ 64 - 1

-- `next_power_of_two`, which is 0 in a release build when the power does not fit: 64 powers from `p` on.
pub power_from : ℕ → ℕ → ℕ → ℕ
power_from zero p n = 0
power_from (suc left) p n = let rest = power_from left (p * 2) n in if leb n p then p else rest

pub next_power_of_two : ℕ → ℕ
unfolding power_from
next_power_of_two n = power_from 64 1 n

abbrev pub max_lookahead : ℕ
max_lookahead = 2 ^ 12

module _ {ℓ} {A : Type ℓ} where
  pub fresh_slots : ℕ → List (Slot A)
  fresh_slots zero = []
  fresh_slots (suc n) = record { value = none; has_value = false } ∷ fresh_slots n

  -- `allocate_buffer` for slots of `slot_size` bytes: a `Vec` of more than isize::MAX bytes panics.
  pub allocate_buffer : ℕ → ℕ → Option (List (Slot A))
  unfolding fresh_slots
  allocate_buffer slot_size capacity =
      if ltb (capacity * slot_size) (2 ^ 63) then some (fresh_slots capacity) else none

  -- The subtraction of the mask wraps in a release build.
  pub make_with : ℕ → ℕ → List (Slot A) → Buffer A
  make_with initial_value capacity buffer_storage = record {
    buffer_storage = buffer_storage;
    capacity = capacity;
    mask = usize (capacity + (2 ^ 64 - 1));
    lookahead = min (max (capacity / 4) 1) max_lookahead;
    tail = initial_value;
    limit = initial_value;
    consumer_id = 0;
    head = initial_value;
    producer_id = 0;
  }

  pub inner_make : ℕ → ℕ → ℕ → Option (Buffer A)
  unfolding make_with allocate_buffer
  inner_make slot_size capacity initial_value =
      let capacity = next_power_of_two capacity in
      option_map (make_with initial_value capacity) (allocate_buffer slot_size capacity)

  pub make : ℕ → ℕ → Option (Buffer A)
  unfolding inner_make
  make slot_size capacity = inner_make slot_size capacity 0

  -- `self.buffer_storage[idx & self.mask]`
  pub slot_at : Buffer A → ℕ → Option (Slot A)
  slot_at b idx = get_elem? b.buffer_storage (bit_and idx b.mask)

  pop_slot : Buffer A → Option (Slot A) → Option (Buffer A × Option A)
  pop_slot b none = none
  pop_slot b (some slot) =
      if slot.has_value
      then option_map
          (λ v. (
            record b {
              buffer_storage =
                  set b.buffer_storage (bit_and b.head b.mask) (record slot { has_value = false });
              head = usize (b.head + 1);
            },
            some v,
          ))
          slot.value
      else some (b, none)

  pub try_pop : Buffer A → Option (Buffer A × Option A)
  unfolding pop_slot slot_at
  try_pop b = pop_slot b (slot_at b b.head)

  pub consumer_disconnected : Buffer A → Bool
  consumer_disconnected b = b.consumer_id == usize_max

  pub producer_disconnected : Buffer A → Bool
  producer_disconnected b = b.producer_id == usize_max

  -- The slot at `tail` is free: the limit moves by one. Otherwise the buffer is full.
  pub look_here : Buffer A → Option (Slot A) → Option (Option (Buffer A))
  look_here b none = none
  look_here b (some slot) =
      if slot.has_value then some none else some (some (record b { limit = usize (b.tail + 1) }))

  -- The slot at `tail + lookahead` is free: the limit moves there.
  pub look_ahead : Buffer A → Option (Slot A) → Option (Option (Buffer A))
  unfolding look_here slot_at
  look_ahead b none = none
  look_ahead b (some slot) =
      if slot.has_value
      then look_here b (slot_at b b.tail)
      else some (some (record b { limit = usize (b.tail + b.lookahead) }))

  -- The test of the limit in `try_push`: the buffer with room at `tail`, or nothing if it is full.
  pub reserve : Buffer A → Option (Option (Buffer A))
  unfolding look_ahead slot_at
  reserve b =
      if b.tail == b.limit
      then look_ahead b (slot_at b (usize (b.tail + b.lookahead)))
      else some (some b)

  pub push_slot : Buffer A → A → Option (Slot A) → Option (Buffer A × Option A)
  push_slot b v none = none
  push_slot b v (some slot) = some (
    record b {
      buffer_storage =
          set b.buffer_storage (bit_and b.tail b.mask)
            (record { value = some v; has_value = true });
      tail = usize (b.tail + 1);
    },
    none,
  )

  pub push_reserved : Buffer A → A → Option (Option (Buffer A)) → Option (Buffer A × Option A)
  unfolding push_slot slot_at
  push_reserved b v none = none
  push_reserved b v (some none) = some (b, some v)
  push_reserved b v (some (some b')) = push_slot b' v (slot_at b' b'.tail)

  -- The second part of the result is what comes back: the item if it was not pushed.
  pub try_push : Buffer A → A → Option (Buffer A × Option A)
  unfolding push_reserved reserve consumer_disconnected
  try_push b v = if consumer_disconnected b then some (b, some v) else push_reserved b v (reserve b)

  -- `disconnect_consumer` and `disconnect_producer`: was it disconnected already?
  pub disconnect_consumer : Buffer A → Buffer A × Bool
  disconnect_consumer b = (record b { consumer_id = usize_max }, b.consumer_id == usize_max)

  pub disconnect_producer : Buffer A → Buffer A × Bool
  disconnect_producer b = (record b { producer_id = usize_max }, b.producer_id == usize_max)

  -- `BufferHalf::connect` of the producer and of the consumer, which assert that the id is a real one.
  pub connect_producer : Buffer A → ℕ → Option (Buffer A)
  connect_producer b id =
      if id == 0
      then none
      else (if id == usize_max then none else some (record b { producer_id = id }))

  pub connect_consumer : Buffer A → ℕ → Option (Buffer A)
  connect_consumer b id =
      if id == usize_max
      then none
      else (if id == 0 then none else some (record b { consumer_id = id }))

  -- `saturating_sub` is the subtraction of ℕ.
  pub size : Buffer A → ℕ
  size b = min b.capacity (b.tail - b.head)

  pub free_space : Buffer A → ℕ
  unfolding size
  free_space b = b.capacity - size b

  -- `Drop for Buffer`: pops until nothing is left, at most `fuel` times. `none` is a fault or the
  -- end of the fuel; the values come out in the order in which they are dropped.
  pub drop_rest : Option (Buffer A × Option A) → (Buffer A → Option (List A)) → Option (List A)
  drop_rest none go = none
  drop_rest (some (b, none)) go = some []
  drop_rest (some (b, some v)) go = option_map (λ vs. v ∷ vs) (go b)

  pub drop_buffer : ℕ → Buffer A → Option (List A)
  unfolding drop_rest
  drop_buffer zero b = none
  drop_buffer (suc fuel) b = drop_rest (try_pop b) (drop_buffer fuel)
