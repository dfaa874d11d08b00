-- ===== src/SpscQueue/Runs.antt =====
-- Runs of calls on the ring of spsc_queue.rs against a queue with a bound, the abstract view of a
-- producer and a consumer that take turns.
use glommio.Base.{
  ℕ, ◌≡◌, refl, ◌∙◌, ap, inl, inr, false, List, [], ◌∷◌, ◌++◌, Option, none, some, arith, ltb,
  if◌then◌else◌, Bool-cases, option_map, length, ◌==◌,
}
use glommio.SpscQueue.{Buffer, usize_max, try_push, try_pop, consumer_disconnected}
use glommio.SpscQueue.Ring.{Holds, Kept}
use glommio.SpscQueue.Pop.{try_pop-empty, try_pop-some}
use glommio.SpscQueue.Push.{try_push-room, try_push-full}

pub data Op {ℓ} (A : Type ℓ) : Type ℓ where
  push : A → Op A
  pop : Op A

module _ {ℓ} {A : Type ℓ} where
  -- Each call's result: what comes back from a push, what a pop finds.
  then_result :
      Option (Buffer A × Option A)
      → (Buffer A → Option (List (Option A)))
      → Option (List (Option A))
  then_result none go = none
  then_result (some (b, r)) go = option_map (λ rs. r ∷ rs) (go b)

  pub run : Buffer A → List (Op A) → Option (List (Option A))
  unfolding then_result
  run b [] = some []
  run b (push x ∷ ops) = then_result (try_push b x) (λ b'. run b' ops)
  run b (pop ∷ ops) = then_result (try_pop b) (λ b'. run b' ops)

  -- The queue with the bound `c`.
  pub fifo : ℕ → List A → List (Op A) → List (Option A)
  fifo c q [] = []
  fifo c q (push x ∷ ops) =
      if ltb (length q) c then none ∷ fifo c (q ++ (x ∷ [])) ops else some x ∷ fifo c q ops
  fifo c [] (pop ∷ ops) = none ∷ fifo c [] ops
  fifo c (x ∷ q) (pop ∷ ops) = some x ∷ fifo c q ops

  still_connected :
      (b b' : Buffer A)
      → Kept b b'
      → consumer_disconnected b ≡ false
      → consumer_disconnected b' ≡ false
  unfolding consumer_disconnected
  still_connected b b' k c = ap (λ i. i == usize_max) k.1 ∙ c

  -- While the consumer is connected, the results of every sequence of pushes and pops are those of
  -- a first-in first-out queue whose bound is the capacity. No call panics or reads a slot that
  -- holds nothing, also when the counters wrap.
  pub run_lem :
      (b : Buffer A) (q : List A) (ops : List (Op A))
      → Holds b q
      → consumer_disconnected b ≡ false
      → run b ops ≡ some (fifo b.capacity q ops)
  unfolding run fifo then_result
  run_lem b q [] v c = refl
  run_lem b q (push x ∷ ops) v c = elim (Bool-cases (ltb (length q) b.capacity)) [
    | inl room ↦
        let (b', e, w, k) = try_push-room b q x v c (ground arith) in
        rw (e, room, run_lem b' (q ++ (x ∷ [])) ops w (still_connected b b' k c), k.0)
    | inr full ↦ rw (try_push-full b q x v (ground (arith, v.fits)), full, run_lem b q ops v c)
  ]
  run_lem b [] (pop ∷ ops) v c = rw (try_pop-empty b v, run_lem b [] ops v c)
  run_lem b (x ∷ q) (pop ∷ ops) v c =
      let (b', e, w, k) = try_pop-some b x q v in
      rw (e, run_lem b' q ops w (still_connected b b' k c), k.0)
