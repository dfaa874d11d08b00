-- ===== src/Latch/Tests.antt =====
-- A run of a latch of latch.rs, and instances of its theorems.
use glommio.Base.{◌≡◌, refl, [], arith}
use glommio.Latch.{ready, canceled, new, cancel, count_down, fetch_update, less, to_zero, set_state}
use glommio.Latch.Laws.{
  World, Reach, start, later, counts, cancels, settles, Step-decided, count_down-cancel,
}

-- Two to wait for: one arrives, another cancels.
abbrev canceled_world : World
canceled_world = record { latch = record { count = 0; state = canceled }; owing = [] }

canceled_run : Reach 2 canceled_world
unfolding new fetch_update less to_zero set_state
canceled_run =
    later (later (later start (counts 1 (omega arith))) cancels) (settles canceled [] refl)

Step-decided_example : canceled_world.latch ≡ canceled_world.latch
unfolding fetch_update less
Step-decided_example =
    Step-decided {w = canceled_world} {x = canceled_world} canceled_run (λ e. cc)
      (counts 1 (omega arith))

count_down-cancel_example :
    ((cancel (new 2)).0 ≡ record { count = 0; state = canceled })
    × ((count_down (cancel (new 2)).0 0).0 ≡ record { count = 0; state = ready })
unfolding new
count_down-cancel_example = count_down-cancel (new 2) (omega arith)
