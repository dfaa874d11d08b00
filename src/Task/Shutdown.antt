-- ===== src/Task/Shutdown.antt =====
-- The shutdown of a task of glommio/src/task/raw.rs by the executor that it belongs to.
use glommio.Base.{◌+◌, ◌<◌, ◌≡◌, refl, Bool, true, false, some, arith, sym, ap, ◌∙◌}
use glommio.Task.{
  next, try, notify, drop_in_place, release, drop_future, cleanup_owner, finish, close,
  max_references, shutdown, unlink_and_close,
}
use glommio.Task.Machine.{
  Phase, queued, idle, polling, cancelled, disarmed, stale, over, complete, taken, View, flags,
  contents, is_active, runnables, own_references, total, task, settle, tell, ends, at_phase, Good,
  is_held, is_complete,
}
use glommio.Task.Counts.{increment-run, ends-Good}
use glommio.Task.Ending.{unarmed, release-at, release-both}
use glommio.Task.Moves.{shutdown_phase}

abbrev listed : {A : Type 0} → Phase A → View A → View A
listed p v = record v { phase = p; linked = true }

-- The future is dropped at once if it is not being polled.
end_listed :
    {A : Type 0} (p q : Phase A) (v : View A)
    → total (listed p v) < max_references
    → 0 < total (listed p v)
    → total (listed p v) ≡ total (ends q v) + 1
    → Good (ends q v)
    → unlink_and_close (record (task (listed p v)) { references = total (listed p v) + 1 })
      ≡ next
          (finish (record (unarmed (total (listed p v) + 1) false v) { queue = runnables q }))
          release
    → finish (record (unarmed (total (listed p v) + 1) false v) { queue = runnables q })
      ≡ release (record (task (ends q v)) { references = total (listed p v) + 1 })
    → shutdown (task (listed p v)) ≡ some (settle (ends q v))
unfolding shutdown task
end_listed p q v k z e g c f =
    let n = total (listed p v) + 1 in
    ap (λ r. try r unlink_and_close) (increment-run (task (listed p v)) z k)
    ∙ c
    ∙ release-both (record (unarmed n false v) { queue = runnables q }) n (ends q v) g
        (omega (arith, e)) f

pub stale-Good : {A : Type 0} (again : Bool) (v : View A) → Good (ends (stale again) v)
unfolding ends tell is_complete
stale-Good again v = record { unlinked = λ h. refl; told = λ h. refl; wanted = λ h. absurd (cc) }

pub polling-Good :
    {A : Type 0} (again stopped : Bool) (v : View A) → Good (at_phase (polling again stopped) v)
unfolding is_held is_complete
polling-Good again stopped v = record {
  unlinked = λ h. absurd (cc);
  told = λ h. absurd (cc);
  wanted = λ h. absurd (cc);
}

shutdown_by :
    {A : Type 0} (p : Phase A) (v : View A)
    → is_held p ≡ true
    → total (listed p v) < max_references
    → shutdown (task (listed p v)) ≡ some (settle (shutdown_phase p (listed p v)))
unfolding unlink_and_close close finish cleanup_owner drop_future drop_in_place shutdown_phase flags
    task contents notify ends tell runnables is_active total own_references is_held shutdown release
shutdown_by queued v e k =
    end_listed queued (stale false) v k (omega arith) (omega arith) (stale-Good false v) refl refl
shutdown_by idle v e k =
    end_listed idle over v k (omega arith) (omega arith) (ends-Good v) refl refl
shutdown_by (polling again stopped) v e k =
    let n = total (listed (polling again stopped) v) in
    let w = record v { phase = polling again true; linked = false } in
    ap (λ r. try r unlink_and_close)
      (increment-run (task (listed (polling again stopped) v)) (omega arith) k)
    ∙ release-at (n + 1) w (polling-Good again true w) (omega arith)
shutdown_by cancelled v e k =
    end_listed cancelled (stale false) v k (omega arith) (omega arith) (stale-Good false v) refl
      refl
shutdown_by disarmed v e k =
    end_listed disarmed (stale false) v k (omega arith) (omega arith) (stale-Good false v) refl refl
shutdown_by (stale again) v e k = absurd (cc)
shutdown_by over v e k = absurd (cc)
shutdown_by (complete a) v e k = absurd (cc)
shutdown_by taken v e k = absurd (cc)

-- The executor can shut down each task that is still in its registry: the future is dropped at once,
-- or, if it is being polled, when the poll is over.
pub shutdown_lem :
    {A : Type 0} (v : View A)
    → v.linked ≡ true
    → is_held v.phase ≡ true
    → total v < max_references
    → shutdown (task v) ≡ some (settle (shutdown_phase v.phase v))
unfolding task total
shutdown_lem v l e k =
    ap (λ b. shutdown (task (record v { linked = b }))) l
    ∙ shutdown_by v.phase v e k
    ∙ ap (λ b. some (settle (shutdown_phase v.phase (record v { linked = b })))) (sym l)
