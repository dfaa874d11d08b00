-- ===== src/Task/Handles.antt =====
-- The join handle of glommio/src/task/raw.rs and join_handle.rs.
use glommio.Base.{ℕ, ◌<◌, ◌≡◌, refl, true, false, some, ap, ◌∙◌, subst}
use glommio.Task.{
  Closure, owner, next, notify, read, take_output, cleanup_owner, finish, max_references, register,
}
use glommio.Task.Machine.{
  Phase, queued, idle, polling, cancelled, disarmed, stale, over, complete, taken, View, flags,
  contents, is_active, runnables, own_references, total, task, settle, tell, ends, at_phase, Good,
  is_held, is_complete, more,
}
use glommio.Task.Counts.{settle-live}
use glommio.Task.Ending.{release-at}
use glommio.Task.Moves.{drop_view, handle_phase, without_handle, poll_phase, hear}
use glommio.Task.Calls.{drop_waker, drop_handle, poll_handle, abandon}
use glommio.Task.Drops.{drop_waker_lem}
use glommio.Task.Shutdown.{stale-Good, polling-Good}
use glommio.Task.Unowned.{
  handle-more, freed-by-drop, drop_with, unowned, unowned-Good, drop_unowned, handle_bound,
  more-disarmed, more-positive, stale_bound, abandon_lem,
}

drop_handle_by :
    {A : Type 0} (c : Closure) (p : Phase A) (v : View A)
    → Good (record v { phase = p; handle = true })
    → total (record v { phase = p; handle = true }) < max_references
    → drop_handle c (task (record v { phase = p; handle = true }))
      ≡ some
          (settle (drop_view c owner (record (handle_phase p (at_phase p v)) { handle = false })))
unfolding drop_handle take_output read abandon finish cleanup_owner handle_phase task flags contents
    is_active runnables is_complete is_held notify ends tell
drop_handle_by c queued v g k = drop_unowned c queued v (unowned-Good queued v refl g) k
drop_handle_by c idle v g k =
    let w = unowned idle v in
    ap (λ n. next (abandon c (record (task w) { references = n })) (drop_waker c owner))
      (handle-more idle v)
    ∙ abandon_lem c v (unowned-Good idle v refl g) (handle_bound idle v k)
drop_handle_by c (polling true stopped) v g k =
    drop_unowned c (polling true stopped) v (polling-Good true stopped (unowned queued v)) k
drop_handle_by c (polling false stopped) v g k =
    drop_unowned c (polling false stopped) v (polling-Good false stopped (unowned queued v)) k
drop_handle_by c cancelled v g k = drop_unowned c cancelled v (unowned-Good cancelled v refl g) k
drop_handle_by c disarmed v g k =
    let n = total (record v { phase = disarmed; handle = true }) in
    let w = ends (stale true) (unowned (stale true) v) in
    ap (λ r. next (next r (abandon c)) (drop_waker c owner))
      (release-at n (more w) (stale-Good true (more (unowned (stale true) v))) (more-disarmed v)
        ∙ ap some (settle-live (more w) (more-positive w)))
    ∙ drop_waker_lem c owner w (stale-Good true (unowned (stale true) v)) (stale_bound v k)
drop_handle_by c (stale true) v g k =
    let n = total (record v { phase = stale true; handle = true }) in
    freed-by-drop c (record (task (unowned (stale true) v)) { references = n })
    ∙ drop_unowned c (stale true) v (unowned-Good (stale true) v refl g) k
drop_handle_by c (stale false) v g k =
    let n = total (record v { phase = stale false; handle = true }) in
    freed-by-drop c (record (task (unowned (stale false) v)) { references = n })
    ∙ drop_unowned c (stale false) v (unowned-Good (stale false) v refl g) k
drop_handle_by c over v g k =
    let n = total (record v { phase = over; handle = true }) in
    freed-by-drop c (record (task (unowned over v)) { references = n })
    ∙ drop_unowned c over v (unowned-Good over v refl g) k
drop_handle_by c (complete a) v g k =
    let n = total (record v { phase = complete a; handle = true }) in
    freed-by-drop c (record (task (unowned taken v)) { references = n })
    ∙ drop_with c n (unowned taken v)
        (record { unlinked = g.unlinked; told = g.told; wanted = λ h. absurd (cc) })
        (handle_bound (complete a) v k) (handle-more (complete a) v)
drop_handle_by c taken v g k =
    let n = total (record v { phase = taken; handle = true }) in
    freed-by-drop c (record (task (unowned taken v)) { references = n })
    ∙ drop_unowned c taken v (unowned-Good taken v refl g) k

-- What the drop of the handle does to a task that has one, while the count has room: it drops an
-- output that nobody has taken, cleans up a task whose future is gone, cancels an idle task that
-- nobody else can wake, and frees the task with the last reference.
pub drop_handle_lem :
    {A : Type 0} (c : Closure) (v : View A)
    → Good v
    → v.handle ≡ true
    → total v < max_references
    → drop_handle c (task v) ≡ some (settle (drop_view c owner (without_handle v)))
unfolding without_handle
drop_handle_lem c v g h k =
    ap (λ b. drop_handle c (task (record v { handle = b }))) h
    ∙ drop_handle_by c v.phase v (subst (λ b. Good (record v { handle = b })) h g)
        (subst (λ b. total (record v { handle = b }) < max_references) h k)

poll_by :
    {A : Type 0} (w : ℕ) (p : Phase A) (v : View A)
    → poll_handle w (task (at_phase p v))
      ≡ some (let r = poll_phase w p (at_phase p v) in (task r.0, r.1))
unfolding poll_handle register notify read poll_phase hear task flags contents is_active runnables
    total own_references
poll_by w queued v = refl
poll_by w idle v = refl
poll_by w (polling again true) v = refl
poll_by w (polling again false) v = refl
poll_by w cancelled v = refl
poll_by w disarmed v = refl
poll_by w (stale again) v = refl
poll_by w over v = refl
poll_by w (complete a) v = refl
poll_by w taken v = refl

-- One poll of the handle.
pub poll_handle_lem :
    {A : Type 0} (w : ℕ) (v : View A)
    → poll_handle w (task v) ≡ some (let r = poll_phase w v.phase v in (task r.0, r.1))
poll_handle_lem w v = poll_by w v.phase v
