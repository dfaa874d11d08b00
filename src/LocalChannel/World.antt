-- ===== src/LocalChannel/World.antt =====
-- Runs of a channel of local_channel.rs: any interleaving of its calls, with a ledger of what was
-- sent and what was received, and of whom the calls wake.
use glommio.Base.{ℕ, ◌≡◌, List, [], ◌∷◌, ◌++◌, Option, none, some}
use glommio.Errors.{Result, ok, err}
use glommio.LocalChannel.{
  State, ChannelCapacity, sender, receiver, Poll, waits, done, new, fresh_node,
}
use glommio.LocalChannel.Ends.{poll_send, poll_recv, try_send, drop_waiter}
use glommio.LocalChannel.Polls.{Mine}
use glommio.LocalChannel.Drops.{freed}
use glommio.LocalChannel.Polled.{is_waiting, wakes_of_send, wakes_of_recv}
use glommio.LocalChannel.Heard.{more, anew, new_last}

pub record World {ℓ} (A : Type ℓ) : Type ℓ where
  pub state : State A
  pub accepted : List A
  pub received : List A
  -- Of each waiter the waker of its last poll that waited, and the wakers called since its last poll.
  pub last_waker : ℕ → Option ℕ
  pub calls : ℕ → List ℕ

module _ {ℓ} {A : Type ℓ} where
  -- The items that a call adds to the ledger.
  abbrev pub sent_by : A → Poll (Result A (List ℕ)) → List A
  sent_by item waits = []
  sent_by item (done (ok _)) = item ∷ []
  sent_by item (done (err _)) = []

  abbrev pub got_by : Poll (Option A × List ℕ) → List A
  got_by waits = []
  got_by (done (none, _)) = []
  got_by (done (some item, _)) = item ∷ []

-- One call while both ends are alive. A waiter is polled by one end only.
pub data Step {ℓ} (A : Type ℓ) (w : World A) : World A → Type ℓ where
  polls_send :
      (i waker : ℕ) (item : A) {t : State A} {p : Poll (Result A (List ℕ))}
      → Mine (w.state.nodes i) sender
      → poll_send w.state i waker item ≡ some (t, p)
      → Step A w (record w {
        state = t;
        accepted = w.accepted ++ sent_by item p;
        last_waker = new_last (is_waiting p) w.last_waker i waker;
        calls = more (anew w.calls i) (wakes_of_send p);
      })
  polls_recv :
      (i waker : ℕ) {t : State A} {p : Poll (Option A × List ℕ)}
      → Mine (w.state.nodes i) receiver
      → poll_recv w.state i waker ≡ some (t, p)
      → Step A w (record w {
        state = t;
        received = w.received ++ got_by p;
        last_waker = new_last (is_waiting p) w.last_waker i waker;
        calls = more (anew w.calls i) (wakes_of_recv p);
      })
  tries :
      (item : A) {t : State A} {wakes : List ℕ}
      → try_send w.state item ≡ ok (t, wakes)
      → Step A w
          (record w { state = t; accepted = w.accepted ++ (item ∷ []); calls = more w.calls wakes })
  drops :
      (i : ℕ) {t : State A} {wakes : List ℕ}
      → drop_waiter w.state i ≡ some (t, wakes)
      → Step A w (record w { state = freed t i; calls = more w.calls wakes })

pub data Reach {ℓ} (A : Type ℓ) (capacity : ChannelCapacity) : World A → Type ℓ where
  start : Reach A capacity (record {
    state = new capacity (λ i. fresh_node);
    accepted = [];
    received = [];
    last_waker = λ i. none;
    calls = λ i. [];
  })
  later : {w x : World A} → Reach A capacity w → Step A w x → Reach A capacity x
