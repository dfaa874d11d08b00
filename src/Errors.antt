-- ===== src/Errors.antt =====
-- glommio/src/error.rs: the errors that the modelled operations return, and the result type.
-- The other variants are not returned by the modelled code.
use glommio.Base.{ℕ}

-- `ResourceType<T>`, where `T` is what a channel hands back.
pub data ResourceType {ℓ} (T : Type ℓ) : Type ℓ where
  semaphore : (requested available : ℕ) → ResourceType T
  rw_lock : ResourceType T
  channel : T → ResourceType T
  gate : ResourceType T

pub data QueueErrorKind : Type 0 where
  still_active : QueueErrorKind
  not_found : QueueErrorKind

-- `GlommioError<T>`, with `ExecutorErrorKind::QueueError` in place; the message of `can_not_be_closed` is not kept.
pub data GlommioError {ℓ} (T : Type ℓ) : Type ℓ where
  closed : ResourceType T → GlommioError T
  can_not_be_closed : ResourceType T → GlommioError T
  would_block : ResourceType T → GlommioError T
  queue_error : (index : ℕ) → QueueErrorKind → GlommioError T

pub data Result {ℓ κ} (T : Type ℓ) (A : Type κ) : Type (ℓ ⊔ κ) where
  ok : A → Result T A
  err : GlommioError T → Result T A
