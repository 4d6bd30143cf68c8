-- ===== src/Sink/Transport.antt =====
-- What a poll of a stream meets at the write half of the transport (`TransportWrite`, an
-- implementation of `futures::Sink` that the user of the crate chooses) and at its lock.
use epoxy_tls.Base.{Bool, Option, WispError}
use epoxy_tls.Bytes.{Payload}

pub data Poll {ℓ} (A : Type ℓ) : Type ℓ where
  ready : A → Poll A
  pending : Poll A

-- The answers during one poll. In a result, `none` is `Ok(())`. `poll_lock` is asked only while the
-- lock is not held.
pub record Transport : Type 0 where
  pub lock_free : Bool
  pub poll_ready : Poll (Option WispError)
  pub start_send : Payload → Option WispError
  pub poll_flush : Poll (Option WispError)
