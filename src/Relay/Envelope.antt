-- ===== src/Relay/Envelope.antt =====
-- apps/outbox-relay/src/relay/outbox.publisher.ts: the envelope of an event. `occurredAt` is a
-- timestamp and is left out.
use adaptive_financial_os.Common.{ℕ, Text, Option}
use adaptive_financial_os.Db.{Payload}

pub record OutboxEnvelope : Type 0 where
  pub id : ℕ
  pub tenant_id : Option Text
  pub aggregate_type : Text
  pub aggregate_id : Option ℕ
  pub event_type : Text
  pub payload : Payload
