-- ===== src/Relay.antt =====
-- apps/outbox-relay: the worker that delivers the outbox and projects posted entries.
pub mod Envelope
pub mod Projection
pub mod Worker
