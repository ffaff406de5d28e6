-- ===== src/Relay/Worker/Backoff.antt =====
-- The failures of an event (apps/outbox-relay/src/relay/outbox-relay.service.ts).
use Prim.Native.Nat.{min}
use adaptive_financial_os.Common.{
  ℕ, ◌+◌, ◌*◌, ◌^◌, ◌≡◌, some, List, [], ◌∷◌, false, nat_beq, nat_eq,
}
use adaptive_financial_os.Common.JsMap.{JsMap, get}
use adaptive_financial_os.Db.{EventRow}
use adaptive_financial_os.Db.Session.{Session, Outcome, value}
use adaptive_financial_os.Relay.Worker.{Config, Environment, Worker, Attempt, handle_failure}

module _ (config : Config) (env : Environment) (row : EventRow) where
  -- The map after the event has failed on each session, the last one first.
  abbrev pub backoff_after : List Session → JsMap ℕ Attempt → JsMap ℕ Attempt
  backoff_after [] m = m
  backoff_after (s ∷ ss) m =
      (handle_failure config env row
        (record { session = s; backoff = backoff_after ss m })).1.backoff

  -- The next attempt after n + 1 failures.
  abbrev pub retry_after : ℕ → Session → Attempt
  retry_after n s = record {
    attempts = n + 1;
    next_attempt_at =
        env.now s.count
        + min (config.backoff_base_ms * 2 ^ n) config.backoff_max_ms
        + env.jitter s.count;
  }

  -- What a failure comes to if it is put off.
  abbrev pub IsPutOff : ℕ → Session → JsMap ℕ Attempt → Outcome (Unit {0}) × Worker → Type 0
  IsPutOff n s m (r, w') =
      (r ≡ value tt)
      × (w'.session ≡ s)
      × (get row.id w'.backoff ≡ some (retry_after n s))
      × ((id : ℕ) → nat_beq row.id id ≡ false → get id w'.backoff ≡ get id m)
