-- ===== src/System.antt =====
-- The two applications on one database: requests to `postEntry` of apps/api and the transactions of
-- apps/outbox-relay, in any order. A step is a transaction or a statement of its own, so that any
-- number of requests and workers may take turns; each statement may fail as the faults say.
pub mod Sums
pub mod Sound
pub mod Polls
pub mod Tests
use adaptive_financial_os.Common.{nat_beq, ℕ, ◌≡◌, Text, Option, List, []}
use adaptive_financial_os.Db.{Database, AccountRow}
use adaptive_financial_os.Db.Session.{Faults, Session}
use adaptive_financial_os.Api.Ledger.{PostEntryDto, post_entry}
use adaptive_financial_os.Relay.Envelope.{OutboxEnvelope}
use adaptive_financial_os.Relay.Projection.{project}
use adaptive_financial_os.Relay.Worker.{update_events, member, to_published, to_dead_letter}

-- The database before anything is posted.
abbrev pub initial : List AccountRow → Database
initial accounts = record {
  accounts = accounts;
  entries = [];
  lines = [];
  keys = [];
  outbox = [];
  projections = [];
  balances = [];
}

module _ (numeric_in : Text → Option ℕ) (new_id : Database → ℕ) where
  pub data Step (c d : Database) : Type 0 where
    post :
        (faults : Faults) (dto : PostEntryDto) (s : Session)
        → s.committed ≡ c
        → d ≡ (post_entry faults numeric_in new_id dto s).1.committed
        → Step c d
    deliver :
        (faults : Faults) (envelope : OutboxEnvelope) (s : Session)
        → s.committed ≡ c
        → d ≡ (project faults envelope s).1.committed
        → Step c d
    mark :
        (ids : List ℕ)
        → d ≡ record c { outbox = update_events (λ j. member j ids) to_published c.outbox }
        → Step c d
    give_up :
        (id : ℕ)
        → d ≡ record c { outbox = update_events (λ j. nat_beq j id) to_dead_letter c.outbox }
        → Step c d

  pub data Reach (c : Database) : Database → Type 0 where
    here : Reach c c
    next : {d e : Database} → Reach c d → Step d e → Reach c e
