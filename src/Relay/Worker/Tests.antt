-- ===== src/Relay/Worker/Tests.antt =====
-- Concrete runs of apps/outbox-relay on a posted entry whose event waits in the outbox.
use adaptive_financial_os.Common.{
  ℕ, ◌+◌, ◌≤◌, ◌≡◌, refl, text, none, some, [], ◌∷◌, length, All, Bool, true, false, nat_beq,
  nat_eq, if◌then◌else◌, text_eq, text_beq, arith,
}
use adaptive_financial_os.Common.JsMap.{get}
use adaptive_financial_os.Core.Types.{DebitCredit, debit, credit}
use adaptive_financial_os.Db.{
  Database, EntryRow, LineRow, EventRow, pending, posted_payload, other_error,
}
use adaptive_financial_os.Db.Session.{lose_answer, Faults, Session, value}
use adaptive_financial_os.Db.Ensures.{Ends}
use adaptive_financial_os.Common.Double.{to_numeric}
use adaptive_financial_os.Relay.Projection.{entry_lines, projection_row, project}
use adaptive_financial_os.Relay.Projection.Totals.{projection_row-totals}
use adaptive_financial_os.Relay.Projection.Atomic.{Answers, Throws, project-atomic}
use adaptive_financial_os.Relay.Projection.Reflects.{exact, IsReflected, project-IsReflected}
use adaptive_financial_os.Relay.Projection.Atomic.{upsert_all}
use adaptive_financial_os.Relay.Projection.Reflects.{balance_total}
use adaptive_financial_os.Relay.Projection.Deltas.{
  delta_on, compute_deltas, compute_deltas-balances,
}
use adaptive_financial_os.Relay.Worker.{
  Config, Environment, Worker, to_envelope, backoff_ids, claim, process_once,
}
use adaptive_financial_os.Relay.Worker.Lifecycle.{AllMove, process_once-AllMove}
use adaptive_financial_os.Relay.Envelope.{OutboxEnvelope}
use adaptive_financial_os.Relay.Worker.Delivers.Rows.{working}
use adaptive_financial_os.Relay.Worker.Delivers.{batch, IsPolled, process_once-delivers}
use adaptive_financial_os.Relay.Worker.Claims.{IsClaimable, claim-IsClaimable}
use adaptive_financial_os.Relay.Worker.Publisher.{AllGivenUp, webhook_publish, process_once-webhook}

abbrev line : ℕ → DebitCredit → LineRow
line account side = record {
  tenant_id = text "t1";
  entry_id = 10;
  account_id = account;
  amount = 2500000;
  direction = side;
  currency = text "EUR";
}

abbrev event : EventRow
event = record {
  id = 20;
  tenant_id = some (text "t1");
  aggregate_type = text "journal_entry";
  aggregate_id = some 10;
  status = pending;
  event_type = text "journal_entry.posted";
  payload = posted_payload 10 (text "sale") 2;
  is_published = false;
  is_processed = false;
}

abbrev sale : EntryRow
sale = record { id = 10; tenant_id = text "t1"; description = text "sale" }

abbrev waiting : Database
waiting = record {
  accounts = [];
  entries = sale ∷ [];
  lines = line 1 debit ∷ line 2 credit ∷ [];
  keys = [];
  outbox = event ∷ [];
  projections = [];
  balances = [];
}

abbrev idle : Session
idle = record { committed = waiting; work = waiting; touched = []; count = 0 }

abbrev config : Config
config = record { batch_size = 50; max_attempts = 5; backoff_base_ms = 500; backoff_max_ms = 30000 }

-- The answer of the seventh statement is lost.
abbrev faults : Faults
faults n = if nat_beq n 7 then some (lose_answer other_error) else none

abbrev env : Environment
env = record { faults = faults; publishes = λ n e. true; now = λ n. 1000 + n; jitter = λ n. 17 }

abbrev worker : Worker
worker = record {
  session = idle;
  backoff = (20, record { attempts = 2; next_attempt_at = 900 }) ∷ [];
}

waiting-IsReflected : IsReflected exact waiting
waiting-IsReflected = record { totals = λ k t a. refl; nets = tt }

project-atomic_example :
    Ends
      (Answers waiting (to_envelope event) 10)
      (Throws waiting 10)
      (project faults (to_envelope event) idle)
project-atomic_example = project-atomic faults (to_envelope event) 10 idle refl

project-IsReflected_example :
    IsReflected exact (project faults (to_envelope event) idle).1.committed
project-IsReflected_example =
    project-IsReflected faults (to_envelope event) idle (omega arith) waiting-IsReflected

process_once-AllMove_example :
    AllMove (event ∷ []) (process_once config env worker).1.session.committed.outbox
process_once-AllMove_example = process_once-AllMove config env worker

-- The webhook publisher as it stands.
abbrev webhook_env : Environment
webhook_env = record env { publishes = λ n e. webhook_publish (λ _. true) e }

process_once-webhook_example :
    AllGivenUp (event ∷ []) (process_once config webhook_env worker).1.session.committed.outbox
    × ((process_once config webhook_env worker).1.session.committed.projections ≡ [])
    × ((process_once config webhook_env worker).1.session.committed.balances ≡ [])
process_once-webhook_example =
    process_once-webhook config webhook_env (λ _. true) worker (λ n e. refl)

-- Two events of which the publisher takes the first one.
abbrev first_only : OutboxEnvelope → Bool
first_only e = nat_beq e.id 20

abbrev first_env : Environment
first_env = record env { publishes = λ n e. first_only e }

abbrev two : Database
two = record waiting { outbox = event ∷ record event { id = 21 } ∷ [] }

abbrev two_worker : Worker
two_worker = record {
  session = record { committed = two; work = two; touched = []; count = 0 };
  backoff = [];
}

process_once-delivers_example :
    ((process_once config (working config first_env) two_worker).0 ≡ value tt)
    × IsPolled config first_env first_only
        (λ n e. refl)
        (batch config first_env first_only (λ n e. refl) two_worker)
        two
        (process_once config (working config first_env) two_worker).1.session.committed
process_once-delivers_example =
    process_once-delivers config first_env first_only (λ n e. refl) two_worker

claim-IsClaimable_example :
    Ends
      (λ rows db. (db ≡ waiting) × (length rows ≤ 50) × All (IsClaimable 1000 worker.backoff) rows)
      (λ db. db ≡ waiting)
      (claim config env (backoff_ids 1000 worker.backoff) idle)
claim-IsClaimable_example = claim-IsClaimable config env 1000 worker.backoff idle

compute_deltas-balances_example :
    balance_total debit (text "t1") 1 (upsert_all waiting.lines [])
    ≡ 0 + to_numeric (delta_on debit (get 1 (compute_deltas waiting.lines)))
unfolding text_beq
compute_deltas-balances_example =
    compute_deltas-balances debit (text "t1") 1 waiting.lines [] (refl, (refl, tt)) (omega arith)
      (omega arith)

projection_row-totals_example :
    ((projection_row 10 sale (entry_lines 10 waiting.lines)).total_debit ≡ 2500000)
    × ((projection_row 10 sale (entry_lines 10 waiting.lines)).total_credit ≡ 2500000)
projection_row-totals_example =
    projection_row-totals 10 sale waiting.lines (omega arith) (omega arith) (omega arith)
