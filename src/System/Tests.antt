-- ===== src/System/Tests.antt =====
-- Concrete runs of both applications on one database of two accounts.
use adaptive_financial_os.Common.{◌+◌, ◌≡◌, refl, sym, subst, text, some, [], ◌∷◌, true}
use adaptive_financial_os.Core.Types.{debit, credit}
use adaptive_financial_os.Db.{Database, posted_payload}
use adaptive_financial_os.Db.Session.{no_faults, Session}
use adaptive_financial_os.Api.Ledger.{post_entry}
use adaptive_financial_os.Api.Ledger.Tests.{account, numeric_in, new_id, request}
use adaptive_financial_os.Relay.Envelope.{OutboxEnvelope}
use adaptive_financial_os.Relay.Projection.{project}
use adaptive_financial_os.Relay.Worker.{Config, Environment, Worker, loop}
use adaptive_financial_os.Relay.Projection.Reflects.{exact, AreSmall, project-lines}
use adaptive_financial_os.System.{initial, post, deliver, Reach, here, next}
use adaptive_financial_os.System.Sums.{grand_total}
use adaptive_financial_os.System.Sound.{IsSound, Reach-IsSound}
use adaptive_financial_os.Api.Ledger.Tests.{request-small}
use adaptive_financial_os.System.Polls.{loop-IsSound}

abbrev start : Database
start = initial (account 1 (text "cash") ∷ account 2 (text "sales") ∷ [])

-- A connection on which nothing is open.
abbrev connected : Database → Session
connected db = record { committed = db; work = db; touched = []; count = 0 }

abbrev envelope : OutboxEnvelope
envelope = record {
  id = 20;
  tenant_id = some (text "t1");
  aggregate_type = text "journal_entry";
  aggregate_id = some 10;
  event_type = text "journal_entry.posted";
  payload = posted_payload 10 (text "sale") 2;
}

abbrev after_post : Database
after_post = (post_entry no_faults numeric_in new_id request (connected start)).1.committed

abbrev after_delivery : Database
after_delivery = (project no_faults envelope (connected after_post)).1.committed

-- A request is posted, and its event is delivered.
run : Reach numeric_in new_id start after_delivery
run =
    next (next here (post no_faults request (connected start) refl refl))
      (deliver no_faults envelope (connected after_post) refl refl)

Reach-IsSound_example :
    IsSound exact after_delivery
    × (grand_total debit after_delivery.balances ≡ grand_total credit after_delivery.balances)
Reach-IsSound_example =
    Reach-IsSound numeric_in new_id (account 1 (text "cash") ∷ account 2 (text "sales") ∷ []) run
      (subst AreSmall (sym (project-lines no_faults envelope (connected after_post))) request-small)

abbrev config : Config
config = record { batch_size = 50; max_attempts = 5; backoff_base_ms = 500; backoff_max_ms = 30000 }

abbrev env : Environment
env = record { faults = no_faults; publishes = λ n e. true; now = λ n. 1000 + n; jitter = λ n. 17 }

abbrev worker : Worker
worker = record { session = connected after_post; backoff = [] }

-- Three polls after the request.
loop-IsSound_example :
    ((loop config env 3 worker).session.committed.lines ≡ after_post.lines)
    × IsSound exact (loop config env 3 worker).session.committed
    × (grand_total debit (loop config env 3 worker).session.committed.balances
        ≡ grand_total credit (loop config env 3 worker).session.committed.balances)
loop-IsSound_example =
    loop-IsSound numeric_in new_id config env
      (account 1 (text "cash") ∷ account 2 (text "sales") ∷ []) 3 worker
      (next here (post no_faults request (connected start) refl refl)) request-small
