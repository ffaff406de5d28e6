-- ===== src/Relay/Worker.antt =====
-- apps/outbox-relay/src/relay/outbox-relay.service.ts: one poll of the worker. What the environment
-- decides is a parameter: the faults of the database, whether the publisher throws, the clock, and
-- the jitter, as a whole number of milliseconds; all may change from statement to statement. The
-- rows of the outbox stand in the order of `created_at`, in which they are inserted.
pub mod Keeps
pub mod Grows
pub mod Delivers
pub mod Claims
pub mod Lifecycle
pub mod Backoff
pub mod Tests
pub mod Publisher
use Prim.Native.Nat.{min}
use adaptive_financial_os.Common.{
  ℕ, zero, suc, ◌+◌, ◌-◌, ◌*◌, ◌^◌, Option, none, some, List, [], ◌∷◌, ◌++◌, map, length, take,
  Bool, true, false, not, ◌&&◌, ◌||◌, ltb, leb, nat_beq, nat_eq, if◌then◌else◌,
}
use adaptive_financial_os.Common.JsMap.{JsMap, get, set, delete}
use adaptive_financial_os.Db.{Database, EventRow, Status, pending, published, dead_letter, done}
use adaptive_financial_os.Db.Session.{
  Faults, Session, Outcome, value, throw, Thrown, Action, pure, ◌>>=◌, ◌>>◌, statement, begin,
  commit, rollback, release, execute,
}
use adaptive_financial_os.Relay.Envelope.{OutboxEnvelope}
use adaptive_financial_os.Relay.Projection.{project}

pub record Attempt : Type 0 where
  pub attempts : ℕ
  pub next_attempt_at : ℕ

pub record Config : Type 0 where
  pub batch_size : ℕ
  pub max_attempts : ℕ
  pub backoff_base_ms : ℕ
  pub backoff_max_ms : ℕ

-- What the worker does not decide, by the number of statements run so far.
pub record Environment : Type 0 where
  pub faults : Faults
  pub publishes : ℕ → OutboxEnvelope → Bool
  pub now : ℕ → ℕ
  pub jitter : ℕ → ℕ

-- The connection, and the map `backoff`.
pub record Worker : Type 0 where
  pub session : Session
  pub backoff : JsMap ℕ Attempt

abbrev pub map_prune_threshold : ℕ
map_prune_threshold = 10000

-- `toEnvelope`
abbrev pub to_envelope : EventRow → OutboxEnvelope
to_envelope row = record {
  id = row.id;
  tenant_id = row.tenant_id;
  aggregate_type = row.aggregate_type;
  aggregate_id = row.aggregate_id;
  event_type = row.event_type;
  payload = row.payload;
}

abbrev pub is_pending : Status → Bool
is_pending pending = true
is_pending published = false
is_pending dead_letter = false

abbrev pub member : ℕ → List ℕ → Bool
member id [] = false
member id (j ∷ js) = nat_beq id j || member id js

-- `backoffIds`
unfoldable pub backoff_ids : ℕ → JsMap ℕ Attempt → List ℕ
backoff_ids now [] = []
backoff_ids now ((id, a) ∷ m) =
    if ltb now a.next_attempt_at then id ∷ backoff_ids now m else backoff_ids now m

-- The WHERE of the claim.
abbrev pub is_claimable : List ℕ → EventRow → Bool
is_claimable excluded row =
    is_pending row.status
    && not row.is_published
    && not row.is_processed
    && not (member row.id excluded)

unfoldable pub claimable : List ℕ → List EventRow → List EventRow
claimable excluded [] = []
claimable excluded (row ∷ rows) =
    if is_claimable excluded row then row ∷ claimable excluded rows else claimable excluded rows

-- UPDATE outbox_events SET … WHERE id = … AND status = 'pending', on every row that the test takes.
unfoldable pub update_events : (ℕ → Bool) → (EventRow → EventRow) → List EventRow → List EventRow
update_events test change [] = []
update_events test change (row ∷ rows) =
    (if test row.id && is_pending row.status then change row else row)
    ∷ update_events test change rows

abbrev pub to_published : EventRow → EventRow
to_published row = record row { status = published; is_published = true; is_processed = true }

abbrev pub to_dead_letter : EventRow → EventRow
to_dead_letter row = record row { status = dead_letter; is_processed = true }

abbrev pub delete_all : List ℕ → JsMap ℕ Attempt → JsMap ℕ Attempt
delete_all [] m = m
delete_all (id ∷ ids) m = delete_all ids (delete id m)

-- `pruneResolved`
unfoldable pub prune_resolved : ℕ → JsMap ℕ Attempt → JsMap ℕ Attempt
prune_resolved now [] = []
prune_resolved now ((id, a) ∷ m) =
    if leb a.next_attempt_at now then prune_resolved now m else (id, a) ∷ prune_resolved now m

abbrev pub prev_attempts : Option Attempt → ℕ
prev_attempts none = 0
prev_attempts (some a) = a.attempts

module _ (config : Config) (env : Environment) where
  -- `claim`: a transaction of its own, with `catch` and `finally`.
  claim_body : List ℕ → Action (List EventRow)
  claim_body excluded = do
    begin env.faults
    rows ←
        statement env.faults
          (λ db. done (take config.batch_size (claimable excluded db.outbox), db, []))
    commit env.faults
    pure rows

  abbrev pub closed : {A : Type 0} → Outcome A × Session → Outcome A × Session
  closed (value a, s) = (value a, release s)
  closed (throw e, s) = (throw e, release (rollback env.faults s).1)

  pub claim : List ℕ → Action (List EventRow)
  claim excluded s = closed (claim_body excluded s)

  -- The inner `try`: publish, then project; what `project` answers is only counted.
  abbrev pub delivered : Outcome Bool × Session → Bool × Session
  delivered (value b, s) = (true, s)
  delivered (throw e, s) = (false, s)

  pub deliver : EventRow → Session → Bool × Session
  deliver row s =
      if env.publishes s.count (to_envelope row)
      then delivered (project env.faults (to_envelope row) s)
      else (false, s)

  -- The delay before the next attempt, without the jitter.
  abbrev pub backoff_delay : ℕ → ℕ
  backoff_delay attempts = min (config.backoff_base_ms * 2 ^ (attempts - 1)) config.backoff_max_ms

  abbrev pub dead_lettered :
      ℕ → JsMap ℕ Attempt → Outcome (Unit {0}) × Session → Outcome (Unit {0}) × Worker
  dead_lettered id m (value _, s) = (value tt, record { session = s; backoff = delete id m })
  dead_lettered id m (throw e, s) = (throw e, record { session = s; backoff = m })

  pub handle_failure : EventRow → Worker → Outcome (Unit {0}) × Worker
  handle_failure row w =
      let attempts = prev_attempts (get row.id w.backoff) + 1 in
      if ltb config.max_attempts attempts
      then dead_lettered row.id w.backoff (
          execute env.faults
            (λ db. record db {
              outbox = update_events (λ id. nat_beq id row.id) to_dead_letter db.outbox;
            })
            w.session)
      else (
        value tt,
        record w {
          backoff =
              set row.id
                (record {
                  attempts = attempts;
                  next_attempt_at =
                      env.now w.session.count + backoff_delay attempts + env.jitter w.session.count;
                })
                w.backoff;
        },
      )

  -- The loop over the claimed rows, in three parts: what follows `handleFailure`, whose error
  -- leaves the loop, so that `okIds` is lost; what follows a delivery; and the loop.
  abbrev pub after_failure :
      (Worker → Outcome (List ℕ) × Worker) → Outcome (Unit {0}) × Worker → Outcome (List ℕ) × Worker
  after_failure rest (value _, w) = rest w
  after_failure rest (throw e, w) = (throw e, w)

  abbrev pub after_delivery :
      (List ℕ → Worker → Outcome (List ℕ) × Worker)
      → EventRow
      → List ℕ
      → JsMap ℕ Attempt
      → Bool × Session
      → Outcome (List ℕ) × Worker
  after_delivery rest row ok_ids m (true, s) =
      rest (ok_ids ++ row.id ∷ []) (record { session = s; backoff = m })
  after_delivery rest row ok_ids m (false, s) =
      after_failure (rest ok_ids) (handle_failure row (record { session = s; backoff = m }))

  pub process_rows : List EventRow → List ℕ → Worker → Outcome (List ℕ) × Worker
  process_rows [] ok_ids w = (value ok_ids, w)
  process_rows (row ∷ rows) ok_ids w =
      after_delivery (process_rows rows) row ok_ids w.backoff (deliver row w.session)

  abbrev pub marked :
      List ℕ → JsMap ℕ Attempt → Outcome (Unit {0}) × Session → Outcome (Unit {0}) × Worker
  marked ids m (value _, s) = (value tt, record { session = s; backoff = delete_all ids m })
  marked ids m (throw e, s) = (throw e, record { session = s; backoff = m })

  pub mark_published : List ℕ → Worker → Outcome (Unit {0}) × Worker
  mark_published ids w = marked ids w.backoff (
      execute env.faults
        (λ db. record db { outbox = update_events (λ id. member id ids) to_published db.outbox })
        w.session)

  abbrev pub prune : Worker → Worker
  prune w =
      if ltb map_prune_threshold (length w.backoff)
      then record w { backoff = prune_resolved (env.now w.session.count) w.backoff }
      else w

  abbrev pub pruned : Outcome (Unit {0}) × Worker → Outcome (Unit {0}) × Worker
  pruned (value _, w) = (value tt, prune w)
  pruned (throw e, w) = (throw e, w)

  pub mark_nonempty : List ℕ → Worker → Outcome (Unit {0}) × Worker
  mark_nonempty [] w = (value tt, w)
  mark_nonempty (id ∷ ids) w = mark_published (id ∷ ids) w

  -- What follows the loop.
  abbrev pub finish : Outcome (List ℕ) × Worker → Outcome (Unit {0}) × Worker
  finish (throw e, w) = (throw e, w)
  finish (value ok_ids, w) = pruned (mark_nonempty ok_ids w)

  -- What follows the claim: nothing more if no row is claimed.
  pub process_claimed :
      Outcome (List EventRow) × Session → JsMap ℕ Attempt → Outcome (Unit {0}) × Worker
  process_claimed (throw e, s) m = (throw e, record { session = s; backoff = m })
  process_claimed (value [], s) m = (value tt, record { session = s; backoff = m })
  process_claimed (value (row ∷ rows), s) m =
      finish (process_rows (row ∷ rows) [] (record { session = s; backoff = m }))

  pub process_once : Worker → Outcome (Unit {0}) × Worker
  process_once w =
      process_claimed (claim (backoff_ids (env.now w.session.count) w.backoff) w.session) w.backoff

  -- `loop`, for the polls until `running` is false: the `catch` only logs.
  unfoldable pub loop : ℕ → Worker → Worker
  loop zero w = w
  loop (suc polls) w = loop polls (process_once w).1
