-- ===== src/Lib.antt =====
-- Adaptive Financial OS: a double-entry ledger, its HTTP service, and the worker that relays its
-- events.
--
-- The program has three parts, and a library of notifications and SMS beside them.
-- packages/accounting-core validates journal entries and computes balances, without state. apps/api
-- posts an entry in one transaction of PostgreSQL: the entry, its lines, an idempotency key and an
-- event of the outbox. apps/outbox-relay polls the outbox: it publishes each pending event,
-- projects its entry to ledger_projection and account_balances in one transaction, and marks the
-- event; an event that fails is retried after a growing delay and at last given up. The queries and
-- the reports of apps/api read what is posted and projected. src/lib/notification sends
-- notifications by four channels and keeps an inbox for each user; src/lib/sms sends text messages
-- by two providers.
--
-- Common holds what the parts share: integers (`bigint`) over the native numbers, texts as UTF-16
-- code units, `Map` in the order of insertion (Common.JsMap), `Array.prototype.sort` (Common.Sort),
-- `BigInt` of a string (Common.BigInt), and doubles that are not negative, with `parseFloat`, their
-- addition and the text that is printed for them (Common.Double).
--
-- Core is packages/accounting-core/src. Core.Types has the data of types.ts and the codes of
-- errors.ts, and `Result` for what may throw; Core.Money is money.ts; Core.Posting is
-- `validateEntry` of posting.ts, specified in Core.Posting.Spec; Core.Balance is balance.ts
-- (`balancePerAccount` is `balance_per_account`, and so on), and Core.Deltas its
-- `projectionDeltas`.
--
-- Db has the tables of db/migrations and the deferred trigger `enforce_balanced_entry`. Db.Session
-- is a client of the pool: what is committed, what the open transaction sees, and the number of
-- statements run. For each statement the environment decides whether it passes, is refused, or runs
-- and loses its answer, so a theorem for every environment covers every failure. Db.Ensures has the
-- rules for chains of statements. Concurrent transactions are seen through such refusals only.
--
-- Api.Ledger is `postEntry` and `validateBalance` of apps/api/src/ledger/ledger.service.ts, with
-- one function for each statement of the transaction; Api.Ledger.Spec says what each answer
-- promises. Api.Queries has `listEntries`, `getEntry`, `listProjections`, `listBalances` and
-- `getProjection` of the same file. Api.Reports is `trialBalance` and `balanceSheet` of
-- apps/api/src/ledger/reports.service.ts, Api.Reports.Hierarchy its `accountHierarchy`, and
-- Api.Reports.Income its `incomeStatement`. Api.Kafka is `publish` of
-- apps/api/src/kafka/publisher.ts.
--
-- Relay.Envelope and Relay.Projection are the envelope and `project` of
-- apps/outbox-relay/src/relay/projection.service.ts, and Relay.Projection.Deltas its
-- `computeDeltas`. Relay.Worker is `processOnce` of
-- apps/outbox-relay/src/relay/outbox-relay.service.ts with all it calls, and `loop`; its state is
-- the database session and the map `backoff`. Relay.Worker.Publisher is `publish` of
-- outbox.publisher.ts there.
--
-- System puts both applications on one database: a relation of steps, each of them a request, a
-- delivery or a change of an event's status, in any order, and the databases that are reached;
-- System.Polls follows the worker's loop on it.
--
-- Notification is src/lib/notification/service.ts and types.ts: `send`, the inbox and the
-- configuration. Sms is src/lib/sms: the service of index.ts and the two adapters.
--
-- The loops of the modelled code run over lists, so the functions recur on lists. The loop of
-- Api.Kafka recurs on fuel, one more than the attempts allowed; its theorem shows that to be
-- enough. The loop of the worker is a number of polls. Amounts are unbounded integers, as `bigint`
-- is; `Number.MAX_SAFE_INTEGER` is the one bound that the code tests. The projection computes with
-- doubles, and so does the model, in units of 2^-66, of which the double of every amount is a whole
-- number. The fuel of the rounding is the greatest exponent of a double, and that of the printing 40
-- decimals, where 21 are enough for any amount.
--
-- Parameters stand for what the repository does not define: `localeCompare` and the collation of
-- the database, how PostgreSQL reads and prints NUMERIC(20,4), the ids that it generates, the
-- faults of the connection, whether publishing succeeds, what an ORDER BY makes of the rows, when
-- an entry occurred, the answers of a broker, of the file system, of Telegram and of the SMS
-- providers, the clock, and the jitters.
--
-- Not modelled: the reading of the worker's and the publisher's configuration, `ledgerExport`,
-- which is one SELECT, the loading of the inbox, GraphQL, whose resolvers answer fixed values, the
-- web page, the scripts, and the start-up of the applications. Row-level security, foreign keys and
-- timestamps are left out of the tables, but for whether an event was published and processed.
-- A sum past the range of NUMERIC(20,4) is a statement that the environment refuses.
pub mod Common
pub mod Core
pub mod Db
pub mod Api
pub mod Relay
pub mod System
pub mod Notification
pub mod Sms
