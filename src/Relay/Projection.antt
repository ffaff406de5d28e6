-- ===== src/Relay/Projection.antt =====
-- apps/outbox-relay/src/relay/projection.service.ts: `project`. An amount of a
-- column is a number of ten-thousandths; the service reads it as a double, adds doubles, and stores
-- a double again, which is rounded to the scale of the column.
pub mod Atomic
pub mod Reflects
pub mod Returns
pub mod Deltas
pub mod Totals
use adaptive_financial_os.Common.{
  ℕ, ◌+◌, Text, text, ℤ, pos, ◌+ℤ◌, ◌-ℤ◌, Option, none, some, List, [], ◌∷◌, ◌++◌, length, Bool,
  true, false, nat_beq, ◌==◌, ◌&&◌, text_eq, if◌then◌else◌,
}
use adaptive_financial_os.Common.Double.{double_add, amount_double, to_numeric, carried}
use adaptive_financial_os.Core.Types.{DebitCredit, debit, credit}
use adaptive_financial_os.Db.{
  Database, EntryRow, LineRow, ProjectionRow, BalanceRow, SqlResult, done, part,
}
use adaptive_financial_os.Db.Session.{
  Faults, Session, Outcome, value, throw, Action, pure, ◌>>=◌, ◌>>◌, statement, query, begin,
  rollback, commit, release,
}
use adaptive_financial_os.Relay.Envelope.{OutboxEnvelope}

-- SELECT … FROM journal_entries WHERE id = $1 LIMIT 1
abbrev pub find_entry : ℕ → List EntryRow → Option EntryRow
find_entry id [] = none
find_entry id (e ∷ es) = if nat_beq e.id id then some e else find_entry id es

-- SELECT … FROM journal_lines WHERE entry_id = $1
abbrev pub entry_lines : ℕ → List LineRow → List LineRow
entry_lines id [] = []
entry_lines id (l ∷ ls) = if nat_beq l.entry_id id then l ∷ entry_lines id ls else entry_lines id ls

-- `totalDebit` and `totalCredit`, doubles: the loop, from what is added up so far.
abbrev pub added : DebitCredit → DebitCredit → ℕ → ℕ → ℕ
added debit debit total amt = double_add total amt
added debit credit total amt = total
added credit debit total amt = total
added credit credit total amt = double_add total amt

abbrev pub lines_total : DebitCredit → List LineRow → ℕ → ℕ
lines_total k [] total = total
lines_total k (l ∷ ls) total = lines_total k ls (added k l.direction total (amount_double l.amount))

-- SELECT entry_id FROM ledger_projection WHERE entry_id = $1 LIMIT 1
abbrev pub is_projected : ℕ → List ProjectionRow → Bool
is_projected id [] = false
is_projected id (p ∷ ps) = if nat_beq p.entry_id id then true else is_projected id ps

-- `debitDelta` and `creditDelta`, as the columns take them; `netDelta` is their difference, which is
-- exact, since one of the two is 0.
abbrev pub delta : DebitCredit → LineRow → ℕ
delta k l = part k l.direction (carried l.amount)

-- INSERT INTO account_balances … ON CONFLICT (tenant_id, account_id) DO UPDATE, for one line: the
-- currency of a row that is there stays.
abbrev pub is_row_of : Text → ℕ → BalanceRow → Bool
is_row_of tenant account r = r.tenant_id == tenant && nat_beq r.account_id account

abbrev pub new_balance : LineRow → BalanceRow
new_balance l = record {
  tenant_id = l.tenant_id;
  account_id = l.account_id;
  currency = l.currency;
  debit_total = delta debit l;
  credit_total = delta credit l;
  net_balance = pos (delta debit l) -ℤ pos (delta credit l);
}

abbrev pub raised_balance : LineRow → BalanceRow → BalanceRow
raised_balance l r = record r {
  debit_total = r.debit_total + delta debit l;
  credit_total = r.credit_total + delta credit l;
  net_balance = r.net_balance +ℤ (pos (delta debit l) -ℤ pos (delta credit l));
}

unfoldable pub upsert : LineRow → List BalanceRow → List BalanceRow
upsert l [] = new_balance l ∷ []
upsert l (r ∷ rs) =
    if is_row_of l.tenant_id l.account_id r then raised_balance l r ∷ rs else r ∷ upsert l rs

abbrev pub projection_row : ℕ → EntryRow → List LineRow → ProjectionRow
projection_row id entry lines = record {
  entry_id = id;
  tenant_id = entry.tenant_id;
  description = entry.description;
  lines_count = length lines;
  total_debit = to_numeric (lines_total debit lines 0);
  total_credit = to_numeric (lines_total credit lines 0);
}

-- INSERT INTO ledger_projection … ON CONFLICT (entry_id) DO NOTHING RETURNING entry_id: whether a
-- row was inserted.
abbrev pub store_projection :
    ℕ → EntryRow → List LineRow → Database → SqlResult (Bool × Database × List ℕ)
store_projection id entry lines db =
    if is_projected id db.projections
    then done (false, db, [])
    else done
        (true, record db { projections = db.projections ++ projection_row id entry lines ∷ [] }, [])

module _ (faults : Faults) where
  pub select_projection : ℕ → Action Bool
  select_projection id = statement faults (λ db. done (is_projected id db.projections, db, []))

  pub insert_projection : ℕ → EntryRow → List LineRow → Action Bool
  insert_projection id entry lines = statement faults (store_projection id entry lines)

  pub upsert_balance : LineRow → Action (Unit {0})
  upsert_balance l =
      statement faults (λ db. done (tt, record db { balances = upsert l db.balances }, []))

  pub upsert_balances : List LineRow → Action (Unit {0})
  upsert_balances [] = pure tt
  upsert_balances (l ∷ ls) = do upsert_balance l; upsert_balances ls

  -- What follows the INSERT: a concurrent worker was first, or the balances are brought up to date.
  pub after_insert : List LineRow → Bool → Action Bool
  after_insert lines false = do rollback faults; pure true
  after_insert lines true = do upsert_balances lines; commit faults; pure true

  pub after_guard : ℕ → EntryRow → List LineRow → Bool → Action Bool
  after_guard id entry lines true = do rollback faults; pure true
  after_guard id entry lines false = do
    inserted ← insert_projection id entry lines
    after_insert lines inserted

  -- The body of the `try`.
  pub project_body : ℕ → EntryRow → List LineRow → Action Bool
  project_body id entry lines = do
    begin faults
    existing ← select_projection id
    after_guard id entry lines existing

  -- `catch`, which throws again, and `finally`.
  abbrev pub settle : Outcome Bool × Session → Outcome Bool × Session
  settle (value b, s) = (value b, release s)
  settle (throw e, s) = (throw e, release (rollback faults s).1)

  pub project_entry : ℕ → Option EntryRow → Action Bool
  project_entry id none = pure false
  project_entry id (some entry) = query faults (λ db. entry_lines id db.lines) >>= λ lines s.
      settle (project_body id entry lines s)

  pub project_aggregate : Option ℕ → Action Bool
  project_aggregate none = pure false
  project_aggregate (some id) = query faults (λ db. find_entry id db.entries) >>= project_entry id

  pub project : OutboxEnvelope → Action Bool
  project envelope =
      if envelope.event_type == text "journal_entry.posted"
      then project_aggregate envelope.aggregate_id
      else pure false
