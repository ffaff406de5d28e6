-- ===== src/Db.antt =====
-- The tables of db/migrations/0001_init.sql and 0002_projection.sql, and the SQL statements of the
-- services on them. A UUID is a number, since it is only compared. Timestamps are left out, but for
-- `published_at` and `processed_at`, of which is kept whether they are set. An amount of type
-- NUMERIC(20,4) is a number of ten-thousandths.
pub mod Session
pub mod Ensures
use adaptive_financial_os.Common.{
  ℕ, ◌+◌, Text, ℤ, Option, none, some, List, [], ◌∷◌, Bool, true, false, ◌&&◌, nat_beq, ◌==◌,
  text_eq, if◌then◌else◌,
}
use adaptive_financial_os.Core.Types.{DebitCredit, debit, credit}

pub record AccountRow : Type 0 where
  pub id : ℕ
  pub tenant_id : Text
  pub code : Text
  pub name : Text
  pub currency : Text

pub record EntryRow : Type 0 where
  pub id : ℕ
  pub tenant_id : Text
  pub description : Text

pub record LineRow : Type 0 where
  pub tenant_id : Text
  pub entry_id : ℕ
  pub account_id : ℕ
  pub amount : ℕ
  pub direction : DebitCredit
  pub currency : Text

pub record KeyRow : Type 0 where
  pub tenant_id : Text
  pub key : Text
  pub entry_id : ℕ

-- The values of the column `status`.
pub data Status : Type 0 where
  pending published dead_letter : Status

-- The column `payload` of an event: what `postEntry` writes, or any other document.
pub data Payload : Type 0 where
  posted_payload : ℕ → Text → ℕ → Payload
  other_payload : Payload

pub record EventRow : Type 0 where
  pub id : ℕ
  pub tenant_id : Option Text
  pub aggregate_type : Text
  pub aggregate_id : Option ℕ
  pub status : Status
  pub event_type : Text
  pub payload : Payload
  pub is_published : Bool
  pub is_processed : Bool

pub record ProjectionRow : Type 0 where
  pub entry_id : ℕ
  pub tenant_id : Text
  pub description : Text
  pub lines_count : ℕ
  pub total_debit : ℕ
  pub total_credit : ℕ

pub record BalanceRow : Type 0 where
  pub tenant_id : Text
  pub account_id : ℕ
  pub currency : Text
  pub debit_total : ℕ
  pub credit_total : ℕ
  pub net_balance : ℤ

pub record Database : Type 0 where
  pub accounts : List AccountRow
  pub entries : List EntryRow
  pub lines : List LineRow
  pub keys : List KeyRow
  pub outbox : List EventRow
  pub projections : List ProjectionRow
  pub balances : List BalanceRow

-- What a statement raises: SQLSTATE 23505, 42P01, or any other.
pub data SqlError : Type 0 where
  unique_violation undefined_table other_error : SqlError

pub data SqlResult {ℓ} (A : Type ℓ) : Type ℓ where
  done : A → SqlResult A
  raised : SqlError → SqlResult A

-- SELECT entry_id FROM idempotency_keys WHERE tenant_id = $1 AND key = $2 LIMIT 1
abbrev pub find_key : Text → Text → List KeyRow → Option ℕ
find_key tenant key [] = none
find_key tenant key (r ∷ rs) =
    if r.tenant_id == tenant && r.key == key then some r.entry_id else find_key tenant key rs

-- The primary key of journal_entries, as an INSERT tests it.
abbrev pub is_entry : ℕ → List EntryRow → Bool
is_entry id [] = false
is_entry id (e ∷ es) = if nat_beq e.id id then true else is_entry id es

-- SELECT id FROM accounts WHERE tenant_id = $1 AND code = $2 LIMIT 1
abbrev pub find_account : Text → Text → List AccountRow → Option ℕ
find_account tenant code [] = none
find_account tenant code (r ∷ rs) =
    if r.tenant_id == tenant && r.code == code then some r.id else find_account tenant code rs

-- `SUM(amount) FILTER (WHERE direction = …)`, of one row.
abbrev pub part : DebitCredit → DebitCredit → ℕ → ℕ
part debit debit n = n
part debit credit n = 0
part credit debit n = 0
part credit credit n = n

-- The sum of the lines of an entry on a side, as the trigger's SELECT computes it.
abbrev pub entry_total : DebitCredit → ℕ → List LineRow → ℕ
entry_total k id [] = 0
entry_total k id (r ∷ rs) =
    (if nat_beq r.entry_id id then part k r.direction r.amount else 0) + entry_total k id rs

-- `enforce_balanced_entry`, for the rows that a transaction has inserted.
abbrev pub balanced_entries : List ℕ → List LineRow → Bool
balanced_entries [] lines = true
balanced_entries (id ∷ ids) lines =
    nat_beq (entry_total debit id lines) (entry_total credit id lines) && balanced_entries ids lines
