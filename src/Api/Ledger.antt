-- ===== src/Api/Ledger.antt =====
-- apps/api/src/ledger/ledger.service.ts: `postEntry` and `validateBalance`. Of PostgreSQL are
-- parameters how a text is read as NUMERIC(20,4), and the ids that `gen_random_uuid()` gives.
pub mod Steps
pub mod Spec
pub mod Stages
pub mod Atomic
pub mod Balanced
pub mod Retry
pub mod Succeeds
pub mod Posted
pub mod Tests
use adaptive_financial_os.Common.{
  ℕ, ◌+◌, zero, suc, Text, text, ℤ, pos, ◌+ℤ◌, eqb_ℤ, Option, none, some, List, [], ◌∷◌, ◌++◌,
  length, Bool, true, false, not, nat_beq, if◌then◌else◌,
}
use adaptive_financial_os.Common.BigInt.{big_int}
use adaptive_financial_os.Core.Types.{DebitCredit, debit, credit}
use adaptive_financial_os.Db.{
  Database, EntryRow, LineRow, KeyRow, EventRow, Status, Payload, posted_payload, SqlError,
  unique_violation, other_error, SqlResult, done, raised, find_key, is_entry, find_account,
}
use adaptive_financial_os.Db.Session.{
  Faults, Session, Thrown, sql, not_found_exception, Outcome, value, throw, Action, pure, fail,
  ◌>>=◌, ◌>>◌, statement, begin, rollback, commit, release,
}

-- apps/api/src/ledger/dto/post-entry.dto.ts
pub record JournalLineDto : Type 0 where
  pub account_code : Text
  pub amount : Text
  pub direction : DebitCredit
  pub currency : Text

pub record PostEntryDto : Type 0 where
  pub idempotency_key : Text
  pub tenant_id : Text
  pub description : Text
  pub occurred_at : Option Text
  pub lines : List JournalLineDto

-- The answer: the entry's id and whether it was there before, or the exception.
pub data Response : Type 0 where
  posted : ℕ → Bool → Response
  bad_request conflict internal_server_error : Response
  -- the `SyntaxError` of `BigInt`, thrown before the `try`
  uncaught : Response

-- `debits` and `credits` of `validateBalance`; `none` is the `SyntaxError`.
abbrev pub add_amount : DebitCredit → ℤ → ℤ × ℤ → ℤ × ℤ
add_amount debit n (d, c) = (d +ℤ n, c)
add_amount credit n (d, c) = (d, c +ℤ n)

unfoldable pub sum_lines : ℤ × ℤ → List JournalLineDto → Option (ℤ × ℤ)
sum_lines sums [] = some sums
sum_lines sums (l ∷ ls) = elim (big_int l.amount) [
  | none ↦ none
  | some n ↦ sum_lines (add_amount l.direction n sums) ls
]

-- `validateBalance`: `none` if it returns.
unfoldable pub validate_balance : PostEntryDto → Option Response
unfolding sum_lines
validate_balance dto = elim (sum_lines (pos 0, pos 0) dto.lines) [
  | none ↦ some uncaught
  | some (debits, credits) ↦ if eqb_ℤ debits credits then none else some bad_request
]

-- The `catch` of `postEntry`: only a database error has a `code`.
abbrev pub to_response : Thrown → Response
to_response (sql unique_violation) = conflict
to_response (sql e) = internal_server_error
to_response not_found_exception = internal_server_error

module _ (faults : Faults) (numeric_in : Text → Option ℕ) (new_id : Database → ℕ) where
  -- SELECT set_config('app.current_tenant', $1, true)
  pub set_tenant : Action (Unit {0})
  set_tenant = statement faults (λ db. done (tt, db, []))

  pub select_key : Text → Text → Action (Option ℕ)
  select_key tenant key = statement faults (λ db. done (find_key tenant key db.keys, db, []))

  -- INSERT INTO journal_entries … RETURNING id, with its PRIMARY KEY
  abbrev pub store_entry : Text → Text → ℕ → Database → SqlResult (ℕ × Database × List ℕ)
  store_entry tenant description id db =
      if is_entry id db.entries
      then raised unique_violation
      else done (
        id,
        record db {
          entries =
              db.entries ++ record { id = id; tenant_id = tenant; description = description } ∷ [];
        },
        [],
      )

  pub insert_entry : Text → Text → Action ℕ
  insert_entry tenant description =
      statement faults (λ db. store_entry tenant description (new_id db) db)

  pub select_account : Text → Text → Action (Option ℕ)
  select_account tenant code =
      statement faults (λ db. done (find_account tenant code db.accounts, db, []))

  -- INSERT INTO journal_lines, with CHECK (amount > 0)
  abbrev pub line_row : Text → ℕ → ℕ → JournalLineDto → ℕ → LineRow
  line_row tenant entry_id account_id l amount = record {
    tenant_id = tenant;
    entry_id = entry_id;
    account_id = account_id;
    amount = amount;
    direction = l.direction;
    currency = l.currency;
  }

  abbrev pub store_line :
      Text → ℕ → ℕ → JournalLineDto → Option ℕ → Database → SqlResult (Unit {0} × Database × List ℕ)
  store_line tenant entry_id account_id l none db = raised other_error
  store_line tenant entry_id account_id l (some zero) db = raised other_error
  store_line tenant entry_id account_id l (some (suc n)) db = done (
    tt,
    record db { lines = db.lines ++ line_row tenant entry_id account_id l (suc n) ∷ [] },
    entry_id ∷ [],
  )

  pub insert_line : Text → ℕ → ℕ → JournalLineDto → Action (Unit {0})
  insert_line tenant entry_id account_id l =
      statement faults (store_line tenant entry_id account_id l (numeric_in l.amount))

  -- INSERT INTO idempotency_keys, with PRIMARY KEY (tenant_id, key)
  abbrev pub store_key : Text → Text → ℕ → Database → SqlResult (Unit {0} × Database × List ℕ)
  store_key tenant key entry_id db = elim (find_key tenant key db.keys) [
    | none ↦ done (
      tt,
      record db {
        keys = db.keys ++ record { tenant_id = tenant; key = key; entry_id = entry_id } ∷ [];
      },
      [],
    )
    | some other ↦ raised unique_violation
  ]

  pub insert_key : Text → Text → ℕ → Action (Unit {0})
  insert_key tenant key entry_id = statement faults (store_key tenant key entry_id)

  -- INSERT INTO outbox_events
  abbrev pub event_row : Text → ℕ → Text → ℕ → Database → EventRow
  event_row tenant entry_id description lines_count db = record {
    id = new_id db;
    tenant_id = some tenant;
    aggregate_type = text "journal_entry";
    aggregate_id = some entry_id;
    status = Status.pending;
    event_type = text "journal_entry.posted";
    payload = posted_payload entry_id description lines_count;
    is_published = false;
    is_processed = false;
  }

  pub insert_event : Text → ℕ → Text → ℕ → Action (Unit {0})
  insert_event tenant entry_id description lines_count = statement faults (λ db. done (
    tt,
    record db { outbox = db.outbox ++ event_row tenant entry_id description lines_count db ∷ [] },
    [],
  ))

  -- The body of the loop, when the account has been looked up.
  pub post_line : Text → ℕ → JournalLineDto → Option ℕ → Action (Unit {0})
  post_line tenant entry_id l none = fail not_found_exception
  post_line tenant entry_id l (some account_id) = insert_line tenant entry_id account_id l

  -- The loop over the lines.
  pub post_lines : Text → ℕ → List JournalLineDto → Action (Unit {0})
  post_lines tenant entry_id [] = pure tt
  post_lines tenant entry_id (l ∷ ls) = do
    found ← select_account tenant l.account_code
    post_line tenant entry_id l found
    post_lines tenant entry_id ls

  -- What follows when the key is new.
  pub post_new : PostEntryDto → Action Response
  post_new dto = do
    entry_id ← insert_entry dto.tenant_id dto.description
    post_lines dto.tenant_id entry_id dto.lines
    insert_key dto.tenant_id dto.idempotency_key entry_id
    insert_event dto.tenant_id entry_id dto.description (length dto.lines)
    commit faults
    pure (posted entry_id false)

  -- What follows when it is not.
  pub post_existing : ℕ → Action Response
  post_existing entry_id = do rollback faults; pure (posted entry_id true)

  pub post_or_cached : PostEntryDto → Option ℕ → Action Response
  post_or_cached dto none = post_new dto
  post_or_cached dto (some entry_id) = post_existing entry_id

  -- The body of the `try`.
  pub post_body : PostEntryDto → Action Response
  post_body dto = do
    begin faults
    set_tenant
    existing ← select_key dto.tenant_id dto.idempotency_key
    post_or_cached dto existing

  -- `catch` and `finally`.
  abbrev pub handle : Outcome Response × Session → Response × Session
  handle (value r, s) = (r, release s)
  handle (throw e, s) = (to_response e, release (rollback faults s).1)

  -- What follows `validateBalance`: its exception, or the transaction.
  pub post_checked : PostEntryDto → Option Response → Session → Response × Session
  post_checked dto none s = handle (post_body dto s)
  post_checked dto (some refused) s = (refused, s)

  pub post_entry : PostEntryDto → Session → Response × Session
  post_entry dto s = post_checked dto (validate_balance dto) s
