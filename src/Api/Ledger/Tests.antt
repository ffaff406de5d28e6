-- ===== src/Api/Ledger/Tests.antt =====
-- Concrete runs of apps/api/src/ledger/ledger.service.ts on a database of two accounts.
use adaptive_financial_os.Common.{
  arith, All, ℕ, nat_beq, if◌then◌else◌, ◌+◌, ◌≡◌, refl, Text, text, ◌+ℤ◌, Option, none, some, [],
  ◌∷◌, length, true, false, text_beq, text_eq,
}
use adaptive_financial_os.Common.BigInt.{
  big_int, trim, trim_start, parse_numeral, numeral, digits_from,
}
use adaptive_financial_os.Core.Types.{DebitCredit, debit, credit}
use adaptive_financial_os.Db.{Database, AccountRow, other_error}
use adaptive_financial_os.Db.Session.{
  no_faults, lose_answer, Faults, Session, begin, statement, commit,
}
use adaptive_financial_os.Relay.Projection.Reflects.{AreSmall}
use adaptive_financial_os.Api.Ledger.{
  JournalLineDto, PostEntryDto, posted, internal_server_error, validate_balance, sum_lines,
  set_tenant, select_key, insert_entry, select_account, insert_line, insert_key, insert_event,
  post_line, post_lines, post_new, post_or_cached, post_body, post_checked, post_entry,
}
use adaptive_financial_os.Api.Ledger.Spec.{Fulfils}
use adaptive_financial_os.Api.Ledger.Atomic.{post_entry-atomic}
use adaptive_financial_os.Api.Ledger.Balanced.{IsBalanced, post_entry-IsBalanced}
use adaptive_financial_os.Api.Ledger.Retry.{post_entry-retry}
use adaptive_financial_os.Api.Ledger.Succeeds.{IsInOrder}
use adaptive_financial_os.Api.Ledger.Posted.{post_entry-succeeds}

abbrev pub account : ℕ → Text → AccountRow
account id code = record {
  id = id;
  tenant_id = text "t1";
  code = code;
  name = code;
  currency = text "EUR";
}

abbrev pub start : Database
start = record {
  accounts = account 1 (text "cash") ∷ account 2 (text "sales") ∷ [];
  entries = [];
  lines = [];
  keys = [];
  outbox = [];
  projections = [];
  balances = [];
}

abbrev pub idle : Session
idle = record { committed = start; work = start; touched = []; count = 0 }

-- An amount is read as a fixed one, and the ids count the rows.
abbrev pub numeric_in : Text → Option ℕ
numeric_in s = some 2500000

abbrev pub new_id : Database → ℕ
new_id db = 10 + length db.entries

-- COMMIT is statement 10; its answer is lost.
abbrev commit_lost : Faults
commit_lost n = if nat_beq n 10 then some (lose_answer other_error) else none

abbrev dto_line : Text → DebitCredit → JournalLineDto
dto_line code side = record {
  account_code = code;
  amount = text "250";
  direction = side;
  currency = text "EUR";
}

abbrev pub request : PostEntryDto
request = record {
  idempotency_key = text "k1";
  tenant_id = text "t1";
  description = text "sale";
  occurred_at = none;
  lines = dto_line (text "cash") debit ∷ dto_line (text "sales") credit ∷ [];
}

pub request-posted : (post_entry no_faults numeric_in new_id request idle).0 ≡ posted 10 false
unfolding post_entry post_checked validate_balance sum_lines post_body begin statement set_tenant
    select_key post_or_cached post_new insert_entry post_lines select_account post_line insert_line
    insert_key insert_event commit text_beq ◌+ℤ◌ big_int trim trim_start parse_numeral numeral
    digits_from
request-posted = refl

pub request-small : AreSmall (post_entry no_faults numeric_in new_id request idle).1.committed.lines
unfolding post_entry post_checked validate_balance sum_lines post_body begin statement set_tenant
    select_key post_or_cached post_new insert_entry post_lines select_account post_line insert_line
    insert_key insert_event commit text_beq ◌+ℤ◌ big_int trim trim_start parse_numeral numeral
    digits_from
request-small = omega arith

request-lost : (post_entry commit_lost numeric_in new_id request idle).0 ≡ internal_server_error
unfolding post_entry post_checked validate_balance sum_lines post_body begin statement set_tenant
    select_key post_or_cached post_new insert_entry post_lines select_account post_line insert_line
    insert_key insert_event commit text_beq ◌+ℤ◌ big_int trim trim_start parse_numeral numeral
    digits_from
request-lost = refl

-- The line's account is not there: the exception is caught, and the answer is an internal error.
abbrev unknown_account : PostEntryDto
unknown_account = record request {
  lines = dto_line (text "cash") debit ∷ dto_line (text "tax") credit ∷ [];
}

unknown_account-internal :
    (post_entry no_faults numeric_in new_id unknown_account idle).0 ≡ internal_server_error
unfolding post_entry post_checked validate_balance sum_lines post_body begin statement set_tenant
    select_key post_or_cached post_new insert_entry post_lines select_account post_line insert_line
    insert_key insert_event commit text_beq ◌+ℤ◌ big_int trim trim_start parse_numeral numeral
    digits_from
unknown_account-internal = refl

request-balances : validate_balance request ≡ none
unfolding validate_balance sum_lines ◌+ℤ◌ big_int trim trim_start parse_numeral numeral digits_from
request-balances = refl

start-IsBalanced : IsBalanced start
start-IsBalanced id = refl

post_entry-atomic_example :
    Fulfils numeric_in request start
      (post_entry commit_lost numeric_in new_id request idle).0
      (post_entry commit_lost numeric_in new_id request idle).1.committed
post_entry-atomic_example = post_entry-atomic commit_lost numeric_in new_id request idle

post_entry-IsBalanced_example :
    IsBalanced (post_entry no_faults numeric_in new_id request idle).1.committed
post_entry-IsBalanced_example =
    post_entry-IsBalanced no_faults numeric_in new_id request idle start-IsBalanced

post_entry-retry_example :
    ((post_entry no_faults numeric_in new_id request
        (post_entry no_faults numeric_in new_id request idle).1).0
      ≡ posted 10 true)
    × ((post_entry no_faults numeric_in new_id request
          (post_entry no_faults numeric_in new_id request idle).1).1.committed
        ≡ (post_entry no_faults numeric_in new_id request idle).1.committed)
post_entry-retry_example =
    post_entry-retry numeric_in new_id no_faults request request idle 10 false request-posted refl
      refl request-balances

request-IsInOrder : All (IsInOrder numeric_in start.accounts (text "t1")) request.lines
unfolding text_beq big_int trim trim_start parse_numeral numeral digits_from
request-IsInOrder = (
  record {
    account_id = 1;
    account = refl;
    whole = refl;
    rest = 2499999;
    numeric = refl;
    scaled = refl;
  },
  (
    record {
      account_id = 2;
      account = refl;
      whole = refl;
      rest = 2499999;
      numeric = refl;
      scaled = refl;
    },
    tt,
  ),
)

post_entry-succeeds_example :
    (post_entry no_faults numeric_in new_id request idle).0 ≡ posted 10 false
post_entry-succeeds_example =
    post_entry-succeeds numeric_in new_id request idle start-IsBalanced refl request-balances refl
      request-IsInOrder
