-- ===== src/Api/Reports.antt =====
-- apps/api/src/ledger/reports.service.ts: `trialBalance`, `balanceSheet` and `accountHierarchy`. Of
-- PostgreSQL are parameters the collation of the codes and the text that a value of type
-- NUMERIC(20,4) is answered as, here from its ten-thousandths. A total is kept as the number that
-- its text stands for. A SELECT that fails answers its error and changes nothing.
pub mod Totals
pub mod Throws
pub mod Sheet
pub mod Hierarchy
pub mod Income
pub mod Tests
use Prim.Native.Nat.{Ordering}
use adaptive_financial_os.Common.{
  ℕ, Text, text, ℤ, pos, negsuc, ◌+ℤ◌, ◌-ℤ◌, ltb_ℤ, eqb_ℤ, Option, none, some, List, [], ◌∷◌, keep,
  Bool, true, false, not, nat_beq, ◌==◌, text_eq, if◌then◌else◌,
}
use adaptive_financial_os.Common.BigInt.{big_int}
use adaptive_financial_os.Common.Sort.{sort}
use adaptive_financial_os.Core.Types.{
  Result, ok, err, ◌>>=◌, syntax_error, DebitCredit, debit, credit,
}
use adaptive_financial_os.Db.{Database, AccountRow, BalanceRow}
use adaptive_financial_os.Relay.Projection.{is_row_of}

pub record TrialBalanceRow : Type 0 where
  pub account_code : Text
  pub account_name : Text
  pub currency : Text
  pub debit_total : Text
  pub credit_total : Text
  pub net_balance : Text
  pub debit_or_credit : DebitCredit

pub record TrialBalance : Type 0 where
  pub rows : List TrialBalanceRow
  pub total_debit : ℤ
  pub total_credit : ℤ
  pub balanced : Bool

pub record BalanceSheet : Type 0 where
  pub tenant_id : Text
  pub assets : List TrialBalanceRow
  pub liabilities : List TrialBalanceRow
  pub equity : List TrialBalanceRow
  pub total_assets : ℤ
  pub total_liabilities : ℤ
  pub total_equity : ℤ
  pub balanced : Bool

-- The row of account_balances that the LEFT JOIN finds; its primary key leaves at most one.
abbrev pub find_balance : Text → ℕ → List BalanceRow → Option BalanceRow
find_balance tenant account [] = none
find_balance tenant account (r ∷ rs) =
    if is_row_of tenant account r then some r else find_balance tenant account rs

-- `BigInt(s)`, throwing.
abbrev pub read : Option ℤ → Result ℤ
read none = err syntax_error
read (some n) = ok n

abbrev pub to_bigint : Text → Result ℤ
to_bigint s = read (big_int s)

-- The loop of `trialBalance`: a net balance of either sign is added to its total.
abbrev pub add_net : ℤ → ℤ × ℤ → ℤ × ℤ
add_net net (d, c) = if ltb_ℤ net (pos 0) then (d, c +ℤ (pos 0 -ℤ net)) else (d +ℤ net, c)

unfoldable pub sum_nets : ℤ × ℤ → List TrialBalanceRow → Result (ℤ × ℤ)
sum_nets totals [] = ok totals
sum_nets totals (row ∷ rows) =
    to_bigint row.net_balance >>= λ net. sum_nets (add_net net totals) rows

-- `row.account_code.startsWith(…)` with one unit.
abbrev pub starts_with : ℕ → Text → Bool
starts_with c [] = false
starts_with c (d ∷ s) = nat_beq d c

abbrev pub code_starts : ℕ → TrialBalanceRow → Bool
code_starts c row = starts_with c row.account_code

-- `sum` of `balanceSheet`
unfoldable pub sum_from : ℤ → List TrialBalanceRow → Result ℤ
sum_from acc [] = ok acc
sum_from acc (r ∷ rows) = to_bigint r.net_balance >>= λ net. sum_from (acc +ℤ net) rows

module _ (collate : Text → Text → Ordering) (numeric_text : ℤ → Text) where
  -- The row of an account without a balance has `COALESCE(…, 0)`, which is answered as `0`.
  abbrev pub joined : AccountRow → Option BalanceRow → TrialBalanceRow
  joined a none = record {
    account_code = a.code;
    account_name = a.name;
    currency = a.currency;
    debit_total = text "0";
    credit_total = text "0";
    net_balance = text "0";
    debit_or_credit = debit;
  }
  joined a (some r) = record {
    account_code = a.code;
    account_name = a.name;
    currency = r.currency;
    debit_total = numeric_text (pos r.debit_total);
    credit_total = numeric_text (pos r.credit_total);
    net_balance = numeric_text r.net_balance;
    debit_or_credit = if ltb_ℤ r.net_balance (pos 0) then credit else debit;
  }

  unfoldable pub joined_rows : Text → List BalanceRow → List AccountRow → List TrialBalanceRow
  joined_rows tenant balances [] = []
  joined_rows tenant balances (a ∷ accounts) =
      if a.tenant_id == tenant
      then joined a (find_balance tenant a.id balances) ∷ joined_rows tenant balances accounts
      else joined_rows tenant balances accounts

  -- The SELECT, with its ORDER BY.
  unfoldable pub select_rows : Text → Database → List TrialBalanceRow
  select_rows tenant db =
      sort (λ (a b : TrialBalanceRow). collate a.account_code b.account_code)
        (joined_rows tenant db.balances db.accounts)

  pub trial_balance : Text → Database → Result TrialBalance
  trial_balance tenant db = do
    let rows = select_rows tenant db
    totals ← sum_nets (pos 0, pos 0) rows
    ok (record {
      rows = rows;
      total_debit = totals.0;
      total_credit = totals.1;
      balanced = eqb_ℤ totals.0 totals.1;
    })

  pub balance_sheet : Text → Database → Result BalanceSheet
  balance_sheet tenant db = do
    tb ← trial_balance tenant db
    let assets = keep (code_starts b'1') tb.rows
    let liabilities = keep (code_starts b'2') tb.rows
    let equity = keep (code_starts b'3') tb.rows
    total_assets ← sum_from (pos 0) assets
    total_liabilities ← sum_from (pos 0) liabilities
    total_equity ← sum_from (pos 0) equity
    ok (record {
      tenant_id = tenant;
      assets = assets;
      liabilities = liabilities;
      equity = equity;
      total_assets = total_assets;
      total_liabilities = total_liabilities;
      total_equity = total_equity;
      balanced = eqb_ℤ total_assets (total_liabilities +ℤ total_equity);
    })
