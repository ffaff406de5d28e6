-- ===== src/Api/Reports/Tests.antt =====
-- Concrete reports of apps/api/src/ledger/reports.service.ts, on books that hold one sale of a
-- share: cash against equity.
use Prim.Native.Nat.{Ordering}
use adaptive_financial_os.Common.{
  keep, ℕ, ◌≡◌, ◌↔◌, refl, Text, text, ℤ, pos, negsuc, ◌+ℤ◌, ◌-ℤ◌, eqb_ℤ, none, List, [], ◌∷◌, All,
  true, false, inl, inr, text_beq, text_eq,
}
use adaptive_financial_os.Common.BigInt.{
  big_int, trim, trim_start, parse_numeral, numeral, digits_from,
}
use adaptive_financial_os.Common.Sort.{sort}
use adaptive_financial_os.Core.Types.{ok, err, syntax_error, debit, credit}
use adaptive_financial_os.Db.{Database, AccountRow, BalanceRow}
use adaptive_financial_os.Api.Reports.{
  code_starts, TrialBalanceRow, TrialBalance, BalanceSheet, sum_nets, sum_from, joined_rows,
  select_rows, trial_balance, balance_sheet,
}
use adaptive_financial_os.Api.Reports.Totals.{nets_sum, trial_balance-totals}
use adaptive_financial_os.Api.Reports.Throws.{has_balance, trial_balance-throws}
use adaptive_financial_os.Api.Reports.Sheet.{
  OnSheet, of_code, balance_sheet-totals, balance_sheet-sign,
}
use adaptive_financial_os.Api.Reports.Income.{income_statement}
use adaptive_financial_os.Api.Reports.Income.Lost.{income_statement-lost}
use adaptive_financial_os.Api.Reports.Hierarchy.{
  Hierarchy, account_hierarchy, account_hierarchy-groups,
}

abbrev account : ℕ → Text → AccountRow
account id code = record {
  id = id;
  tenant_id = text "t1";
  code = code;
  name = code;
  currency = text "EUR";
}

abbrev cash : BalanceRow
cash = record {
  tenant_id = text "t1";
  account_id = 1;
  currency = text "EUR";
  debit_total = 250000;
  credit_total = 0;
  net_balance = pos 250000;
}

abbrev share : BalanceRow
share = record {
  tenant_id = text "t1";
  account_id = 3;
  currency = text "EUR";
  debit_total = 0;
  credit_total = 250000;
  net_balance = negsuc 249999;
}

abbrev books : Database
books = record {
  accounts = account 1 (text "100") ∷ account 3 (text "300") ∷ [];
  entries = [];
  lines = [];
  keys = [];
  outbox = [];
  projections = [];
  balances = cash ∷ share ∷ [];
}

abbrev in_place : Text → Text → Ordering
in_place a b = Ordering.eq

-- The columns as PostgreSQL answers them, with four decimals.
abbrev with_decimals : ℤ → Text
with_decimals (pos n) = text "25.0000"
with_decimals (negsuc n) = text "-25.0000"

-- The columns as `BigInt` would read them.
abbrev without_decimals : ℤ → Text
without_decimals (pos n) = text "25"
without_decimals (negsuc n) = text "-25"

with_decimals-unread : (n : ℤ) → big_int (with_decimals n) ≡ none
unfolding big_int trim trim_start parse_numeral numeral digits_from
with_decimals-unread (pos n) = refl
with_decimals-unread (negsuc n) = refl

trial_balance-throws_example :
    ((has_balance (text "t1") books.balances books.accounts ≡ true)
      → trial_balance in_place with_decimals (text "t1") books ≡ err syntax_error)
    × ((has_balance (text "t1") books.balances books.accounts ≡ false)
        → trial_balance in_place with_decimals (text "t1") books
          ≡ ok (record {
            rows = select_rows in_place with_decimals (text "t1") books;
            total_debit = pos 0;
            total_credit = pos 0;
            balanced = true;
          }))
trial_balance-throws_example =
    trial_balance-throws in_place with_decimals (text "t1") books with_decimals-unread

abbrev row : Text → Text → Text → Text → TrialBalanceRow
row code d c net = record {
  account_code = code;
  account_name = code;
  currency = text "EUR";
  debit_total = d;
  credit_total = c;
  net_balance = net;
  debit_or_credit = debit;
}

abbrev two_rows : List TrialBalanceRow
two_rows =
    row (text "100") (text "25") (text "25") (text "25")
    ∷ record (row (text "300") (text "25") (text "25") (text "-25")) { debit_or_credit = credit }
    ∷ []

abbrev books_balance : TrialBalance
books_balance = record {
  rows = two_rows;
  total_debit = pos 25;
  total_credit = pos 25;
  balanced = true;
}

books-trial : trial_balance in_place without_decimals (text "t1") books ≡ ok books_balance
unfolding trial_balance select_rows joined_rows sort sum_nets text_beq ◌+ℤ◌ ◌-ℤ◌ big_int trim
    trim_start parse_numeral numeral digits_from
books-trial = refl

trial_balance-totals_example :
    (books_balance.rows ≡ select_rows in_place without_decimals (text "t1") books)
    × (books_balance.total_debit -ℤ books_balance.total_credit ≡ nets_sum books_balance.rows)
    × ((books_balance.balanced ≡ true) ↔ (nets_sum books_balance.rows ≡ pos 0))
trial_balance-totals_example =
    trial_balance-totals in_place without_decimals (text "t1") books books_balance books-trial

abbrev books_sheet : BalanceSheet
books_sheet = record {
  tenant_id = text "t1";
  assets = of_code b'1' two_rows;
  liabilities = [];
  equity = of_code b'3' two_rows;
  total_assets = pos 25;
  total_liabilities = pos 0;
  total_equity = negsuc 24;
  balanced = false;
}

books-sheet : balance_sheet in_place without_decimals (text "t1") books ≡ ok books_sheet
unfolding balance_sheet trial_balance select_rows joined_rows sort sum_nets sum_from text_beq ◌+ℤ◌
    ◌-ℤ◌ big_int trim trim_start parse_numeral numeral digits_from
books-sheet = refl

books-OnSheet : All OnSheet (select_rows in_place without_decimals (text "t1") books)
unfolding select_rows joined_rows sort text_beq
books-OnSheet = (inl refl, (inr (inr refl), tt))

books-zero : nets_sum (select_rows in_place without_decimals (text "t1") books) ≡ pos 0
unfolding select_rows joined_rows sort text_beq ◌+ℤ◌ ◌-ℤ◌ big_int trim trim_start parse_numeral
    numeral digits_from
books-zero = refl

balance_sheet-totals_example :
    (tb : TrialBalance) × (trial_balance in_place without_decimals (text "t1") books ≡ ok tb)
    × (books_sheet.assets ≡ of_code b'1' tb.rows)
    × (books_sheet.total_assets ≡ nets_sum (of_code b'1' tb.rows))
    × (books_sheet.total_liabilities ≡ nets_sum (of_code b'2' tb.rows))
    × (books_sheet.total_equity ≡ nets_sum (of_code b'3' tb.rows))
    × (books_sheet.balanced
        ≡ eqb_ℤ books_sheet.total_assets
            (books_sheet.total_liabilities +ℤ books_sheet.total_equity))
balance_sheet-totals_example =
    balance_sheet-totals in_place without_decimals (text "t1") books books_sheet books-sheet

balance_sheet-sign_example : (books_sheet.balanced ≡ true) ↔ (books_sheet.total_assets ≡ pos 0)
balance_sheet-sign_example =
    balance_sheet-sign in_place without_decimals (text "t1") books books_sheet books-sheet
      books-OnSheet books-zero

account_hierarchy-groups_example :
    (h : Hierarchy) × (account_hierarchy in_place without_decimals (text "t1") books ≡ ok h)
    × (h.assets ≡ keep (code_starts b'1') two_rows)
    × (h.liabilities ≡ keep (code_starts b'2') two_rows)
    × (h.equity ≡ keep (code_starts b'3') two_rows)
    × (h.revenue ≡ keep (code_starts b'4') two_rows)
    × (h.expenses ≡ keep (code_starts b'5') two_rows)
account_hierarchy-groups_example =
    account_hierarchy-groups in_place without_decimals (text "t1") books books_balance books-trial

-- A sale: one line on the credit side of an account of revenue.
abbrev sales : Database
sales = record books {
  accounts = account 4 (text "400") ∷ [];
  entries = record { id = 10; tenant_id = text "t1"; description = text "sale" } ∷ [];
  lines =
      record {
        tenant_id = text "t1";
        entry_id = 10;
        account_id = 4;
        amount = 2500000;
        direction = credit;
        currency = text "EUR";
      }
      ∷ [];
}

income_statement-lost_example :
    income_statement in_place with_decimals
      (λ s. 0)
      (λ e. 5)
      (text "2026")
      (text "now")
      (text "t1")
      none
      none
      sales
    ≡ err syntax_error
unfolding text_beq
income_statement-lost_example =
    income_statement-lost in_place with_decimals (λ s. 0) (λ e. 5) (text "2026") (text "now")
      (text "t1") none none sales with_decimals-unread
