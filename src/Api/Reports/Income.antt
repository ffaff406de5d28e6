-- ===== src/Api/Reports/Income.antt =====
-- apps/api/src/ledger/reports.service.ts: `incomeStatement`. When an entry occurred, which moment a
-- text stands for and what the clock says are parameters, as are the collation of the codes and the
-- text of a value of type NUMERIC(20,4).
pub mod Sums
pub mod Lost
use Prim.Native.Nat.{Ordering}
use adaptive_financial_os.Common.{
  ℕ, ◌+◌, Text, text, is_empty, ℤ, pos, ◌+ℤ◌, ◌-ℤ◌, Option, none, some, List, [], ◌∷◌, ◌++◌, keep,
  Bool, true, false, ◌&&◌, ◌||◌, nat_beq, leb, ◌==◌, text_eq, if◌then◌else◌,
}
use adaptive_financial_os.Common.Sort.{sort}
use adaptive_financial_os.Core.Types.{Result, ok, err, ◌>>=◌, DebitCredit, debit, credit}
use adaptive_financial_os.Db.{Database, AccountRow, EntryRow, LineRow, part}
use adaptive_financial_os.Api.Reports.{to_bigint, starts_with}

-- SUM(CASE WHEN jl.direction = … THEN jl.amount ELSE 0 END)
abbrev pub group_sum : DebitCredit → List LineRow → ℕ
group_sum k [] = 0
group_sum k (l ∷ ls) = part k l.direction l.amount + group_sum k ls

pub record IncomeRow : Type 0 where
  pub account_code : Text
  pub account_name : Text
  pub currency : Text
  pub debit_total : Text
  pub credit_total : Text
  pub net_balance : Text

pub record IncomeStatement : Type 0 where
  pub tenant_id : Text
  pub from_date : Text
  pub to_date : Text
  pub revenue : List IncomeRow
  pub expenses : List IncomeRow
  pub total_revenue : ℤ
  pub total_expenses : ℤ
  pub net_income : ℤ

-- `dateFilter`
pub data DateFilter : Type 0 where
  unfiltered : DateFilter
  since : ℕ → DateFilter
  within : ℕ → ℕ → DateFilter

-- `from && to`, of texts that may be missing or empty.
abbrev pub given : Option Text → Option Text
given none = none
given (some s) = if is_empty s then none else some s

abbrev pub default_to : Text → Option Text → Text
default_to other none = other
default_to other (some s) = s

-- A `to` without a `from` filters nothing.
abbrev pub filter_of : (Text → ℕ) → Option Text → Option Text → DateFilter
filter_of time_of (some a) (some b) = within (time_of a) (time_of b)
filter_of time_of (some a) none = since (time_of a)
filter_of time_of none o = unfiltered

-- The WHERE on `je.occurred_at`, which is NULL for a line without an entry.
abbrev pub passes : DateFilter → Option ℕ → Bool
passes unfiltered o = true
passes (since a) none = false
passes (since a) (some t) = leb a t
passes (within a b) none = false
passes (within a b) (some t) = leb a t && leb t b

-- SUM(CASE WHEN jl.direction = … THEN jl.amount ELSE 0 END): without a row of the direction it is a
-- sum of integers.
abbrev pub has_side : DebitCredit → List LineRow → Bool
has_side k [] = false
has_side debit (l ∷ ls) = elim l.direction [ debit ↦ true | credit ↦ has_side debit ls ]
has_side credit (l ∷ ls) = elim l.direction [ debit ↦ has_side credit ls | credit ↦ true ]

-- `revenue` and `expenses`
abbrev pub income_starts : ℕ → IncomeRow → Bool
income_starts c row = starts_with c row.account_code

abbrev pub side_text : DebitCredit → IncomeRow → Text
side_text debit row = row.debit_total
side_text credit row = row.credit_total

-- `sumDebit` and `sumCredit`
unfoldable pub sum_side : DebitCredit → ℤ → List IncomeRow → Result ℤ
sum_side k acc [] = ok acc
sum_side k acc (row ∷ rows) = to_bigint (side_text k row) >>= λ n. sum_side k (acc +ℤ n) rows

module _ (collate : Text → Text → Ordering) (numeric_text : ℤ → Text) (time_of : Text → ℕ)
    (occurred_at : EntryRow → ℕ) where
  -- LEFT JOIN journal_entries, by its primary key.
  abbrev pub moment_of : Text → ℕ → List EntryRow → Option ℕ
  moment_of tenant id [] = none
  moment_of tenant id (e ∷ entries) =
      if nat_beq e.id id && e.tenant_id == tenant
      then some (occurred_at e)
      else moment_of tenant id entries

  -- LEFT JOIN journal_lines, with the WHERE.
  abbrev pub lines_in : Text → DateFilter → Database → AccountRow → List LineRow
  lines_in tenant date_filter db a =
      keep
        (λ l.
          nat_beq l.account_id a.id
          && l.tenant_id == tenant
          && passes date_filter (moment_of tenant l.entry_id db.entries))
        db.lines

  abbrev pub total_text : DebitCredit → List LineRow → Text
  total_text k ls = if has_side k ls then numeric_text (pos (group_sum k ls)) else text "0"

  abbrev pub net_text : List LineRow → Text
  net_text [] = text "0"
  net_text (l ∷ ls) =
      numeric_text (pos (group_sum debit (l ∷ ls)) -ℤ pos (group_sum credit (l ∷ ls)))

  abbrev pub income_row : AccountRow → List LineRow → IncomeRow
  income_row a ls = record {
    account_code = a.code;
    account_name = a.name;
    currency = a.currency;
    debit_total = total_text debit ls;
    credit_total = total_text credit ls;
    net_balance = net_text ls;
  }

  -- The group of an account: without a line it has the row of the LEFT JOIN, which a WHERE on the
  -- entry takes away.
  abbrev pub group : DateFilter → AccountRow → List LineRow → List IncomeRow
  group date_filter a (l ∷ ls) = income_row a (l ∷ ls) ∷ []
  group unfiltered a [] = income_row a [] ∷ []
  group (since t) a [] = []
  group (within t u) a [] = []

  abbrev pub is_reported : Text → AccountRow → Bool
  is_reported tenant a =
      a.tenant_id == tenant && (starts_with b'4' a.code || starts_with b'5' a.code)

  unfoldable pub income_rows : Text → DateFilter → Database → List AccountRow → List IncomeRow
  income_rows tenant date_filter db [] = []
  income_rows tenant date_filter db (a ∷ accounts) =
      (if is_reported tenant a then group date_filter a (lines_in tenant date_filter db a) else [])
      ++ income_rows tenant date_filter db accounts

  -- The SELECT, with its ORDER BY.
  abbrev pub select_income : Text → DateFilter → Database → List IncomeRow
  select_income tenant date_filter db =
      sort (λ (a b : IncomeRow). collate a.account_code b.account_code)
        (income_rows tenant date_filter db db.accounts)

  unfoldable pub income_statement :
      Text → Text → Text → Option Text → Option Text → Database → Result IncomeStatement
  income_statement year_start now tenant from_date to_date db = do
    let rows = select_income tenant (filter_of time_of (given from_date) (given to_date)) db
    let revenue = keep (income_starts b'4') rows
    let expenses = keep (income_starts b'5') rows
    total_revenue ← sum_side credit (pos 0) revenue
    total_expenses ← sum_side debit (pos 0) expenses
    ok (record {
      tenant_id = tenant;
      from_date = default_to year_start (given from_date);
      to_date = default_to now (given to_date);
      revenue = revenue;
      expenses = expenses;
      total_revenue = total_revenue;
      total_expenses = total_expenses;
      net_income = total_revenue -ℤ total_expenses;
    })
