-- ===== src/Api/Reports/Income/Lost.antt =====
-- `incomeStatement` throws as soon as there is income (apps/api/src/ledger/reports.service.ts): the
-- text of a sum of NUMERIC(20,4) has a point, which `BigInt` does not read.
use Prim.Native.Nat.{Ordering}
use adaptive_financial_os.Common.{
  ℕ, ◌≡◌, refl, Text, text, ℤ, pos, ◌-ℤ◌, Option, none, List, [], ◌∷◌, keep, All, All-append, Bool,
  true, false, ◌&&◌, ◌||◌, if◌then◌else◌, arith, Bool-cases, ◌⊎◌, inl, inr, text_eq,
}
use adaptive_financial_os.Common.BigInt.{big_int}
use adaptive_financial_os.Common.Sort.Any.{Any, sort-Any, sort-All_any}
use adaptive_financial_os.Core.Types.{ok, err, syntax_error, DebitCredit, debit, credit}
use adaptive_financial_os.Db.{Database, AccountRow, EntryRow, LineRow}
use adaptive_financial_os.Api.Reports.{starts_with}
use adaptive_financial_os.Api.Reports.Income.{
  group_sum, IncomeRow, DateFilter, unfiltered, since, within, given, default_to, filter_of,
  has_side, income_starts, side_text, sum_side, lines_in, income_row, group, is_reported,
  income_rows, select_income, income_statement,
}
use adaptive_financial_os.Common.Sort.Any.{Any-append_left, Any-append_right}
use adaptive_financial_os.Api.Reports.Income.Sums.{IsUnread, IsNil, sum_side-Any, sum_side-All}

module _ (collate : Text → Text → Ordering) (numeric_text : ℤ → Text) (time_of : Text → ℕ)
    (occurred_at : EntryRow → ℕ) where
  -- A line of the period on the side of an account with the code.
  abbrev pub any_side : ℕ → DebitCredit → Text → DateFilter → Database → List AccountRow → Bool
  any_side c k tenant date_filter db [] = false
  any_side c k tenant date_filter db (a ∷ accounts) =
      (is_reported collate numeric_text time_of occurred_at tenant a
        && starts_with c a.code
        && has_side k (lines_in collate numeric_text time_of occurred_at tenant date_filter db a))
      || any_side c k tenant date_filter db accounts

  module _ (c : ℕ) (k : DebitCredit) where
    text-IsUnread :
        (dotted : (n : ℤ) → big_int (numeric_text n) ≡ none) (a : AccountRow) (ls : List LineRow)
        → starts_with c a.code ≡ true
        → has_side k ls ≡ true
        → IsUnread c k (income_row collate numeric_text time_of occurred_at a ls)
    text-IsUnread dotted a ls s h = (
      s,
      elim k
            as (λ j.
              has_side j ls ≡ true
              → big_int (side_text j (income_row collate numeric_text time_of occurred_at a ls))
                ≡ none) [
                  | debit ↦ λ e. rw e (dotted (pos (group_sum debit ls)))
                  | credit ↦ λ e. rw e (dotted (pos (group_sum credit ls)))
                ]
          h,
    )

    text-IsNil :
        (a : AccountRow) (ls : List LineRow)
        → (starts_with c a.code ≡ false) ⊎ (has_side k ls ≡ false)
        → IsNil c k (income_row collate numeric_text time_of occurred_at a ls)
    text-IsNil a ls (inl s) = inl s
    text-IsNil a ls (inr h) = inr (
        elim k
            as (λ j.
              has_side j ls ≡ false
              → side_text j (income_row collate numeric_text time_of occurred_at a ls) ≡ text "0") [
                | debit ↦ λ e. rw e refl
                | credit ↦ λ e. rw e refl
              ]
          h)

    group-Any :
        (dotted : (n : ℤ) → big_int (numeric_text n) ≡ none) (date_filter : DateFilter)
        (a : AccountRow) (ls : List LineRow)
        → starts_with c a.code ≡ true
        → has_side k ls ≡ true
        → Any (IsUnread c k) (group collate numeric_text time_of occurred_at date_filter a ls)
    group-Any dotted date_filter a [] s h = cc
    group-Any dotted date_filter a (l ∷ ls) s h = inl (text-IsUnread dotted a (l ∷ ls) s h)

    group-All :
        (date_filter : DateFilter) (a : AccountRow) (ls : List LineRow)
        → (starts_with c a.code ≡ false) ⊎ (has_side k ls ≡ false)
        → All (IsNil c k) (group collate numeric_text time_of occurred_at date_filter a ls)
    group-All unfiltered a [] h = (text-IsNil a [] h, tt)
    group-All (since t) a [] h = tt
    group-All (within t u) a [] h = tt
    group-All date_filter a (l ∷ ls) h = (text-IsNil a (l ∷ ls) h, tt)

    module _ (tenant : Text) (date_filter : DateFilter) (db : Database) where
      abbrev lines_of : AccountRow → List LineRow
      lines_of a = lines_in collate numeric_text time_of occurred_at tenant date_filter db a

      abbrev rows_of : List AccountRow → List IncomeRow
      rows_of accounts =
          income_rows collate numeric_text time_of occurred_at tenant date_filter db accounts

      abbrev is_shown : AccountRow → Bool
      is_shown a = is_reported collate numeric_text time_of occurred_at tenant a

      income_rows-Any :
          (dotted : (n : ℤ) → big_int (numeric_text n) ≡ none) (accounts : List AccountRow)
          → any_side c k tenant date_filter db accounts ≡ true
          → Any (IsUnread c k) (rows_of accounts)
      unfolding income_rows
      income_rows-Any dotted [] h = cc
      income_rows-Any dotted (a ∷ accounts) h =
          elim (Bool-cases (is_shown a && starts_with c a.code && has_side k (lines_of a))) [
            | inl e ↦
                let shown : is_shown a ≡ true = ground (arith, e) in
                Any-append_left (IsUnread c k) _ (rows_of accounts) (
                  rw shown (
                    group-Any dotted date_filter a (lines_of a) (ground (arith, e))
                      (ground (arith, e))))
            | inr e ↦
                Any-append_right (IsUnread c k) _ (rows_of accounts)
                  (income_rows-Any dotted accounts (ground (arith, e, h)))
          ]

      income_rows-All :
          (accounts : List AccountRow)
          → any_side c k tenant date_filter db accounts ≡ false
          → All (IsNil c k) (rows_of accounts)
      unfolding income_rows
      income_rows-All [] h = tt
      income_rows-All (a ∷ accounts) h =
          All-append (IsNil c k) _ (rows_of accounts)
            (elim (Bool-cases (is_shown a)) [
              | inl e ↦
                  let no : (starts_with c a.code ≡ false) ⊎ (has_side k (lines_of a) ≡ false) =
                    elim (Bool-cases (starts_with c a.code)) [
                      | inl s ↦ inr (ground (arith, e, s, h))
                      | inr s ↦ inl s
                    ] in
                  rw e (group-All date_filter a (lines_of a) no)
              | inr e ↦ rw e tt
            ])
            (income_rows-All accounts (ground (arith, h)))

      abbrev sorted_rows : List IncomeRow
      sorted_rows = select_income collate numeric_text time_of occurred_at tenant date_filter db

      sum_side-lost :
          (dotted : (n : ℤ) → big_int (numeric_text n) ≡ none)
          → sum_side k (pos 0) (keep (income_starts c) sorted_rows) ≡ (
              if any_side c k tenant date_filter db db.accounts
              then err syntax_error
              else ok (pos 0))
      sum_side-lost dotted = elim (Bool-cases (any_side c k tenant date_filter db db.accounts)) [
        | inl e ↦ rw e (
            sum_side-Any c k (pos 0) sorted_rows (
              sort-Any _ (IsUnread c k) (rows_of db.accounts)
                (income_rows-Any dotted db.accounts e)))
        | inr e ↦ rw e (
            sum_side-All c k sorted_rows
              (sort-All_any _ (IsNil c k) (rows_of db.accounts) (income_rows-All db.accounts e)))
      ]

  -- If `BigInt` reads no text of a stored amount, an income statement throws as soon as a line of
  -- the period is on the credit side of an account whose code starts with 4, or on the debit side
  -- of one whose code starts with 5; without such a line it returns, with a revenue, expenses and a
  -- net income of 0.
  pub income_statement-lost :
      (year_start now tenant : Text) (from_date to_date : Option Text) (db : Database)
      → ((n : ℤ) → big_int (numeric_text n) ≡ none)
      → let date_filter = filter_of time_of (given from_date) (given to_date) in
        let rows = select_income collate numeric_text time_of occurred_at tenant date_filter db in
        income_statement collate numeric_text time_of occurred_at year_start now tenant from_date
          to_date db
        ≡ (if any_side b'4' credit tenant date_filter db db.accounts
              || any_side b'5' debit tenant date_filter db db.accounts
            then err syntax_error
            else ok (record {
              tenant_id = tenant;
              from_date = default_to year_start (given from_date);
              to_date = default_to now (given to_date);
              revenue = keep (income_starts b'4') rows;
              expenses = keep (income_starts b'5') rows;
              total_revenue = pos 0;
              total_expenses = pos 0;
              net_income = pos 0 -ℤ pos 0;
            }))
  unfolding income_statement
  income_statement-lost year_start now tenant from_date to_date db dotted =
      let date_filter = filter_of time_of (given from_date) (given to_date) in
      let revenue = sum_side-lost b'4' credit tenant date_filter db dotted in
      let expenses = sum_side-lost b'5' debit tenant date_filter db dotted in
      elim (Bool-cases (any_side b'4' credit tenant date_filter db db.accounts)) [
        | inl e ↦ rw (revenue, e) refl
        | inr e ↦ elim (Bool-cases (any_side b'5' debit tenant date_filter db db.accounts)) [
          | inl f ↦ rw (revenue, e, expenses, f) refl
          | inr f ↦ rw (revenue, e, expenses, f) refl
        ]
      ]
