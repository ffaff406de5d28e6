-- ===== src/Api/Reports/Hierarchy.antt =====
-- apps/api/src/ledger/reports.service.ts: `accountHierarchy`, the rows of the trial balance by the
-- first unit of their codes. The fixed codes and names of the five groups are left out.
use Prim.Native.Nat.{Ordering}
use mathlib.Core.List.{append-nil, append_assoc}
use adaptive_financial_os.Common.{
  ℕ, ◌≡◌, sym, ◌∙◌, ap, Text, ℤ, arith, List, [], ◌∷◌, ◌++◌, keep, Bool, if◌then◌else◌,
}
use adaptive_financial_os.Core.Types.{Result, ok, ◌>>=◌}
use adaptive_financial_os.Db.{Database}
use adaptive_financial_os.Api.Reports.{TrialBalanceRow, TrialBalance, code_starts, trial_balance}

pub record Hierarchy : Type 0 where
  pub assets : List TrialBalanceRow
  pub liabilities : List TrialBalanceRow
  pub equity : List TrialBalanceRow
  pub revenue : List TrialBalanceRow
  pub expenses : List TrialBalanceRow

abbrev pub empty_hierarchy : Hierarchy
empty_hierarchy = record { assets = []; liabilities = []; equity = []; revenue = []; expenses = [] }

-- The body of the loop.
unfoldable pub push_row : TrialBalanceRow → Hierarchy → Hierarchy
push_row row h =
    if code_starts b'1' row
    then record h { assets = h.assets ++ row ∷ [] }
    else if code_starts b'2' row
    then record h { liabilities = h.liabilities ++ row ∷ [] }
    else if code_starts b'3' row
    then record h { equity = h.equity ++ row ∷ [] }
    else if code_starts b'4' row
    then record h { revenue = h.revenue ++ row ∷ [] }
    else if code_starts b'5' row
    then record h { expenses = h.expenses ++ row ∷ [] }
    else h

unfoldable pub push_rows : List TrialBalanceRow → Hierarchy → Hierarchy
push_rows [] h = h
push_rows (row ∷ rows) h = push_rows rows (push_row row h)

push_row-assets :
    (row : TrialBalanceRow) (h : Hierarchy)
    → (push_row row h).assets ≡ h.assets ++ keep (code_starts b'1') (row ∷ [])
unfolding push_row
push_row-assets row h = ground (arith, append-nil h.assets)

push_row-liabilities :
    (row : TrialBalanceRow) (h : Hierarchy)
    → (push_row row h).liabilities ≡ h.liabilities ++ keep (code_starts b'2') (row ∷ [])
unfolding push_row
push_row-liabilities row h = ground (arith, append-nil h.liabilities)

push_row-equity :
    (row : TrialBalanceRow) (h : Hierarchy)
    → (push_row row h).equity ≡ h.equity ++ keep (code_starts b'3') (row ∷ [])
unfolding push_row
push_row-equity row h = ground (arith, append-nil h.equity)

push_row-revenue :
    (row : TrialBalanceRow) (h : Hierarchy)
    → (push_row row h).revenue ≡ h.revenue ++ keep (code_starts b'4') (row ∷ [])
unfolding push_row
push_row-revenue row h = ground (arith, append-nil h.revenue)

push_row-expenses :
    (row : TrialBalanceRow) (h : Hierarchy)
    → (push_row row h).expenses ≡ h.expenses ++ keep (code_starts b'5') (row ∷ [])
unfolding push_row
push_row-expenses row h = ground (arith, append-nil h.expenses)

-- A row is kept before the others or not.
keep-cons :
    (p : TrialBalanceRow → Bool) (row : TrialBalanceRow) (rows : List TrialBalanceRow)
    → keep p (row ∷ []) ++ keep p rows ≡ keep p (row ∷ rows)
keep-cons p row rows = ground arith

-- A group that each step extends by the rows of a digit ends with all of them.
push_rows-group :
    (group : Hierarchy → List TrialBalanceRow) (c : ℕ)
    → ((row : TrialBalanceRow) (h : Hierarchy)
        → group (push_row row h) ≡ group h ++ keep (code_starts c) (row ∷ []))
    → (rows : List TrialBalanceRow) (h : Hierarchy)
    → group (push_rows rows h) ≡ group h ++ keep (code_starts c) rows
unfolding push_rows
push_rows-group group c step [] h = sym (append-nil (group h))
push_rows-group group c step (row ∷ rows) h =
    push_rows-group group c step rows (push_row row h)
    ∙ ap (λ xs. xs ++ keep (code_starts c) rows) (step row h)
    ∙ append_assoc (group h) (keep (code_starts c) (row ∷ [])) (keep (code_starts c) rows)
    ∙ ap (λ xs. group h ++ xs) (keep-cons (code_starts c) row rows)

module _ (collate : Text → Text → Ordering) (numeric_text : ℤ → Text) where
  unfoldable pub account_hierarchy : Text → Database → Result Hierarchy
  account_hierarchy tenant db = do
    tb ← trial_balance collate numeric_text tenant db
    ok (push_rows tb.rows empty_hierarchy)

  -- A hierarchy is returned whenever the trial balance is, and each of its five groups has the rows
  -- whose code begins with the digit of the group, in the order of the trial balance.
  pub account_hierarchy-groups :
      (tenant : Text) (db : Database) (tb : TrialBalance)
      → trial_balance collate numeric_text tenant db ≡ ok tb
      → (h : Hierarchy) × (account_hierarchy tenant db ≡ ok h)
        × (h.assets ≡ keep (code_starts b'1') tb.rows)
        × (h.liabilities ≡ keep (code_starts b'2') tb.rows)
        × (h.equity ≡ keep (code_starts b'3') tb.rows)
        × (h.revenue ≡ keep (code_starts b'4') tb.rows)
        × (h.expenses ≡ keep (code_starts b'5') tb.rows)
  unfolding account_hierarchy
  account_hierarchy-groups tenant db tb e = (
    push_rows tb.rows empty_hierarchy,
    ap (λ r. r >>= λ t. ok (push_rows t.rows empty_hierarchy)) e,
    push_rows-group (λ h. h.assets) b'1' push_row-assets tb.rows empty_hierarchy,
    push_rows-group (λ h. h.liabilities) b'2' push_row-liabilities tb.rows empty_hierarchy,
    push_rows-group (λ h. h.equity) b'3' push_row-equity tb.rows empty_hierarchy,
    push_rows-group (λ h. h.revenue) b'4' push_row-revenue tb.rows empty_hierarchy,
    push_rows-group (λ h. h.expenses) b'5' push_row-expenses tb.rows empty_hierarchy,
  )
