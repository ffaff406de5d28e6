-- ===== src/Api/Reports/Income/Sums.antt =====
-- The sums of `incomeStatement`, of rows whose text is not read, and of rows without one
-- (apps/api/src/ledger/reports.service.ts).
use adaptive_financial_os.Common.{
  ℕ, ◌≡◌, refl, ◌∙◌, ap, text, ℤ, pos, ◌+ℤ◌, Option, none, some, List, [], ◌∷◌, keep, All, true,
  false, arith, Bool-cases, ◌⊎◌, inl, inr, text_eq,
}
use adaptive_financial_os.Common.BigInt.{
  big_int, trim, trim_start, parse_numeral, numeral, digits_from,
}
use adaptive_financial_os.Common.Sort.Any.{Any}
use adaptive_financial_os.Core.Types.{Result, ok, err, ◌>>=◌, syntax_error, DebitCredit}
use adaptive_financial_os.Api.Reports.{read, to_bigint}
use adaptive_financial_os.Api.Reports.Income.{IncomeRow, income_starts, side_text, sum_side}

-- A row of the code whose text on the side is not read, and one that adds nothing to the sum.
abbrev pub IsUnread : ℕ → DebitCredit → IncomeRow → Type 0
IsUnread c k row = (income_starts c row ≡ true) × (big_int (side_text k row) ≡ none)

abbrev pub IsNil : ℕ → DebitCredit → IncomeRow → Type 0
IsNil c k row = (income_starts c row ≡ false) ⊎ (side_text k row ≡ text "0")

-- `BigInt` has one error.
fails :
    {A : Type 0} (o : Option ℤ) (f : ℤ → Result A)
    → ((n : ℤ) → f n ≡ err syntax_error)
    → (read o >>= f) ≡ err syntax_error
fails none f h = refl
fails (some n) f h = h n

module _ (c : ℕ) (k : DebitCredit) where
  pub sum_side-Any :
      (acc : ℤ) (rows : List IncomeRow)
      → Any (IsUnread c k) rows
      → sum_side k acc (keep (income_starts c) rows) ≡ err syntax_error
  unfolding sum_side
  sum_side-Any acc [] h = absurd h
  sum_side-Any acc (row ∷ rows) (inl (s, u)) =
      let kept : keep (income_starts c) (row ∷ rows) ≡ row ∷ keep (income_starts c) rows =
        ground (arith, s) in
      ap (sum_side k acc) kept
      ∙ ap (λ o. read o >>= λ n. sum_side k (acc +ℤ n) (keep (income_starts c) rows)) u
  sum_side-Any acc (row ∷ rows) (inr h) = elim (Bool-cases (income_starts c row)) [
    | inl s ↦
        let kept : keep (income_starts c) (row ∷ rows) ≡ row ∷ keep (income_starts c) rows =
          ground (arith, s) in
        ap (sum_side k acc) kept
        ∙ fails (big_int (side_text k row))
            (λ n. sum_side k (acc +ℤ n) (keep (income_starts c) rows))
            (λ n. sum_side-Any (acc +ℤ n) rows h)
    | inr s ↦
        let kept : keep (income_starts c) (row ∷ rows) ≡ keep (income_starts c) rows =
          ground (arith, s) in
        ap (sum_side k acc) kept ∙ sum_side-Any acc rows h
  ]

  zero_read : to_bigint (text "0") ≡ ok (pos 0)
  unfolding big_int trim trim_start parse_numeral numeral digits_from
  zero_read = refl

  zero_added : pos 0 +ℤ pos 0 ≡ pos 0
  unfolding ◌+ℤ◌
  zero_added = refl

  pub sum_side-All :
      (rows : List IncomeRow)
      → All (IsNil c k) rows
      → sum_side k (pos 0) (keep (income_starts c) rows) ≡ ok (pos 0)
  unfolding sum_side
  sum_side-All [] h = refl
  sum_side-All (row ∷ rows) (inl s, h) =
      let kept : keep (income_starts c) (row ∷ rows) ≡ keep (income_starts c) rows =
        ground (arith, s) in
      ap (sum_side k (pos 0)) kept ∙ sum_side-All rows h
  sum_side-All (row ∷ rows) (inr z, h) = elim (Bool-cases (income_starts c row)) [
    | inl s ↦
        let kept : keep (income_starts c) (row ∷ rows) ≡ row ∷ keep (income_starts c) rows =
          ground (arith, s) in
        ap (sum_side k (pos 0)) kept
        ∙ ap (λ t. to_bigint t >>= λ n. sum_side k (pos 0 +ℤ n) (keep (income_starts c) rows)) z
        ∙ ap (λ r. r >>= λ n. sum_side k (pos 0 +ℤ n) (keep (income_starts c) rows)) zero_read
        ∙ ap (λ n. sum_side k n (keep (income_starts c) rows)) zero_added
        ∙ sum_side-All rows h
    | inr s ↦
        let kept : keep (income_starts c) (row ∷ rows) ≡ keep (income_starts c) rows =
          ground (arith, s) in
        ap (sum_side k (pos 0)) kept ∙ sum_side-All rows h
  ]
