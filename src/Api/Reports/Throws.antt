-- ===== src/Api/Reports/Throws.antt =====
-- `trialBalance` throws as soon as an account has a balance
-- (apps/api/src/ledger/reports.service.ts): the text of a NUMERIC(20,4) has a point, which `BigInt`
-- does not read.
use Prim.Native.Nat.{Ordering}
use adaptive_financial_os.Common.{
  ◌≡◌, refl, ap, Text, text, ℤ, pos, ◌+ℤ◌, arith, Option, none, some, List, [], ◌∷◌, All, Bool,
  true, false, Bool-cases, Option-cases, inl, inr, ◌==◌, text_eq, if◌then◌else◌,
}
use adaptive_financial_os.Common.BigInt.{
  big_int, trim, trim_start, parse_numeral, numeral, digits_from,
}
use adaptive_financial_os.Common.Sort.Any.{Any, sort-Any, sort-All_any}
use adaptive_financial_os.Core.Types.{Result, ok, err, ◌>>=◌, syntax_error}
use adaptive_financial_os.Db.{Database, AccountRow, BalanceRow}
use adaptive_financial_os.Api.Reports.{
  TrialBalanceRow, find_balance, read, to_bigint, add_net, sum_nets, joined_rows, select_rows,
  trial_balance,
}

-- An account of the tenant has a row in account_balances.
abbrev pub has_balance : Text → List BalanceRow → List AccountRow → Bool
has_balance tenant balances [] = false
has_balance tenant balances (a ∷ accounts) =
    if a.tenant_id == tenant
    then elim (find_balance tenant a.id balances) [
      | none ↦ has_balance tenant balances accounts
      | some r ↦ true
    ]
    else has_balance tenant balances accounts

IsUnreadable : TrialBalanceRow → Type 0
IsUnreadable row = to_bigint row.net_balance ≡ err syntax_error

IsZero : TrialBalanceRow → Type 0
IsZero row = row.net_balance ≡ text "0"

-- What follows a text that is read fails, so the whole fails; `BigInt` has one error.
after_read :
    (r : Option ℤ) (f : ℤ → Result (ℤ × ℤ))
    → ((n : ℤ) → f n ≡ err syntax_error)
    → (read r >>= f) ≡ err syntax_error
after_read none f h = refl
after_read (some n) f h = h n

sum_nets-unreadable :
    (totals : ℤ × ℤ) (rows : List TrialBalanceRow)
    → Any IsUnreadable rows
    → sum_nets totals rows ≡ err syntax_error
unfolding sum_nets IsUnreadable
sum_nets-unreadable totals [] h = absurd h
sum_nets-unreadable totals (row ∷ rows) (inl e) =
    ap (λ r. r >>= λ net. sum_nets (add_net net totals) rows) e
sum_nets-unreadable totals (row ∷ rows) (inr h) =
    after_read (big_int row.net_balance) (λ n. sum_nets (add_net n totals) rows)
      (λ n. sum_nets-unreadable (add_net n totals) rows h)

zero-read : to_bigint (text "0") ≡ ok (pos 0)
unfolding big_int trim trim_start parse_numeral numeral digits_from
zero-read = refl

zero-added : add_net (pos 0) (pos 0, pos 0) ≡ (pos 0, pos 0)
unfolding ◌+ℤ◌
zero-added = refl

sum_nets-zero :
    (rows : List TrialBalanceRow)
    → All IsZero rows
    → sum_nets (pos 0, pos 0) rows ≡ ok (pos 0, pos 0)
unfolding sum_nets IsZero
sum_nets-zero [] h = refl
sum_nets-zero (row ∷ rows) h = rw (h.0, zero-read, zero-added) (sum_nets-zero rows h.1)

module _ (collate : Text → Text → Ordering) (numeric_text : ℤ → Text) where
  joined-IsUnreadable :
      ((n : ℤ) → big_int (numeric_text n) ≡ none)
      → (tenant : Text) (balances : List BalanceRow) (accounts : List AccountRow)
      → has_balance tenant balances accounts ≡ true
      → Any IsUnreadable (joined_rows collate numeric_text tenant balances accounts)
  unfolding joined_rows IsUnreadable
  joined-IsUnreadable dotted tenant balances [] h = cc
  joined-IsUnreadable dotted tenant balances (a ∷ accounts) h =
      elim (Bool-cases (a.tenant_id == tenant)) [
        | inl e ↦ elim (Option-cases (find_balance tenant a.id balances)) [
          | inl f ↦
              rw (e, f) (inr (joined-IsUnreadable dotted tenant balances accounts (ground arith)))
          | inr (r, f) ↦ rw (e, f) (inl (ap read (dotted r.net_balance)))
        ]
        | inr e ↦ rw e (joined-IsUnreadable dotted tenant balances accounts (ground arith))
      ]

  joined-IsZero :
      (tenant : Text) (balances : List BalanceRow) (accounts : List AccountRow)
      → has_balance tenant balances accounts ≡ false
      → All IsZero (joined_rows collate numeric_text tenant balances accounts)
  unfolding joined_rows IsZero
  joined-IsZero tenant balances [] h = tt
  joined-IsZero tenant balances (a ∷ accounts) h = elim (Bool-cases (a.tenant_id == tenant)) [
    | inl e ↦ elim (Option-cases (find_balance tenant a.id balances)) [
      | inl f ↦ rw (e, f) (refl, joined-IsZero tenant balances accounts (ground arith))
      | inr (r, f) ↦ absurd (ground arith)
    ]
    | inr e ↦ rw e (joined-IsZero tenant balances accounts (ground arith))
  ]

  -- If `BigInt` reads no text of a stored amount, a trial balance throws as soon as one account of
  -- the tenant has a row of balances; without one it returns, with two totals of 0.
  pub trial_balance-throws :
      (tenant : Text) (db : Database)
      → ((n : ℤ) → big_int (numeric_text n) ≡ none)
      → ((has_balance tenant db.balances db.accounts ≡ true)
          → trial_balance collate numeric_text tenant db ≡ err syntax_error)
        × ((has_balance tenant db.balances db.accounts ≡ false)
            → trial_balance collate numeric_text tenant db
              ≡ ok (record {
                rows = select_rows collate numeric_text tenant db;
                total_debit = pos 0;
                total_credit = pos 0;
                balanced = true;
              }))
  unfolding trial_balance select_rows
  trial_balance-throws tenant db dotted = (
    λ h.
        rw
          (sum_nets-unreadable (pos 0, pos 0) _
            (sort-Any _ IsUnreadable _
              (joined-IsUnreadable dotted tenant db.balances db.accounts h)))
          refl,
    λ h.
        rw
          (sum_nets-zero _
            (sort-All_any _ IsZero _ (joined-IsZero tenant db.balances db.accounts h)))
          refl,
  )
