-- ===== src/Api/Reports/Sheet.antt =====
-- The totals of `balanceSheet` and its flag (apps/api/src/ledger/reports.service.ts).
use Prim.Native.Nat.{Ordering}
use adaptive_financial_os.Common.{
  ℕ, ◌≡◌, ◌↔◌, refl, sym, ◌∙◌, ap, Text, ℤ, pos, pos_part, neg_part, ◌+ℤ◌, eqb_ℤ, eqb_ℤ_iff,
  int_laws, +ℤ_assoc, zero-+ℤ, arith, List, [], ◌∷◌, keep, All, Bool, true, false, ◌⊎◌, inl, inr,
  nat_beq, if◌then◌else◌,
}
use adaptive_financial_os.Core.Types.{ok, bind-ok}
use adaptive_financial_os.Db.{Database}
use adaptive_financial_os.Api.Reports.{
  TrialBalanceRow, TrialBalance, BalanceSheet, to_bigint, starts_with, code_starts, sum_from,
  select_rows, trial_balance, balance_sheet,
}
use adaptive_financial_os.Api.Reports.Totals.{value_of, net_of, nets_sum, trial_balance-totals}

sum_from-nets :
    (acc : ℤ) (rows : List TrialBalanceRow) (n : ℤ)
    → sum_from acc rows ≡ ok n
    → n ≡ acc +ℤ nets_sum rows
unfolding sum_from
sum_from-nets acc [] n h = let e : n ≡ acc = ground arith in rw e (omega int_laws)
sum_from-nets acc (r ∷ rows) n h =
    let (net, p, q) = bind-ok (to_bigint r.net_balance) (λ net. sum_from (acc +ℤ net) rows) h in
    let e : net_of r ≡ net = ap value_of p in
    rw e (sum_from-nets (acc +ℤ net) rows n q ∙ +ℤ_assoc acc net (nets_sum rows))

-- The code begins with one of the digits of the balance sheet.
abbrev pub OnSheet : TrialBalanceRow → Type 0
OnSheet row =
    (code_starts b'1' row ≡ true) ⊎ ((code_starts b'2' row ≡ true) ⊎ (code_starts b'3' row ≡ true))

abbrev pub of_code : ℕ → List TrialBalanceRow → List TrialBalanceRow
of_code c = keep (code_starts c)

starts-one :
    (c d : ℕ) (s : Text) → starts_with c s ≡ true → nat_beq c d ≡ false → starts_with d s ≡ false
starts-one c d [] h k = cc
starts-one c d (x ∷ s) h k = ground arith

keep_step :
    (b : Bool) (r : TrialBalanceRow) (rows : List TrialBalanceRow)
    → nets_sum (elim b [ true ↦ r ∷ rows | false ↦ rows ])
      ≡ (if b then net_of r else pos 0) +ℤ nets_sum rows
keep_step true r rows = refl
keep_step false r rows = sym (zero-+ℤ (nets_sum rows))

nets_sum-of_code :
    (c : ℕ) (r : TrialBalanceRow) (rows : List TrialBalanceRow) (b : Bool)
    → code_starts c r ≡ b
    → nets_sum (of_code c (r ∷ rows)) ≡ (if b then net_of r else pos 0) +ℤ nets_sum (of_code c rows)
nets_sum-of_code c r rows b e =
    keep_step (code_starts c r) r (of_code c rows)
    ∙ ap (λ x. (if x then net_of r else pos 0) +ℤ nets_sum (of_code c rows)) e

one_of_three :
    (n x y z s a b c : ℤ) (k l m : Bool)
    → ((if k then n else pos 0) +ℤ ((if l then n else pos 0) +ℤ (if m then n else pos 0))) ≡ n
    → s ≡ x +ℤ (y +ℤ z)
    → a ≡ (if k then n else pos 0) +ℤ x
    → b ≡ (if l then n else pos 0) +ℤ y
    → c ≡ (if m then n else pos 0) +ℤ z
    → n +ℤ s ≡ a +ℤ (b +ℤ c)
one_of_three n x y z s a b c k l m one rest ea eb ec =
    rw (ea, eb, ec, rest) (ap (λ v. v +ℤ (x +ℤ (y +ℤ z))) (sym one) ∙ omega int_laws)

nets_sum-split :
    (rows : List TrialBalanceRow)
    → All OnSheet rows
    → nets_sum rows
      ≡ nets_sum (of_code b'1' rows)
        +ℤ (nets_sum (of_code b'2' rows) +ℤ nets_sum (of_code b'3' rows))
nets_sum-split [] h = omega int_laws
nets_sum-split (r ∷ rows) (inl a, h) =
    one_of_three (net_of r) _ _ _ _ _ _ _ true false false (omega int_laws) (nets_sum-split rows h)
      (nets_sum-of_code b'1' r rows true a)
      (nets_sum-of_code b'2' r rows false (starts-one b'1' b'2' r.account_code a refl))
      (nets_sum-of_code b'3' r rows false (starts-one b'1' b'3' r.account_code a refl))
nets_sum-split (r ∷ rows) (inr (inl a), h) =
    one_of_three (net_of r) _ _ _ _ _ _ _ false true false (omega int_laws) (nets_sum-split rows h)
      (nets_sum-of_code b'1' r rows false (starts-one b'2' b'1' r.account_code a refl))
      (nets_sum-of_code b'2' r rows true a)
      (nets_sum-of_code b'3' r rows false (starts-one b'2' b'3' r.account_code a refl))
nets_sum-split (r ∷ rows) (inr (inr a), h) =
    one_of_three (net_of r) _ _ _ _ _ _ _ false false true (omega int_laws) (nets_sum-split rows h)
      (nets_sum-of_code b'1' r rows false (starts-one b'3' b'1' r.account_code a refl))
      (nets_sum-of_code b'2' r rows false (starts-one b'3' b'2' r.account_code a refl))
      (nets_sum-of_code b'3' r rows true a)

-- Nets that add up to 0 satisfy the test `assets = liabilities + equity` only if the assets are 0.
sheet_test : (a l e : ℤ) → a +ℤ (l +ℤ e) ≡ pos 0 → (eqb_ℤ a (l +ℤ e) ≡ true) ↔ (a ≡ pos 0)
sheet_test a l e z = (
  λ t.
      let q = (eqb_ℤ_iff a (l +ℤ e)).0 t in
      omega (int_laws, ap pos_part q, ap neg_part q, ap pos_part z, ap neg_part z),
  λ t.
      (eqb_ℤ_iff a (l +ℤ e)).1
        (omega (int_laws, ap pos_part t, ap neg_part t, ap pos_part z, ap neg_part z)),
)

module _ (collate : Text → Text → Ordering) (numeric_text : ℤ → Text) where
  -- A balance sheet that is returned has the rows of the trial balance by the first digit of their
  -- codes, with the sums of their net balances, and is marked balanced exactly if that of the
  -- assets is that of the liabilities and the equity together.
  pub balance_sheet-totals :
      (tenant : Text) (db : Database) (sheet : BalanceSheet)
      → balance_sheet collate numeric_text tenant db ≡ ok sheet
      → (tb : TrialBalance) × (trial_balance collate numeric_text tenant db ≡ ok tb)
        × (sheet.assets ≡ of_code b'1' tb.rows)
        × (sheet.total_assets ≡ nets_sum (of_code b'1' tb.rows))
        × (sheet.total_liabilities ≡ nets_sum (of_code b'2' tb.rows))
        × (sheet.total_equity ≡ nets_sum (of_code b'3' tb.rows))
        × (sheet.balanced
            ≡ eqb_ℤ sheet.total_assets (sheet.total_liabilities +ℤ sheet.total_equity))
  unfolding balance_sheet
  balance_sheet-totals tenant db sheet h =
      let (tb, p, q) = bind-ok (trial_balance collate numeric_text tenant db) _ h in
      let (a, pa, qa) = bind-ok (sum_from (pos 0) (of_code b'1' tb.rows)) _ q in
      let (l, pl, ql) = bind-ok (sum_from (pos 0) (of_code b'2' tb.rows)) _ qa in
      let (e, pe, qe) = bind-ok (sum_from (pos 0) (of_code b'3' tb.rows)) _ ql in
      let na = sum_from-nets (pos 0) (of_code b'1' tb.rows) a pa ∙ zero-+ℤ _ in
      let nl = sum_from-nets (pos 0) (of_code b'2' tb.rows) l pl ∙ zero-+ℤ _ in
      let ne = sum_from-nets (pos 0) (of_code b'3' tb.rows) e pe ∙ zero-+ℤ _ in
      let s : sheet ≡ record {
        tenant_id = tenant;
        assets = of_code b'1' tb.rows;
        liabilities = of_code b'2' tb.rows;
        equity = of_code b'3' tb.rows;
        total_assets = a;
        total_liabilities = l;
        total_equity = e;
        balanced = eqb_ℤ a (l +ℤ e);
      } =
        cc in
      rw s (tb, p, refl, na, nl, ne, refl)

  -- With accounts of the sheet only, the sheet of books whose trial balance is balanced is marked
  -- balanced exactly if the assets add up to 0: the code compares them to liabilities and equity
  -- that are negative where they are credits.
  pub balance_sheet-sign :
      (tenant : Text) (db : Database) (sheet : BalanceSheet)
      → balance_sheet collate numeric_text tenant db ≡ ok sheet
      → All OnSheet (select_rows collate numeric_text tenant db)
      → nets_sum (select_rows collate numeric_text tenant db) ≡ pos 0
      → (sheet.balanced ≡ true) ↔ (sheet.total_assets ≡ pos 0)
  balance_sheet-sign tenant db sheet h on z =
      let (tb, p, rows, a, l, e, b) = balance_sheet-totals tenant db sheet h in
      let same = (trial_balance-totals collate numeric_text tenant db tb p).0 in
      let zero : sheet.total_assets +ℤ (sheet.total_liabilities +ℤ sheet.total_equity) ≡ pos 0 =
        rw (a, l, e, same)
          (sym (nets_sum-split (select_rows collate numeric_text tenant db) on) ∙ z) in
      rw b (sheet_test sheet.total_assets sheet.total_liabilities sheet.total_equity zero)
