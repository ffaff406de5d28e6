-- ===== src/Api/Reports/Totals.antt =====
-- What `trialBalance` returns, and when it throws (apps/api/src/ledger/reports.service.ts).
use Prim.Native.Nat.{Ordering}
use adaptive_financial_os.Common.{
  ◌≡◌, ◌↔◌, refl, sym, ◌∙◌, ap, Text, ℤ, pos, ◌+ℤ◌, ◌-ℤ◌, ltb_ℤ, eqb_ℤ, eqb_ℤ_iff, pos_part,
  neg_part, int_laws, +ℤ_assoc, arith, List, [], ◌∷◌, true, Bool-cases, inl, inr,
}
use adaptive_financial_os.Core.Types.{Result, ok, err, bind-ok}
use adaptive_financial_os.Db.{Database}
use adaptive_financial_os.Api.Reports.{
  TrialBalanceRow, TrialBalance, to_bigint, add_net, sum_nets, select_rows, trial_balance,
}

-- The number that a text stands for, 0 where it stands for none.
abbrev pub value_of : Result ℤ → ℤ
value_of (ok n) = n
value_of (err e) = pos 0

abbrev pub net_of : TrialBalanceRow → ℤ
net_of row = value_of (to_bigint row.net_balance)

abbrev pub nets_sum : List TrialBalanceRow → ℤ
nets_sum [] = pos 0
nets_sum (row ∷ rows) = net_of row +ℤ nets_sum rows

add_net-difference : (n d c : ℤ) → (add_net n (d, c)).0 -ℤ (add_net n (d, c)).1 ≡ (d -ℤ c) +ℤ n
add_net-difference n d c = elim (Bool-cases (ltb_ℤ n (pos 0))) [
  | inl e ↦ rw e (omega int_laws)
  | inr e ↦ rw e (omega int_laws)
]

sum_nets-difference :
    (sums : ℤ × ℤ) (rows : List TrialBalanceRow) (totals : ℤ × ℤ)
    → sum_nets sums rows ≡ ok totals
    → totals.0 -ℤ totals.1 ≡ (sums.0 -ℤ sums.1) +ℤ nets_sum rows
unfolding sum_nets
sum_nets-difference sums [] totals h = let e : totals ≡ sums = ground arith in rw e (omega int_laws)
sum_nets-difference sums (row ∷ rows) totals h =
    let (n, p, q) =
      bind-ok (to_bigint row.net_balance) (λ net. sum_nets (add_net net sums) rows) h in
    let e : net_of row ≡ n = ap value_of p in
    rw e (
      sum_nets-difference (add_net n sums) rows totals q
      ∙ ap (λ x. x +ℤ nets_sum rows) (add_net-difference n sums.0 sums.1)
      ∙ +ℤ_assoc (sums.0 -ℤ sums.1) n (nets_sum rows))

equal_totals : (x y n : ℤ) → x -ℤ y ≡ n → (eqb_ℤ x y ≡ true) ↔ (n ≡ pos 0)
equal_totals x y n h = (
  λ e. let xy : x ≡ y = (eqb_ℤ_iff x y).0 e in sym h ∙ ap (λ z. z -ℤ y) xy ∙ omega int_laws,
  λ z.
      (eqb_ℤ_iff x y).1
        (omega (int_laws, ap pos_part h, ap neg_part h, ap pos_part z, ap neg_part z)),
)

module _ (collate : Text → Text → Ordering) (numeric_text : ℤ → Text) where
  -- A trial balance that is returned has all rows of the tenant; its totals differ by the sum of
  -- the net balances of the rows, and it is marked balanced exactly if these add up to 0.
  pub trial_balance-totals :
      (tenant : Text) (db : Database) (tb : TrialBalance)
      → trial_balance collate numeric_text tenant db ≡ ok tb
      → (tb.rows ≡ select_rows collate numeric_text tenant db)
        × (tb.total_debit -ℤ tb.total_credit ≡ nets_sum tb.rows)
        × ((tb.balanced ≡ true) ↔ (nets_sum tb.rows ≡ pos 0))
  unfolding trial_balance
  trial_balance-totals tenant db tb h =
      let rows = select_rows collate numeric_text tenant db in
      let (totals, p, q) = bind-ok (sum_nets (pos 0, pos 0) rows) _ h in
      let d = sum_nets-difference (pos 0, pos 0) rows totals p in
      let e : tb ≡ record {
        rows = rows;
        total_debit = totals.0;
        total_credit = totals.1;
        balanced = eqb_ℤ totals.0 totals.1;
      } =
        cc in
      let sum : totals.0 -ℤ totals.1 ≡ nets_sum rows = d ∙ omega int_laws in
      rw e (refl, sum, equal_totals totals.0 totals.1 (nets_sum rows) sum)
