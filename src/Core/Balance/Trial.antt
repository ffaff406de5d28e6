-- ===== src/Core/Balance/Trial.antt =====
-- `trialBalanceFromLines` (packages/accounting-core/src/balance.ts), on lines in one currency and
-- on the lines of an accepted entry.
use Prim.Native.Nat.{Ordering}
use adaptive_financial_os.Common.{
  ◌≡◌, ◌≢◌, ◌↔◌, refl, sym, ◌∙◌, ap, Text, ℤ, pos, ◌+ℤ◌, eqb_ℤ, eqb_ℤ_iff, List, [], ◌∷◌, All,
  text_eq, text_beq_iff, true, arith, +ℤ_assoc, +ℤ-zero, zero-+ℤ,
}
use adaptive_financial_os.Common.JsMap.{JsMap, get, set}
use adaptive_financial_os.Common.JsMap.Sums.{sum_by}
use adaptive_financial_os.Common.Sort.{sort, IsSorted, IsComparator}
use adaptive_financial_os.Common.Sort.Laws.{sort-IsSorted}
use adaptive_financial_os.Core.Types.{bind-ok, ok, debit, credit, JournalLineInput}
use adaptive_financial_os.Core.Money.{money, currency_re}
use adaptive_financial_os.Core.Posting.Order.{pull-IsComparator}
use adaptive_financial_os.Core.Posting.Spec.{side_total}
use adaptive_financial_os.Core.Balance.{
  TrialBalance, TrialBalanceRow, Sums, bump, sums_or_new, add_line, add_lines, currencies,
  debits_of, credits_of, rows_of, trial_balance_from_map, trial_balance_from_lines,
}
use adaptive_financial_os.Core.Balance.Accounts.{balances_of, balance_per_account-cons}
use adaptive_financial_os.Core.Balance.Single.{
  LineIn, SumsIn, add_lines-SumsIn, to_balances-SumsIn, sum_on, add_lines-sum,
}

debits_of-sum :
    (t : ℤ) (m : JsMap Text Sums) → debits_of t (balances_of m) ≡ t +ℤ sum_by (sum_on debit) m
unfolding debits_of
debits_of-sum t [] = sym (+ℤ-zero t)
debits_of-sum t ((id, s) ∷ m) =
    debits_of-sum (t +ℤ s.debit) m ∙ +ℤ_assoc t s.debit (sum_by (sum_on debit) m)

credits_of-sum :
    (t : ℤ) (m : JsMap Text Sums) → credits_of t (balances_of m) ≡ t +ℤ sum_by (sum_on credit) m
unfolding credits_of
credits_of-sum t [] = sym (+ℤ-zero t)
credits_of-sum t ((id, s) ∷ m) =
    credits_of-sum (t +ℤ s.credit) m ∙ +ℤ_assoc t s.credit (sum_by (sum_on credit) m)

currencies-seen :
    (c : Text) (m : JsMap Text Sums)
    → All (SumsIn c) m
    → currencies (c ∷ []) (balances_of m) ≡ c ∷ []
unfolding currencies
currencies-seen c [] h = refl
currencies-seen c ((id, s) ∷ m) h =
    ground (arith, h.0, currencies-seen c m h.1, text_beq_iff s.currency c)

currencies-one :
    (c : Text) (id : Text) (s : Sums) (m : JsMap Text Sums)
    → All (SumsIn c) ((id, s) ∷ m)
    → currencies [] (balances_of ((id, s) ∷ m)) ≡ c ∷ []
unfolding currencies
currencies-one c id s m h = rw h.0 (currencies-seen c m h.1)

set-ne-nil : (id : Text) (s : Sums) (m : JsMap Text Sums) → set id s m ≢ []
set-ne-nil id s [] e = cc
set-ne-nil id s ((j, t) ∷ m) e = ground arith

add_line-ne-nil : (m m' : JsMap Text Sums) (l : JournalLineInput) → add_line m l ≡ ok m' → m' ≢ []
unfolding add_line
add_line-ne-nil m m' l h e =
    set-ne-nil l.account_id
      (bump l.side l.amount.amount (sums_or_new l.amount.currency (get l.account_id m))) m
      (ground arith)

add_lines-ne-nil :
    (m m' : JsMap Text Sums) (ls : List JournalLineInput)
    → m ≢ []
    → add_lines m ls ≡ ok m'
    → m' ≢ []
unfolding add_lines
add_lines-ne-nil m m' [] n h = λ e. ground arith
add_lines-ne-nil m m' (l ∷ ls) n h =
    let (next, p, q) = bind-ok (add_line m l) (λ x. add_lines x ls) h in
    add_lines-ne-nil next m' ls (add_line-ne-nil m next l p) q

pub added_ne_nil :
    (m : JsMap Text Sums) (l : JournalLineInput) (ls : List JournalLineInput)
    → add_lines [] (l ∷ ls) ≡ ok m
    → m ≢ []
unfolding add_lines
added_ne_nil m l ls h =
    let (next, p, q) = bind-ok (add_line [] l) (λ x. add_lines x ls) h in
    add_lines-ne-nil next m ls (add_line-ne-nil [] next l p) q

module _ (locale_compare : Text → Text → Ordering) where
  -- The trial balance of sums in one currency.
  abbrev pub trial_of : Text → JsMap Text Sums → TrialBalance
  trial_of c m = record {
    rows =
        sort (λ (a b : TrialBalanceRow). locale_compare a.account_id b.account_id)
          (rows_of (balances_of m));
    total_debit = record { amount = sum_by (sum_on debit) m; currency = c };
    total_credit = record { amount = sum_by (sum_on credit) m; currency = c };
    balanced = eqb_ℤ (sum_by (sum_on debit) m) (sum_by (sum_on credit) m);
  }

  trial-SumsIn :
      (c : Text) (m : JsMap Text Sums)
      → m ≢ []
      → All (SumsIn c) m
      → currency_re c ≡ true
      → trial_balance_from_map locale_compare (balances_of m) ≡ ok (trial_of c m)
  unfolding trial_balance_from_map money
  trial-SumsIn c [] n h v = absurd (n refl)
  trial-SumsIn c ((id, s) ∷ m) n h v =
      rw
        (
          currencies-one c id s m h,
          debits_of-sum (pos 0) ((id, s) ∷ m),
          credits_of-sum (pos 0) ((id, s) ∷ m),
        )
        (simp (zero-+ℤ, v) (ground arith))

  -- Lines in one valid currency, at least one of them, have a trial balance: its totals are those
  -- of the debit and of the credit lines in that currency, it is marked balanced exactly if these
  -- are equal, and its rows are sorted by the account.
  pub trial_balance_from_lines_totals :
      (c : Text) (ls : List JournalLineInput)
      → IsComparator locale_compare
      → ls ≢ []
      → All (LineIn c) ls
      → currency_re c ≡ true
      → (tb : TrialBalance) × (trial_balance_from_lines locale_compare ls ≡ ok tb)
        × (tb.total_debit ≡ record { amount = side_total debit ls; currency = c })
        × (tb.total_credit ≡ record { amount = side_total credit ls; currency = c })
        × ((tb.balanced ≡ true) ↔ (side_total debit ls ≡ side_total credit ls))
        × IsSorted (λ (a b : TrialBalanceRow). locale_compare a.account_id b.account_id) tb.rows
  unfolding trial_balance_from_lines
  trial_balance_from_lines_totals c [] laws n h v = absurd (n refl)
  trial_balance_from_lines_totals c (l ∷ ls) laws n h v =
      let (m, e, mc) = add_lines-SumsIn c [] (l ∷ ls) tt h in
      let debits : sum_by (sum_on debit) m ≡ side_total debit (l ∷ ls) =
        add_lines-sum debit [] m (l ∷ ls) e ∙ zero-+ℤ _ in
      let credits : sum_by (sum_on credit) m ≡ side_total credit (l ∷ ls) =
        add_lines-sum credit [] m (l ∷ ls) e ∙ zero-+ℤ _ in
      (
        trial_of c m,
        rw (balance_per_account-cons l ls, e, to_balances-SumsIn c m mc v)
            (trial-SumsIn c m (added_ne_nil m l ls e) mc v),
        ap (λ n. record { amount = n; currency = c }) debits,
        ap (λ n. record { amount = n; currency = c }) credits,
        rw (debits, credits) (eqb_ℤ_iff (side_total debit (l ∷ ls)) (side_total credit (l ∷ ls))),
        sort-IsSorted (λ (a b : TrialBalanceRow). locale_compare a.account_id b.account_id)
            (pull-IsComparator (λ (r : TrialBalanceRow). r.account_id) locale_compare laws)
            (rows_of (balances_of m)),
      )
