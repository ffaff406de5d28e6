-- ===== src/Core/Balance/Single.antt =====
-- Lines in one currency: `balancePerAccount` and `trialBalanceFromLines` return
-- (packages/accounting-core/src/balance.ts).
use adaptive_financial_os.Common.{
  ◌≡◌, refl, ◌∙◌, ap, Text, ℤ, ◌+ℤ◌, Option, none, some, List, [], ◌∷◌, All, text_eq, text_beq_iff,
  true, arith, int_laws, +ℤ_cancel_mid, +ℤ_assoc, +ℤ-zero,
}
use adaptive_financial_os.Common.JsMap.{JsMap, get, set}
use adaptive_financial_os.Common.JsMap.Sums.{sum_by, value_of, sum_by-set}
use adaptive_financial_os.Core.Types.{ok, bind-ok, DebitCredit, debit, credit, JournalLineInput}
use adaptive_financial_os.Core.Money.{currency_re}
use adaptive_financial_os.Core.Posting.Spec.{side_total, amount_on}
use adaptive_financial_os.Core.Balance.{Sums, bump, sums_or_new, add_line, add_lines, to_balances}
use adaptive_financial_os.Core.Balance.Accounts.{balances_of, to_balance_valid}

abbrev pub LineIn : Text → JournalLineInput → Type 0
LineIn c l = l.amount.currency ≡ c

abbrev pub SumsIn : Text → Text × Sums → Type 0
SumsIn c e = e.1.currency ≡ c

module _ (c : Text) where
  get-SumsIn :
      (id : Text) (m : JsMap Text Sums) → All (SumsIn c) m → (sums_or_new c (get id m)).currency ≡ c
  get-SumsIn id [] h = refl
  get-SumsIn id ((j, s) ∷ m) h = ground (arith, get-SumsIn id m h.1)

  set-SumsIn :
      (id : Text) (s : Sums) (m : JsMap Text Sums)
      → s.currency ≡ c
      → All (SumsIn c) m
      → All (SumsIn c) (set id s m)
  set-SumsIn id s [] e h = (e, tt)
  set-SumsIn id s ((j, t) ∷ m) e h = ground (arith, set-SumsIn id s m e h.1)

  bump-currency : (side : DebitCredit) (n : ℤ) (s : Sums) → (bump side n s).currency ≡ s.currency
  bump-currency debit n s = refl
  bump-currency credit n s = refl

  add_line-SumsIn :
      (m : JsMap Text Sums) (l : JournalLineInput)
      → All (SumsIn c) m
      → LineIn c l
      → (m' : JsMap Text Sums) × (add_line m l ≡ ok m') × All (SumsIn c) m'
  unfolding add_line
  add_line-SumsIn m l h e =
      let acc : Sums = sums_or_new l.amount.currency (get l.account_id m) in
      let cur : acc.currency ≡ c = rw e (get-SumsIn l.account_id m h) in
      (
        set l.account_id (bump l.side l.amount.amount acc) m,
        ground (arith, cur, e, text_beq_iff acc.currency l.amount.currency),
        set-SumsIn l.account_id (bump l.side l.amount.amount acc) m
            (bump-currency l.side l.amount.amount acc ∙ cur) h,
      )

  pub add_lines-SumsIn :
      (m : JsMap Text Sums) (ls : List JournalLineInput)
      → All (SumsIn c) m
      → All (LineIn c) ls
      → (m' : JsMap Text Sums) × (add_lines m ls ≡ ok m') × All (SumsIn c) m'
  unfolding add_lines
  add_lines-SumsIn m [] h k = (m, refl, h)
  add_lines-SumsIn m (l ∷ ls) h k =
      let (next, e, hn) = add_line-SumsIn m l h k.0 in
      let (m', e', h') = add_lines-SumsIn next ls hn k.1 in (m', rw e e', h')

  pub to_balances-SumsIn :
      (m : JsMap Text Sums)
      → All (SumsIn c) m
      → currency_re c ≡ true
      → to_balances m ≡ ok (balances_of m)
  unfolding to_balances
  to_balances-SumsIn [] h v = refl
  to_balances-SumsIn ((id, s) ∷ m) h v =
      rw (to_balance_valid id s (rw h.0 v), to_balances-SumsIn m h.1 v)

-- The sums of a side over the map.
abbrev pub sum_on : DebitCredit → Sums → ℤ
sum_on debit s = s.debit
sum_on credit s = s.credit

sum_on-bump :
    (k side : DebitCredit) (n : ℤ) (s : Sums)
    → sum_on k (bump side n s) ≡ sum_on k s +ℤ amount_on k side n
sum_on-bump debit debit n s = refl
sum_on-bump debit credit n s = omega int_laws
sum_on-bump credit debit n s = omega int_laws
sum_on-bump credit credit n s = refl

sum_on-new :
    (k : DebitCredit) (c : Text) (o : Option Sums)
    → sum_on k (sums_or_new c o) ≡ value_of (sum_on k) o
sum_on-new debit c none = refl
sum_on-new credit c none = refl
sum_on-new k c (some s) = refl

add_line-sum :
    (k : DebitCredit) (m m' : JsMap Text Sums) (l : JournalLineInput)
    → add_line m l ≡ ok m'
    → sum_by (sum_on k) m' ≡ sum_by (sum_on k) m +ℤ amount_on k l.side l.amount.amount
unfolding add_line
add_line-sum k m m' l h =
    let acc : Sums = sums_or_new l.amount.currency (get l.account_id m) in
    let v : Sums = bump l.side l.amount.amount acc in
    let stored : m' ≡ set l.account_id v m = ground arith in
    let old : sum_on k acc ≡ value_of (sum_on k) (get l.account_id m) =
      sum_on-new k l.amount.currency (get l.account_id m) in
    +ℤ_cancel_mid (sum_by (sum_on k) m') (sum_by (sum_on k) m) (sum_on k acc)
      (amount_on k l.side l.amount.amount)
      (ap (λ n. sum_by (sum_on k) m' +ℤ n) old
        ∙ ap
            (λ (x : JsMap Text Sums).
              sum_by (sum_on k) x +ℤ value_of (sum_on k) (get l.account_id m))
            stored
        ∙ sum_by-set (sum_on k) l.account_id v m
        ∙ ap (λ n. sum_by (sum_on k) m +ℤ n) (sum_on-bump k l.side l.amount.amount acc))

pub add_lines-sum :
    (k : DebitCredit) (m m' : JsMap Text Sums) (ls : List JournalLineInput)
    → add_lines m ls ≡ ok m'
    → sum_by (sum_on k) m' ≡ sum_by (sum_on k) m +ℤ side_total k ls
unfolding add_lines
add_lines-sum k m m' [] h = ground (arith, +ℤ-zero (sum_by (sum_on k) m))
add_lines-sum k m m' (l ∷ ls) h =
    let (next, p, q) = bind-ok (add_line m l) (λ n. add_lines n ls) h in
    add_lines-sum k next m' ls q
    ∙ ap (λ n. n +ℤ side_total k ls) (add_line-sum k m next l p)
    ∙ +ℤ_assoc (sum_by (sum_on k) m) (amount_on k l.side l.amount.amount) (side_total k ls)
