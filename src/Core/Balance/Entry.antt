-- ===== src/Core/Balance/Entry.antt =====
-- An entry that `validateEntry` accepts, handed to `trialBalanceFromLines`
-- (packages/accounting-core/src/posting.ts and balance.ts).
use Prim.Native.Nat.{Ordering}
use mathlib.Core.Logic.{∥∥₁_elim}
use mathlib.Core.HLevel.{hedberg}
use native.Mathlib.Decide.{ℕ_discrete}
use adaptive_financial_os.Common.{
  ◌≡◌, ◌≢◌, refl, sym, ◌∙◌, Text, ℤ, ◌≤◌, List, [], ◌∷◌, All, length, true, false, arith,
}
use adaptive_financial_os.Common.JsMap.{JsMap}
use adaptive_financial_os.Common.Sort.{IsComparator, sort}
use adaptive_financial_os.Common.Sort.Laws.{sort-All, sort-perm, sort-ne-nil}
use adaptive_financial_os.Core.Types.{
  ok, err, DebitCredit, debit, credit, JournalLineInput, JournalEntryInput, invalid_input,
}
use adaptive_financial_os.Core.Money.{currency_re, money}
use adaptive_financial_os.Core.Posting.{ValidatedEntry, validate_entry, line_compare}
use adaptive_financial_os.Core.Posting.Spec.{IsLine, side_total}
use adaptive_financial_os.Core.Posting.Valid.{validate_entry_iff}
use adaptive_financial_os.Core.Posting.Order.{line_compare-IsComparator}
use adaptive_financial_os.Core.Posting.Reorder.{side_total-perm}
use adaptive_financial_os.Core.Balance.{TrialBalance, trial_balance_from_lines, Sums, to_balances}
use adaptive_financial_os.Core.Balance.Accounts.{balance_per_account-cons}
use adaptive_financial_os.Core.Balance.Single.{LineIn, SumsIn, add_lines-SumsIn}
use adaptive_financial_os.Core.Balance.Trial.{trial_balance_from_lines_totals, added_ne_nil}

ℤ-discrete : Discrete ℤ
ℤ-discrete = hlevel ℕ_discrete

side_total-sort :
    (cmp : JournalLineInput → JournalLineInput → Ordering) (s : DebitCredit)
    (ls : List JournalLineInput)
    → side_total s (sort cmp ls) ≡ side_total s ls
side_total-sort cmp s ls = ∥∥₁_elim (sort-perm cmp ls) (hedberg ℤ-discrete _ _) (side_total-perm s)

IsLine-LineIn : (c : Text) (ls : List JournalLineInput) → All (IsLine c) ls → All (LineIn c) ls
IsLine-LineIn c [] h = tt
IsLine-LineIn c (l ∷ ls) h = (h.0.same_currency, IsLine-LineIn c ls h.1)

two-ne-nil : (ls : List JournalLineInput) → 2 ≤ length ls → ls ≢ []
two-ne-nil [] h e = absurd (omega arith)
two-ne-nil (l ∷ ls) h e = cc

bad_sums :
    (c : Text) (m : JsMap Text Sums)
    → currency_re c ≡ false
    → m ≢ []
    → All (SumsIn c) m
    → to_balances m ≡ err invalid_input
unfolding to_balances money
bad_sums c [] v n h = absurd (n refl)
bad_sums c ((id, s) ∷ m) v n h = rw (h.0, v)

module _ (locale_compare : Text → Text → Ordering) (collation : IsComparator locale_compare) where
  accepted_lines :
      (e : JournalEntryInput) (out : ValidatedEntry)
      → validate_entry locale_compare e ≡ ok out
      → All (LineIn e.currency) out.lines × (out.lines ≢ [])
  accepted_lines e out h =
      let (p, canonical) = (validate_entry_iff locale_compare e out).0 h in
      rw canonical (
        sort-All _ (line_compare-IsComparator locale_compare collation) (LineIn e.currency) e.lines
            (IsLine-LineIn e.currency e.lines p.lines),
        sort-ne-nil (line_compare locale_compare) e.lines (two-ne-nil e.lines p.two_lines),
      )

  -- The lines of an accepted entry whose currency is three capital letters have a trial balance; it
  -- is balanced, and its totals are those that the validation returned.
  pub validated_trial_balance :
      (e : JournalEntryInput) (out : ValidatedEntry)
      → validate_entry locale_compare e ≡ ok out
      → currency_re e.currency ≡ true
      → (tb : TrialBalance) × (trial_balance_from_lines locale_compare out.lines ≡ ok tb)
        × (tb.balanced ≡ true)
        × (tb.total_debit ≡ out.total_debit)
        × (tb.total_credit ≡ out.total_credit)
  validated_trial_balance e out h v =
      let (p, canonical) = (validate_entry_iff locale_compare e out).0 h in
      let (good, some_lines) = accepted_lines e out h in
      let (tb, returns, d, c, b, sorted) =
        trial_balance_from_lines_totals locale_compare e.currency out.lines collation some_lines
          good v in
      let debits : side_total debit out.lines ≡ side_total debit e.lines =
        rw canonical (side_total-sort (line_compare locale_compare) debit e.lines) in
      let credits : side_total credit out.lines ≡ side_total credit e.lines =
        rw canonical (side_total-sort (line_compare locale_compare) credit e.lines) in
      (
        tb,
        returns,
        b.1 (debits ∙ p.balanced ∙ sym credits),
        d ∙ rw (debits, canonical),
        c ∙ rw (credits, canonical),
      )

  bad_currency :
      (c : Text) (ls : List JournalLineInput)
      → currency_re c ≡ false
      → ls ≢ []
      → All (LineIn c) ls
      → trial_balance_from_lines locale_compare ls ≡ err invalid_input
  unfolding trial_balance_from_lines
  bad_currency c [] v n h = absurd (n refl)
  bad_currency c (l ∷ ls) v n h =
      let (m, e, mc) = add_lines-SumsIn c [] (l ∷ ls) tt h in
      rw (balance_per_account-cons l ls, e, bad_sums c m v (added_ne_nil m l ls e) mc)

  -- `validateEntry` does not test the form of the currency: the lines of an accepted entry whose
  -- currency is not three capital letters have no trial balance, the error being INVALID_INPUT.
  pub validated_bad_currency :
      (e : JournalEntryInput) (out : ValidatedEntry)
      → validate_entry locale_compare e ≡ ok out
      → currency_re e.currency ≡ false
      → trial_balance_from_lines locale_compare out.lines ≡ err invalid_input
  validated_bad_currency e out h v =
      let (good, some_lines) = accepted_lines e out h in
      bad_currency e.currency out.lines v some_lines good
