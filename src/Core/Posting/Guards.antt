-- ===== src/Core/Posting/Guards.antt =====
-- Lemmas on the single guards of `validateEntry` (packages/accounting-core/src/posting.ts).
use adaptive_financial_os.Common.{
  ◌≡◌, ◌≢◌, refl, ◌⊎◌, inl, inr, Text, List, [], ◌∷◌, All, map, keep, length, Bool, false, arith,
  text_beq_iff, zero-+ℤ, nat_beq,
}
use adaptive_financial_os.Core.Types.{
  Result, ok, err, ErrorCode, debit, credit, Money, JournalLineInput,
}
use adaptive_financial_os.Core.Money.{sum_money}
use adaptive_financial_os.Core.Money.Laws.{total, InCurrency, sum_money-in}
use adaptive_financial_os.Core.Posting.{check_line, check_lines, is_debit, is_credit}
use adaptive_financial_os.Core.Posting.Spec.{side_total, HasSide, IsLine}

pub Result-cases {ℓ} :
    {A : Type ℓ} (r : Result A) → ((a : A) × (r ≡ ok a)) ⊎ ((e : ErrorCode) × (r ≡ err e))
Result-cases (ok a) = inl (a, refl)
Result-cases (err e) = inr (e, refl)

pub IsLine-check : (c : Text) (l : JournalLineInput) → IsLine c l → check_line c l ≡ ok tt
unfolding check_line
IsLine-check c l h = ground (arith, text_beq_iff l.amount.currency c)

pub check-IsLine : (c : Text) (l : JournalLineInput) → check_line c l ≡ ok tt → IsLine c l
unfolding check_line
check-IsLine c l h = record {
  account = λ e. ground arith;
  positive = ground arith;
  same_currency = ground (arith, text_beq_iff l.amount.currency c);
}

pub All-check :
    (c : Text) (ls : List JournalLineInput) → All (IsLine c) ls → check_lines c ls ≡ ok tt
unfolding check_lines
All-check c [] h = refl
All-check c (l ∷ ls) h = rw (IsLine-check c l h.0) (All-check c ls h.1)

pub check-All :
    (c : Text) (ls : List JournalLineInput) → check_lines c ls ≡ ok tt → All (IsLine c) ls
unfolding check_lines
check-All c [] h = tt
check-All c (l ∷ ls) h =
    (check-IsLine c l (ground arith), check-All c ls (ground (arith, check-IsLine c l)))

abbrev pub amounts : List JournalLineInput → List Money
amounts = map (λ (l : JournalLineInput). l.amount)

pub total-debits :
    (ls : List JournalLineInput) → total (amounts (keep is_debit ls)) ≡ side_total debit ls
total-debits [] = refl
total-debits (l ∷ ls) = ground (arith, total-debits ls, zero-+ℤ (side_total debit ls))

pub total-credits :
    (ls : List JournalLineInput) → total (amounts (keep is_credit ls)) ≡ side_total credit ls
total-credits [] = refl
total-credits (l ∷ ls) = ground (arith, total-credits ls, zero-+ℤ (side_total credit ls))

module _ (p : JournalLineInput → Bool) (c : Text) where
  kept-InCurrency :
      (ls : List JournalLineInput) → All (IsLine c) ls → All (InCurrency c) (amounts (keep p ls))
  kept-InCurrency [] h = tt
  kept-InCurrency (l ∷ ls) h = ground (arith, h.0.same_currency, kept-InCurrency ls h.1)

  pub sum_money-kept :
      (ls : List JournalLineInput)
      → All (IsLine c) ls
      → amounts (keep p ls) ≢ []
      → sum_money (amounts (keep p ls))
        ≡ ok (record { amount = total (amounts (keep p ls)); currency = c })
  sum_money-kept ls h k = sum_money-in c (amounts (keep p ls)) (kept-InCurrency ls h) k

pub HasSide-debits :
    (ls : List JournalLineInput) → HasSide debit ls → amounts (keep is_debit ls) ≢ []
HasSide-debits [] h = absurd h
HasSide-debits (l ∷ ls) h = ground (arith, HasSide-debits ls)

pub HasSide-credits :
    (ls : List JournalLineInput) → HasSide credit ls → amounts (keep is_credit ls) ≢ []
HasSide-credits [] h = absurd h
HasSide-credits (l ∷ ls) h = ground (arith, HasSide-credits ls)

pub sum_debits :
    (c : Text) (ls : List JournalLineInput)
    → All (IsLine c) ls
    → HasSide debit ls
    → sum_money (amounts (keep is_debit ls))
      ≡ ok (record { amount = side_total debit ls; currency = c })
sum_debits c ls h k = rw (← total-debits ls) (sum_money-kept is_debit c ls h (HasSide-debits ls k))

pub sum_credits :
    (c : Text) (ls : List JournalLineInput)
    → All (IsLine c) ls
    → HasSide credit ls
    → sum_money (amounts (keep is_credit ls))
      ≡ ok (record { amount = side_total credit ls; currency = c })
sum_credits c ls h k =
    rw (← total-credits ls) (sum_money-kept is_credit c ls h (HasSide-credits ls k))

pub HasSide-length_debits :
    (ls : List JournalLineInput) → HasSide debit ls → nat_beq (length (keep is_debit ls)) 0 ≡ false
HasSide-length_debits [] h = absurd h
HasSide-length_debits (l ∷ ls) h = ground (arith, HasSide-length_debits ls)

pub HasSide-length_credits :
    (ls : List JournalLineInput)
    → HasSide credit ls
    → nat_beq (length (keep is_credit ls)) 0 ≡ false
HasSide-length_credits [] h = absurd h
HasSide-length_credits (l ∷ ls) h = ground (arith, HasSide-length_credits ls)

pub length-HasSide_debits :
    (ls : List JournalLineInput) → nat_beq (length (keep is_debit ls)) 0 ≡ false → HasSide debit ls
length-HasSide_debits [] h = cc
length-HasSide_debits (l ∷ ls) h = ground (arith, length-HasSide_debits ls)

pub length-HasSide_credits :
    (ls : List JournalLineInput)
    → nat_beq (length (keep is_credit ls)) 0 ≡ false
    → HasSide credit ls
length-HasSide_credits [] h = cc
length-HasSide_credits (l ∷ ls) h = ground (arith, length-HasSide_credits ls)
