-- ===== src/Core/Posting/Order.antt =====
-- The order of the lines of a validated entry (packages/accounting-core/src/posting.ts). What is
-- used of `localeCompare` is that it is a consistent comparator, as ECMA-402 demands.
use Prim.Native.Nat.{Ordering}
use mathlib.Core.List.{Perm}
use adaptive_financial_os.Common.{
  ◌≡◌, ◌≢◌, refl, Text, ℤ, ◌≤ℤ◌, List, [], ◌∷◌, All, All-weaken, ◌⊎◌, inl, inr, keep, arith,
}
use adaptive_financial_os.Common.Sort.{IsComparator, IsSorted, or_else}
use adaptive_financial_os.Common.Sort.Laws.{
  or_else-IsComparator, sort-perm, sort-IsSorted, sort-stable, is_eq,
}
use adaptive_financial_os.Core.Types.{
  ok, DebitCredit, debit, credit, JournalLineInput, JournalEntryInput,
}
use adaptive_financial_os.Core.Posting.{
  ValidatedEntry, validate_entry, line_compare, side_compare, amount_compare,
}
use adaptive_financial_os.Core.Posting.Spec.{posted}
use adaptive_financial_os.Core.Posting.Valid.{validate_entry_iff}

side_compare-IsComparator : IsComparator side_compare
side_compare-IsComparator = record {
  flips = λ a b. ground arith;
  chains = λ a b c h k. ground arith;
}

amount_compare-IsComparator : IsComparator amount_compare
amount_compare-IsComparator = record {
  flips = λ a b. ground arith;
  chains = λ a b c h k. ground arith;
}

pub pull-IsComparator {ℓ κ} :
    {A : Type ℓ} {B : Type κ} (f : A → B) (c : B → B → Ordering)
    → IsComparator c
    → IsComparator (λ x y. c (f x) (f y))
pull-IsComparator f c h = record {
  flips = λ a b. h.flips (f a) (f b);
  chains = λ x y z. h.chains (f x) (f y) (f z);
}

-- A line stands before another: by the account; then debit before credit; then the smaller amount.
abbrev pub Precedes : (Text → Text → Ordering) → JournalLineInput → JournalLineInput → Type 0
Precedes locale_compare a b =
    (locale_compare a.account_id b.account_id ≡ Ordering.lt)
    ⊎ ((locale_compare a.account_id b.account_id ≡ Ordering.eq)
        × (((a.side ≡ debit) × (b.side ≡ credit))
            ⊎ ((a.side ≡ b.side) × (a.amount.amount ≤ℤ b.amount.amount))))

-- Each line stands before every later one.
abbrev pub AreOrdered : (Text → Text → Ordering) → List JournalLineInput → Type 0
AreOrdered locale_compare [] = Unit
AreOrdered locale_compare (a ∷ ls) =
    All (Precedes locale_compare a) ls × AreOrdered locale_compare ls

amount-precedes : (a b : ℤ) → amount_compare a b ≢ Ordering.gt → a ≤ℤ b
amount-precedes a b h = ground (arith, h)

sides-precede :
    (s t : DebitCredit) (a b : ℤ)
    → or_else (side_compare s t) (amount_compare a b) ≢ Ordering.gt
    → ((s ≡ debit) × (t ≡ credit)) ⊎ ((s ≡ t) × (a ≤ℤ b))
sides-precede debit debit a b h = inr (refl, amount-precedes a b h)
sides-precede debit credit a b h = inl (refl, refl)
sides-precede credit debit a b h = absurd (h refl)
sides-precede credit credit a b h = inr (refl, amount-precedes a b h)

line_compare-Precedes :
    (locale_compare : Text → Text → Ordering) (a b : JournalLineInput)
    → line_compare locale_compare a b ≢ Ordering.gt
    → Precedes locale_compare a b
unfolding line_compare
line_compare-Precedes locale_compare a b h =
    elim (locale_compare a.account_id b.account_id)
        as (λ o.
          or_else o (
              or_else (side_compare a.side b.side) (amount_compare a.amount.amount b.amount.amount))
            ≢ Ordering.gt
          → (o ≡ Ordering.lt)
            ⊎ ((o ≡ Ordering.eq)
                × (((a.side ≡ debit) × (b.side ≡ credit))
                    ⊎ ((a.side ≡ b.side) × (a.amount.amount ≤ℤ b.amount.amount))))) [
                      | Ordering.lt ↦ λ k. inl refl
                      | Ordering.eq ↦ λ k.
                          inr (refl, sides-precede a.side b.side a.amount.amount b.amount.amount k)
                      | Ordering.gt ↦ λ k. absurd (k refl)
                    ]
      h

IsSorted-AreOrdered :
    (locale_compare : Text → Text → Ordering) (ls : List JournalLineInput)
    → IsSorted (line_compare locale_compare) ls
    → AreOrdered locale_compare ls
IsSorted-AreOrdered locale_compare [] h = tt
IsSorted-AreOrdered locale_compare (a ∷ ls) h = (
  All-weaken (λ b. line_compare locale_compare a b ≢ Ordering.gt) (Precedes locale_compare a) ls
      (line_compare-Precedes locale_compare a) h.0,
  IsSorted-AreOrdered locale_compare ls h.1,
)

module _ (locale_compare : Text → Text → Ordering) (collation : IsComparator locale_compare) where
  pub line_compare-IsComparator : IsComparator (line_compare locale_compare)
  unfolding line_compare
  line_compare-IsComparator =
      or_else-IsComparator _ _
        (pull-IsComparator (λ (l : JournalLineInput). l.account_id) locale_compare collation)
        (or_else-IsComparator _ _
          (pull-IsComparator (λ (l : JournalLineInput). l.side) side_compare
            side_compare-IsComparator)
          (pull-IsComparator (λ (l : JournalLineInput). l.amount.amount) amount_compare
            amount_compare-IsComparator))

  -- If `localeCompare` is consistent, the lines of an accepted entry are those of the input in another
  -- order: each stands before every later one, by its account as `localeCompare` has it, then debit
  -- before credit, then the smaller amount; and lines that the comparator does not tell apart keep
  -- the order of the input.
  pub validate_entry-sorts :
      (e : JournalEntryInput) (out : ValidatedEntry)
      → validate_entry locale_compare e ≡ ok out
      → Perm out.lines e.lines
        × AreOrdered locale_compare out.lines
        × ((l : JournalLineInput)
            → keep (λ z. is_eq (line_compare locale_compare l z)) out.lines
              ≡ keep (λ z. is_eq (line_compare locale_compare l z)) e.lines)
  validate_entry-sorts e out h =
      let canonical : out ≡ posted locale_compare e =
        ((validate_entry_iff locale_compare e out).0 h).1 in
      rw canonical (
        sort-perm (line_compare locale_compare) e.lines,
        IsSorted-AreOrdered locale_compare _
            (sort-IsSorted (line_compare locale_compare) line_compare-IsComparator e.lines),
        λ l. sort-stable (line_compare locale_compare) line_compare-IsComparator l e.lines,
      )
