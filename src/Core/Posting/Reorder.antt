-- ===== src/Core/Posting/Reorder.antt =====
-- Reordering the lines of an entry (packages/accounting-core/src/posting.ts).
use Prim.Native.Nat.{Ordering}
use mathlib.Core.List.{Permᴰ}
use adaptive_financial_os.Common.{
  ◌≡◌, refl, sym, ◌∙◌, subst, Text, List, ◌∷◌, length, arith, +ℤ_left_comm, perm-All,
}
use adaptive_financial_os.Common.Sort.{IsComparator, Alike}
use adaptive_financial_os.Common.Sort.Laws.{sort-canonical}
use adaptive_financial_os.Core.Types.{
  ok, DebitCredit, debit, credit, JournalLineInput, JournalEntryInput,
}
use adaptive_financial_os.Core.Posting.{ValidatedEntry, validate_entry, line_compare}
use adaptive_financial_os.Core.Posting.Spec.{
  IsPostable, IsLine, HasSide, posted, side_total, amount_on,
}
use adaptive_financial_os.Core.Posting.Valid.{validate_entry_iff, IsPostable-validate}
use adaptive_financial_os.Core.Posting.Order.{line_compare-IsComparator}

pub perm-length : {A : Type 0} {xs ys : List A} → Permᴰ xs ys → length xs ≡ length ys
perm-length Permᴰ.nil = refl
perm-length (Permᴰ.cons e p) = omega (arith, perm-length p)
perm-length (Permᴰ.swap e f) = refl
perm-length (Permᴰ.trans p q) = perm-length p ∙ perm-length q

pub side_total-perm :
    (s : DebitCredit) {xs ys : List JournalLineInput}
    → Permᴰ xs ys
    → side_total s xs ≡ side_total s ys
side_total-perm s Permᴰ.nil = refl
side_total-perm s (Permᴰ.cons {b} e p) = rw (e, side_total-perm s p)
side_total-perm s (Permᴰ.swap {a} {b} {l} e f) =
    rw (← e, ← f)
      (+ℤ_left_comm (amount_on s a.side a.amount.amount) (amount_on s b.side b.amount.amount)
        (side_total s l))
side_total-perm s (Permᴰ.trans p q) = side_total-perm s p ∙ side_total-perm s q

-- The side of the first line, or of a later one.
HasSide-cons :
    (s : DebitCredit) (l : JournalLineInput) (xs ys : List JournalLineInput)
    → (HasSide s xs → HasSide s ys)
    → HasSide s (l ∷ xs)
    → HasSide s (l ∷ ys)
HasSide-cons debit l xs ys k h = ground arith
HasSide-cons credit l xs ys k h = ground arith

HasSide-swap :
    (s : DebitCredit) (l m : JournalLineInput) (xs : List JournalLineInput)
    → HasSide s (l ∷ m ∷ xs)
    → HasSide s (m ∷ l ∷ xs)
HasSide-swap debit l m xs h = ground arith
HasSide-swap credit l m xs h = ground arith

HasSide-perm :
    (s : DebitCredit) {xs ys : List JournalLineInput} → Permᴰ xs ys → HasSide s xs → HasSide s ys
HasSide-perm s Permᴰ.nil h = h
HasSide-perm s (Permᴰ.cons {b} {l₁ = xs} {l₂ = ys} e p) h =
    HasSide-cons s b xs ys (HasSide-perm s p) (subst (λ x. HasSide s (x ∷ xs)) e h)
HasSide-perm s (Permᴰ.swap {a} {b} {l} e f) h = rw (← e, ← f) (HasSide-swap s a b l h)
HasSide-perm s (Permᴰ.trans p q) h = HasSide-perm s q (HasSide-perm s p h)

module _ (locale_compare : Text → Text → Ordering) (collation : IsComparator locale_compare) where
  -- An accepted entry is accepted with its lines in any other order, with the same totals, and with
  -- sorted lines that the comparator cannot tell from those of the first.
  pub validate_entry-reorder :
      (e : JournalEntryInput) (out : ValidatedEntry) (ls : List JournalLineInput)
      → validate_entry locale_compare e ≡ ok out
      → Permᴰ e.lines ls
      → (again : ValidatedEntry) × (validate_entry locale_compare (record e { lines = ls })
          ≡ ok again)
        × (again.total_debit ≡ out.total_debit)
        × (again.total_credit ≡ out.total_credit)
        × Alike (line_compare locale_compare) out.lines again.lines
  validate_entry-reorder e out ls h p =
      let (ok_e, canonical) = (validate_entry_iff locale_compare e out).0 h in
      let e' : JournalEntryInput = record e { lines = ls } in
      let postable : IsPostable e' = record {
        tenant = ok_e.tenant;
        key = ok_e.key;
        key_bound = ok_e.key_bound;
        date = ok_e.date;
        two_lines = omega (arith, perm-length p);
        lines = perm-All (IsLine e.currency) p ok_e.lines;
        has_debit = HasSide-perm debit p ok_e.has_debit;
        has_credit = HasSide-perm credit p ok_e.has_credit;
        balanced = sym (side_total-perm debit p) ∙ ok_e.balanced ∙ side_total-perm credit p;
      } in
      (
        posted locale_compare e',
        IsPostable-validate locale_compare e' postable,
        rw (canonical, side_total-perm debit p),
        rw (canonical, side_total-perm credit p),
        rw canonical (
            sort-canonical (line_compare locale_compare)
              (line_compare-IsComparator locale_compare collation) e.lines ls ∣ p ∣₁),
      )
