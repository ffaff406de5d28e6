-- ===== src/Core/Posting/Valid.antt =====
-- `validateEntry` accepts exactly the entries that the rules of double entry allow
-- (packages/accounting-core/src/posting.ts).
use Prim.Native.Nat.{Ordering}
use adaptive_financial_os.Common.{
  ◌≡◌, ◌≢◌, ◌↔◌, ◌≤◌, refl, sym, ap, ◌∙◌, Text, is_empty, [], ◌∷◌, All, length, true, false, arith,
}
use adaptive_financial_os.Core.Types.{ok, debit, credit, JournalEntryInput}
use adaptive_financial_os.Core.Posting.{ValidatedEntry, validate_entry, date_re}
use adaptive_financial_os.Core.Posting.Spec.{IsPostable, posted, side_total, HasSide, IsLine}
use adaptive_financial_os.Core.Posting.Guards.{
  All-check, check-All, sum_debits, sum_credits, HasSide-length_debits, HasSide-length_credits,
  length-HasSide_debits, length-HasSide_credits,
}

pub ne-nil : (s : Text) → s ≢ [] → is_empty s ≡ false
ne-nil [] h = absurd (h refl)
ne-nil (c ∷ s) h = refl

module _ (locale_compare : Text → Text → Ordering) (e : JournalEntryInput) where
  pub IsPostable-validate :
      IsPostable e → validate_entry locale_compare e ≡ ok (posted locale_compare e)
  unfolding validate_entry
  IsPostable-validate p = ground (
    arith,
    ne-nil e.tenant_id p.tenant,
    ne-nil e.idempotency_key p.key,
    All-check e.currency e.lines p.lines,
    sum_debits e.currency e.lines p.lines p.has_debit,
    sum_credits e.currency e.lines p.lines p.has_credit,
    HasSide-length_debits e.lines p.has_debit,
    HasSide-length_credits e.lines p.has_credit,
  )

  module _ (out : ValidatedEntry) (h : validate_entry locale_compare e ≡ ok out) where
    tenant_guard : e.tenant_id ≢ []
    unfolding validate_entry
    tenant_guard x = ground arith

    key_guard : (e.idempotency_key ≢ []) × (length e.idempotency_key ≤ 128)
    unfolding validate_entry
    key_guard = (λ x. ground arith, ground arith)

    date_guard : date_re e.booking_date ≡ true
    unfolding validate_entry
    date_guard = ground arith

    length_guard : 2 ≤ length e.lines
    unfolding validate_entry
    length_guard = ground arith

    lines_guard : All (IsLine e.currency) e.lines
    unfolding validate_entry
    lines_guard = check-All e.currency e.lines (ground arith)

    sides_guard : HasSide debit e.lines × HasSide credit e.lines
    unfolding validate_entry
    sides_guard = (
      length-HasSide_debits e.lines (ground arith),
      length-HasSide_credits e.lines (ground arith),
    )

    balance_guard : side_total debit e.lines ≡ side_total credit e.lines
    unfolding validate_entry
    balance_guard = ground (
      arith,
      sum_debits e.currency e.lines lines_guard sides_guard.0,
      sum_credits e.currency e.lines lines_guard sides_guard.1,
    )

    validate-IsPostable : IsPostable e
    validate-IsPostable = record {
      tenant = tenant_guard;
      key = key_guard.0;
      key_bound = key_guard.1;
      date = date_guard;
      two_lines = length_guard;
      lines = lines_guard;
      has_debit = sides_guard.0;
      has_credit = sides_guard.1;
      balanced = balance_guard;
    }

  ok-injective : (a b : ValidatedEntry) → ok a ≡ ok b → a ≡ b
  ok-injective a b q = cc

  -- An entry is accepted with the result `out` exactly if it meets every rule of double entry (a
  -- tenant, a key of 1 to 128 units, a date of the form YYYY-MM-DD, two lines or more, each with an
  -- account, a positive amount and the entry's currency, a line on each side, and equal totals) and
  -- `out` is its canonical form: the same fields, the sorted lines and the total of each side.
  pub validate_entry_iff :
      (out : ValidatedEntry)
      → (validate_entry locale_compare e ≡ ok out)
        ↔ (IsPostable e × (out ≡ posted locale_compare e))
  validate_entry_iff out = (
    λ h.
        let p : IsPostable e = validate-IsPostable out h in
        (p, ok-injective out (posted locale_compare e) (sym h ∙ IsPostable-validate p)),
    λ r. IsPostable-validate r.0 ∙ ap ok (sym r.1),
  )
