-- ===== src/Core/Posting/Errors.antt =====
-- The errors of `validateEntry`, in the order of its tests
-- (packages/accounting-core/src/posting.ts).
use Prim.Native.Nat.{Ordering}
use adaptive_financial_os.Common.{
  ◌≤◌, ◌≡◌, ◌≢◌, Text, List, [], ◌∷◌, ◌++◌, All, length, true, arith,
}
use adaptive_financial_os.Core.Types.{
  err, ErrorCode, unbalanced_entry, debit, credit, JournalLineInput, JournalEntryInput,
}
use adaptive_financial_os.Core.Posting.{validate_entry, check_line, check_lines, date_re}
use adaptive_financial_os.Core.Posting.Spec.{IsLine, HasSide, side_total}
use adaptive_financial_os.Core.Posting.Guards.{
  IsLine-check, All-check, sum_debits, sum_credits, HasSide-length_debits, HasSide-length_credits,
}
use adaptive_financial_os.Core.Posting.Valid.{ne-nil}

-- The header of an entry, and the number of its lines, pass.
pub record IsHeader (e : JournalEntryInput) : Type 0 where
  pub tenant : e.tenant_id ≢ []
  pub key : e.idempotency_key ≢ []
  pub key_bound : length e.idempotency_key ≤ 128
  pub date : date_re e.booking_date ≡ true
  pub two_lines : 2 ≤ length e.lines

check_lines-first :
    (c : Text) (front : List JournalLineInput) (bad : JournalLineInput)
    (rest : List JournalLineInput) (code : ErrorCode)
    → All (IsLine c) front
    → check_line c bad ≡ err code
    → check_lines c (front ++ bad ∷ rest) ≡ err code
unfolding check_lines
check_lines-first c [] bad rest code h k = rw k
check_lines-first c (l ∷ front) bad rest code h k =
    rw (IsLine-check c l h.0) (check_lines-first c front bad rest code h.1 k)

module _ (locale_compare : Text → Text → Ordering) (e : JournalEntryInput)
    (header : IsHeader e) where
  -- Of an entry whose header passes, the error is that of the first line that is refused, whatever
  -- stands behind that line.
  pub validate_entry-first_bad :
      (front rest : List JournalLineInput) (bad : JournalLineInput) (code : ErrorCode)
      → e.lines ≡ front ++ bad ∷ rest
      → All (IsLine e.currency) front
      → check_line e.currency bad ≡ err code
      → validate_entry locale_compare e ≡ err code
  unfolding validate_entry
  validate_entry-first_bad front rest bad code split good refused =
      let first : check_lines e.currency e.lines ≡ err code =
        rw split (check_lines-first e.currency front bad rest code good refused) in
      ground (
        arith,
        first,
        ne-nil e.tenant_id header.tenant,
        ne-nil e.idempotency_key header.key,
        header.key_bound,
        header.date,
        header.two_lines,
      )

  -- An entry whose header and lines pass and that has both sides is refused as unbalanced if the
  -- totals of the sides differ.
  pub validate_entry-unbalanced :
      All (IsLine e.currency) e.lines
      → HasSide debit e.lines
      → HasSide credit e.lines
      → side_total debit e.lines ≢ side_total credit e.lines
      → validate_entry locale_compare e ≡ err unbalanced_entry
  unfolding validate_entry
  validate_entry-unbalanced good d c differ = ground (
    arith,
    ne-nil e.tenant_id header.tenant,
    ne-nil e.idempotency_key header.key,
    header.key_bound,
    header.date,
    header.two_lines,
    All-check e.currency e.lines good,
    sum_debits e.currency e.lines good d,
    sum_credits e.currency e.lines good c,
    HasSide-length_debits e.lines d,
    HasSide-length_credits e.lines c,
  )
