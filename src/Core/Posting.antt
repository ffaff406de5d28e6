-- ===== src/Core/Posting.antt =====
-- packages/accounting-core/src/posting.ts. `String.prototype.localeCompare` belongs to the
-- platform: it is the parameter `locale_compare`.
pub mod Spec
pub mod Guards
pub mod Valid
pub mod Order
pub mod Errors
pub mod Reorder
use Prim.Native.Nat.{Ordering}
use adaptive_financial_os.Common.{
  ℕ, Text, ℤ, pos, ltb_ℤ, eqb_ℤ, Option, List, [], ◌∷◌, map, keep, length, Bool, true, false, not,
  ◌||◌, ltb, is_empty, is_digit, nat_beq, matches_classes, ◌==◌, text_eq, if◌then◌else◌,
}
use adaptive_financial_os.Common.Sort.{or_else, sort}
use adaptive_financial_os.Core.Types.{
  Result, ok, err, ◌>>=◌, ◌>>◌, throw_if, invalid_input, invalid_date, empty_lines, negative_amount,
  currency_mismatch, unbalanced_entry, DebitCredit, debit, credit, Money, JournalLineInput,
  JournalEntryInput,
}
use adaptive_financial_os.Core.Money.{sum_money}

pub record ValidatedEntry : Type 0 where
  pub tenant_id : Text
  pub idempotency_key : Text
  pub booking_date : Text
  pub currency : Text
  pub memo : Option Text
  pub lines : List JournalLineInput
  pub total_debit : Money
  pub total_credit : Money

-- `DATE_RE`, /^\d{4}-\d{2}-\d{2}$/
unfoldable pub date_re : Text → Bool
unfolding matches_classes
date_re = matches_classes (
    is_digit
    ∷ is_digit
    ∷ is_digit
    ∷ is_digit
    ∷ nat_beq b'-'
    ∷ is_digit
    ∷ is_digit
    ∷ nat_beq b'-'
    ∷ is_digit
    ∷ is_digit
    ∷ [])

-- The body of the loop over the lines.
unfoldable pub check_line : Text → JournalLineInput → Result (Unit {0})
check_line currency line = do
  throw_if (is_empty line.account_id) invalid_input
  throw_if (ltb_ℤ line.amount.amount (pos 0)) negative_amount
  throw_if (eqb_ℤ line.amount.amount (pos 0)) invalid_input
  throw_if (not (line.amount.currency == currency)) currency_mismatch

unfoldable pub check_lines : Text → List JournalLineInput → Result (Unit {0})
check_lines currency [] = ok tt
check_lines currency (line ∷ lines) = check_line currency line >> check_lines currency lines

abbrev pub is_debit : JournalLineInput → Bool
is_debit l = elim l.side [ debit ↦ true | credit ↦ false ]

abbrev pub is_credit : JournalLineInput → Bool
is_credit l = elim l.side [ debit ↦ false | credit ↦ true ]

-- `a.side === b.side ? 0 : a.side === "DEBIT" ? -1 : 1`
abbrev pub side_compare : DebitCredit → DebitCredit → Ordering
side_compare debit debit = Ordering.eq
side_compare debit credit = Ordering.lt
side_compare credit debit = Ordering.gt
side_compare credit credit = Ordering.eq

abbrev pub amount_compare : ℤ → ℤ → Ordering
amount_compare a b =
    if ltb_ℤ a b then Ordering.lt else if ltb_ℤ b a then Ordering.gt else Ordering.eq

module _ (locale_compare : Text → Text → Ordering) where
  -- The comparator of the lines.
  unfoldable pub line_compare : JournalLineInput → JournalLineInput → Ordering
  line_compare a b =
      or_else (locale_compare a.account_id b.account_id)
        (or_else (side_compare a.side b.side) (amount_compare a.amount.amount b.amount.amount))

  unfoldable pub validate_entry : JournalEntryInput → Result ValidatedEntry
  validate_entry input = do
    throw_if (is_empty input.tenant_id) invalid_input
    throw_if (is_empty input.idempotency_key || ltb 128 (length input.idempotency_key))
        invalid_input
    throw_if (not (date_re input.booking_date)) invalid_date
    throw_if (ltb (length input.lines) 2) empty_lines
    check_lines input.currency input.lines
    let debits = keep is_debit input.lines
    let credits = keep is_credit input.lines
    throw_if (nat_beq (length debits) 0 || nat_beq (length credits) 0) unbalanced_entry
    total_debit ← sum_money (map (λ (l : JournalLineInput). l.amount) debits)
    total_credit ← sum_money (map (λ (l : JournalLineInput). l.amount) credits)
    throw_if (not (eqb_ℤ total_debit.amount total_credit.amount)) unbalanced_entry
    ok (record {
      tenant_id = input.tenant_id;
      idempotency_key = input.idempotency_key;
      booking_date = input.booking_date;
      currency = input.currency;
      memo = input.memo;
      lines = sort line_compare input.lines;
      total_debit = total_debit;
      total_credit = total_credit;
    })
