-- ===== src/Core/Posting/Spec.antt =====
-- The rules of double entry that packages/accounting-core/src/posting.ts enforces, stated apart
-- from the code: which entries may be posted, and what is handed on for them.
use Prim.Native.Nat.{Ordering}
use adaptive_financial_os.Common.{
  ◌≤◌, ◌≡◌, ◌≢◌, Text, ℤ, pos, ◌+ℤ◌, ◌<ℤ◌, List, [], ◌∷◌, All, length, true,
}
use adaptive_financial_os.Common.Sort.{sort}
use adaptive_financial_os.Core.Types.{
  DebitCredit, debit, credit, JournalLineInput, JournalEntryInput,
}
use adaptive_financial_os.Core.Posting.{ValidatedEntry, date_re, line_compare}

-- What a side of the entry adds up to.
abbrev pub amount_on : DebitCredit → DebitCredit → ℤ → ℤ
amount_on debit debit n = n
amount_on debit credit n = pos 0
amount_on credit debit n = pos 0
amount_on credit credit n = n

abbrev pub side_total : DebitCredit → List JournalLineInput → ℤ
side_total s [] = pos 0
side_total s (l ∷ ls) = amount_on s l.side l.amount.amount +ℤ side_total s ls

abbrev pub HasSide : DebitCredit → List JournalLineInput → Type 0
HasSide s [] = ⊥
HasSide debit (l ∷ ls) = elim l.side [ debit ↦ Unit | credit ↦ HasSide debit ls ]
HasSide credit (l ∷ ls) = elim l.side [ debit ↦ HasSide credit ls | credit ↦ Unit ]

pub record IsLine (currency : Text) (l : JournalLineInput) : Type 0 where
  pub account : l.account_id ≢ []
  pub positive : pos 0 <ℤ l.amount.amount
  pub same_currency : l.amount.currency ≡ currency

pub record IsPostable (e : JournalEntryInput) : Type 0 where
  pub tenant : e.tenant_id ≢ []
  pub key : e.idempotency_key ≢ []
  pub key_bound : length e.idempotency_key ≤ 128
  pub date : date_re e.booking_date ≡ true
  pub two_lines : 2 ≤ length e.lines
  pub lines : All (IsLine e.currency) e.lines
  pub has_debit : HasSide debit e.lines
  pub has_credit : HasSide credit e.lines
  pub balanced : side_total debit e.lines ≡ side_total credit e.lines

-- The canonical form of an entry.
abbrev pub posted : (Text → Text → Ordering) → JournalEntryInput → ValidatedEntry
posted locale_compare e = record {
  tenant_id = e.tenant_id;
  idempotency_key = e.idempotency_key;
  booking_date = e.booking_date;
  currency = e.currency;
  memo = e.memo;
  lines = sort (line_compare locale_compare) e.lines;
  total_debit = record { amount = side_total debit e.lines; currency = e.currency };
  total_credit = record { amount = side_total credit e.lines; currency = e.currency };
}
