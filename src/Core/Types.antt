-- ===== src/Core/Types.antt =====
-- packages/accounting-core/src/types.ts and errors.ts. An error is modelled by its code; the
-- message is text for people.
use adaptive_financial_os.Common.{◌≡◌, refl, Text, ℤ, List, Option, Bool, true, false}

-- The codes of `AccountingError`.
pub data ErrorCode : Type 0 where
  unbalanced_entry empty_lines currency_mismatch negative_amount invalid_date invalid_input :
      ErrorCode
  -- a `SyntaxError` that `BigInt` throws, which is no `AccountingError`
  syntax_error : ErrorCode

-- What a function that may throw returns.
pub data Result {α} (T : Type α) : Type α where
  ok : T → Result T
  err : ErrorCode → Result T

module _ {α β} {S : Type α} {T : Type β} where
  infixl 5 ◌>>=◌
  abbrev pub ◌>>=◌ : Result S → (S → Result T) → Result T
  err code >>= next = err code
  ok s >>= next = next s

module _ {β} {T : Type β} where
  infixl 5 ◌>>◌
  abbrev pub ◌>>◌ : Result (Unit {0}) → Result T → Result T
  first >> second = first >>= λ passed. second

-- `if (bad) throw new AccountingError(…, e)`
abbrev pub throw_if : Bool → ErrorCode → Result (Unit {0})
throw_if true e = err e
throw_if false e = ok tt

pub data DebitCredit : Type 0 where
  debit credit : DebitCredit

pub record Money : Type 0 where
  pub amount : ℤ
  pub currency : Text

pub record JournalLineInput : Type 0 where
  pub account_id : Text
  pub side : DebitCredit
  pub amount : Money
  pub memo : Option Text

pub record JournalEntryInput : Type 0 where
  pub tenant_id : Text
  pub idempotency_key : Text
  pub booking_date : Text
  pub currency : Text
  pub memo : Option Text
  pub lines : List JournalLineInput

-- A chain that returns has a first step that returned.
pub bind-ok {α β} :
    {S : Type α} {T : Type β} (first : Result S) (next : S → Result T) {out : T}
    → (first >>= next) ≡ ok out
    → (s : S) × (first ≡ ok s) × (next s ≡ ok out)
bind-ok (ok s) next h = (s, refl, h)
bind-ok (err code) next h = cc
