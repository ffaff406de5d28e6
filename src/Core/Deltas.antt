-- ===== src/Core/Deltas.antt =====
-- The projection helper of packages/accounting-core/src/balance.ts.
pub mod Amounts
use adaptive_financial_os.Common.{
  ℕ, Text, text, ℤ, pos, ◌+ℤ◌, Option, none, some, List, [], ◌∷◌, ◌++◌, take, all, Bool, true,
  false, not, ◌&&◌, is_empty, is_digit, nat_beq, ◌==◌, text_eq, if◌then◌else◌,
}
use adaptive_financial_os.Common.BigInt.{big_int}
use adaptive_financial_os.Common.JsMap.{JsMap, get, set}
use adaptive_financial_os.Core.Types.{Result, ok, err, ◌>>=◌, syntax_error, DebitCredit}
use adaptive_financial_os.Core.Balance.{Sums, bump, sums_or_new}

-- The amount is the text `String(line.amount)`, of a string or of a number.
pub record DbLine : Type 0 where
  pub account_id : Text
  pub direction : DebitCredit
  pub amount : Text
  pub currency : Text

-- A unit before the first part, or a dot that ends an empty one.
abbrev pub cut : Bool → ℕ → List Text → List Text
cut true c parts = [] ∷ parts
cut false c [] = (c ∷ []) ∷ []
cut false c (p ∷ ps) = (c ∷ p) ∷ ps

-- `s.split(".")`
unfoldable pub split_dot : Text → List Text
split_dot [] = [] ∷ []
split_dot (c ∷ s) = cut (nat_beq c b'.') c (split_dot s)

-- `BigInt(s)`, throwing.
abbrev pub to_bigint : Text → Result ℤ
to_bigint s = elim (big_int s) [ none ↦ err syntax_error | some n ↦ ok n ]

-- `BigInt(whole + frac)` where there are two parts, and `BigInt(amtStr)` where there are not.
abbrev pub of_parts : Text → List Text → Result ℤ
of_parts amt [] = to_bigint amt
of_parts amt (whole ∷ []) = to_bigint amt
of_parts amt (whole ∷ frac ∷ []) = to_bigint (whole ++ take 4 (frac ++ text "0000"))
of_parts amt (a ∷ b ∷ c ∷ ps) = to_bigint amt

-- `/^\d+$/`
abbrev pub digits_re : Text → Bool
digits_re s = not (is_empty s) && all is_digit s

unfoldable pub amount_minor : Text → Result ℤ
unfolding split_dot
amount_minor amt = if digits_re amt then to_bigint amt else of_parts amt (split_dot amt)

-- The body of the loop over the lines.
unfoldable pub add_db_line : JsMap Text Sums → DbLine → Result (JsMap Text Sums)
add_db_line deltas line = do
  amount ← amount_minor line.amount
  let d = sums_or_new line.currency (get line.account_id deltas)
  ok (set line.account_id (bump line.direction amount d) deltas)

unfoldable pub add_db_lines : JsMap Text Sums → List DbLine → Result (JsMap Text Sums)
add_db_lines deltas [] = ok deltas
add_db_lines deltas (line ∷ lines) = add_db_line deltas line >>= λ next. add_db_lines next lines

unfoldable pub projection_deltas : List DbLine → Result (JsMap Text Sums)
projection_deltas = add_db_lines []
