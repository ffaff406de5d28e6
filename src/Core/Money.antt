-- ===== src/Core/Money.antt =====
-- packages/accounting-core/src/money.ts.
pub mod Laws
use adaptive_financial_os.Common.{
  ℕ, suc, ◌-◌, ◌^◌, Text, ℤ, pos, negsuc, ltb_ℤ, eqb_ℤ, ◌+ℤ◌, List, [], ◌∷◌, Bool, true, false, not,
  ◌&&◌, ◌||◌, is_upper, matches_classes, ◌==◌, text_eq,
}
use adaptive_financial_os.Core.Types.{
  Result, ok, err, ◌>>=◌, ◌>>◌, throw_if, ErrorCode, invalid_input, currency_mismatch, Money,
}

-- `CURRENCY_RE`, /^[A-Z]{3}$/
unfoldable pub currency_re : Text → Bool
unfolding matches_classes
currency_re = matches_classes (is_upper ∷ is_upper ∷ is_upper ∷ [])

-- `Number.MAX_SAFE_INTEGER`
abbrev pub max_safe_integer : ℕ
max_safe_integer = 2 ^ 53 - 1

-- The argument `amount: bigint | number`. A `number` is an integer, or a value that
-- `Number.isSafeInteger` refuses for another reason: NaN, an infinity or a fraction.
pub data Amount : Type 0 where
  bigint integral : ℤ → Amount
  other_number : Amount

-- `typeof amount === "number" && !Number.isSafeInteger(amount)`
unfoldable pub is_unsafe : Amount → Bool
is_unsafe (bigint n) = false
is_unsafe (integral n) = ltb_ℤ (pos max_safe_integer) n || ltb_ℤ n (negsuc (2 ^ 53 - 2))
is_unsafe other_number = true

-- `BigInt(amount)`, after the check.
unfoldable pub to_bigint : Amount → ℤ
to_bigint (bigint n) = n
to_bigint (integral n) = n
to_bigint other_number = pos 0

unfoldable pub money : Amount → Text → Result Money
unfolding is_unsafe to_bigint
money amount currency = do
  throw_if (is_unsafe amount) invalid_input
  throw_if (not (currency_re currency)) invalid_input
  ok (record { amount = to_bigint amount; currency = currency })

unfoldable pub assert_same_currency : Money → Money → Result (Unit {0})
assert_same_currency a b = throw_if (not (a.currency == b.currency)) currency_mismatch

unfoldable pub add_money : Money → Money → Result Money
unfolding assert_same_currency
add_money a b = do
  assert_same_currency a b
  ok (record { amount = a.amount +ℤ b.amount; currency = a.currency })

-- The `reduce` of `sumMoney`, from the left.
unfoldable pub sum_from : Money → List Money → Result Money
sum_from acc [] = ok acc
sum_from acc (m ∷ items) = add_money acc m >>= λ sum. sum_from sum items

unfoldable pub sum_money : List Money → Result Money
unfolding sum_from
sum_money [] = err invalid_input
sum_money (first ∷ items) = sum_from first items

unfoldable pub money_equals : Money → Money → Bool
money_equals a b = eqb_ℤ a.amount b.amount && a.currency == b.currency
