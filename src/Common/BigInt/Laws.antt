-- ===== src/Common/BigInt/Laws.antt =====
-- `BigInt` on a text of decimal digits.
use Prim.Native.Nat.{ℕ, ◌+◌, ◌-◌, ◌*◌}
use mathlib.Core.Path.{◌≡◌, refl, sym, subst}
use mathlib.Core.Bool.{true, false}
use mathlib.Core.Option.{some}
use mathlib.Core.List.{[], ◌∷◌, ◌++◌, reverse, reverse-reverse, reverse-append}
use native.Mathlib.Omega.{arith}
use adaptive_financial_os.Common.Lists.{All, All-append}
use adaptive_financial_os.Common.Texts.{Text, is_digit}
use adaptive_financial_os.Common.Int.{pos}
use adaptive_financial_os.Common.BigInt.{
  is_space, trim_start, trim, digits_from, numeral, parse_numeral, big_int,
}

abbrev pub IsDigit : ℕ → Type 0
IsDigit c = is_digit c ≡ true

-- The value of a row of decimal digits that stands behind a value.
abbrev pub decimal_from : ℕ → Text → ℕ
decimal_from acc [] = acc
decimal_from acc (c ∷ s) = decimal_from (acc * 10 + (c - 48)) s

abbrev pub decimal : Text → ℕ
decimal = decimal_from 0

pub decimal_from-append :
    (acc : ℕ) (s t : Text) → decimal_from acc (s ++ t) ≡ decimal_from (decimal_from acc s) t
decimal_from-append acc [] t = refl
decimal_from-append acc (c ∷ s) t = decimal_from-append (acc * 10 + (c - 48)) s t

digits_from-decimal :
    (acc : ℕ) (s : Text) → All IsDigit s → digits_from 10 acc s ≡ some (decimal_from acc s)
unfolding digits_from
digits_from-decimal acc [] h = refl
digits_from-decimal acc (c ∷ s) h =
    ground (arith, h.0, digits_from-decimal (acc * 10 + (c - 48)) s h.1)

digit-not-space : (c : ℕ) → IsDigit c → is_space c ≡ false
digit-not-space c h = ground arith

trim_start-digit : (c : ℕ) (s : Text) → IsDigit c → trim_start (c ∷ s) ≡ c ∷ s
unfolding trim_start
trim_start-digit c s h = rw (digit-not-space c h, trim_start)

trim_start-digits : (s : Text) → All IsDigit s → trim_start s ≡ s
trim_start-digits [] h = unfold trim_start in refl
trim_start-digits (c ∷ s) h = trim_start-digit c s h.0

All-reverse : (s : Text) → All IsDigit s → All IsDigit (reverse s)
All-reverse [] h = tt
All-reverse (c ∷ s) h =
    subst (All IsDigit) (sym (reverse-append (c ∷ []) s))
      (All-append IsDigit (reverse s) (c ∷ []) (All-reverse s h.1) (h.0, tt))

trim-digits : (s : Text) → All IsDigit s → trim s ≡ s
unfolding trim
trim-digits s h =
    rw (trim_start-digits s h, trim_start-digits (reverse s) (All-reverse s h)) (reverse-reverse s)

numeral-digits :
    (c : ℕ) (s : Text) → All IsDigit (c ∷ s) → numeral 10 (c ∷ s) ≡ some (decimal (c ∷ s))
unfolding numeral
numeral-digits c s h = digits_from-decimal 0 (c ∷ s) h

parse_numeral-digits : (s : Text) → All IsDigit s → parse_numeral s ≡ some (pos (decimal s))
unfolding parse_numeral
parse_numeral-digits [] h = refl
parse_numeral-digits (c ∷ []) h = rw (numeral-digits c [] h)
parse_numeral-digits (c ∷ d ∷ s) h = ground (arith, h.0, h.1.0, numeral-digits c (d ∷ s) h)

-- A text of decimal digits is read as the number that they write; the empty text is 0.
pub big_int-digits : (s : Text) → All IsDigit s → big_int s ≡ some (pos (decimal s))
unfolding big_int
big_int-digits s h = rw (trim-digits s h) (parse_numeral-digits s h)
