-- ===== src/Common/BigInt.antt =====
-- `BigInt(s)` on a string, as ECMA-262 defines it (StringToBigInt): white space around is dropped,
-- the empty string is 0, a decimal numeral may have a sign, and 0x, 0o and 0b lead in other
-- radices. `none` is the `SyntaxError`.
pub mod Laws
use Prim.Native.Nat.{ℕ, zero, suc, ◌+◌, ◌-◌, ◌*◌}
use mathlib.Core.Bool.{Bool, true, false, ◌&&◌, ◌||◌}
use mathlib.Core.Option
use mathlib.Core.Option.{Option, none, some}
use mathlib.Core.List.{List, [], ◌∷◌, reverse}
use adaptive_financial_os.Common.Tests.{ltb, leb, nat_beq, if◌then◌else◌}
use adaptive_financial_os.Common.Texts.{Text, is_digit}
use adaptive_financial_os.Common.Int.{ℤ, pos, ◌-ℤ◌}

-- StrWhiteSpaceChar: WhiteSpace and LineTerminator.
abbrev pub is_space : ℕ → Bool
is_space c =
    (leb 9 c && leb c 13)
    || nat_beq c 32
    || nat_beq c 160
    || nat_beq c 0x1680
    || (leb 0x2000 c && leb c 0x200a)
    || nat_beq c 0x2028
    || nat_beq c 0x2029
    || nat_beq c 0x202f
    || nat_beq c 0x205f
    || nat_beq c 0x3000
    || nat_beq c 0xfeff

unfoldable pub trim_start : Text → Text
trim_start [] = []
trim_start (c ∷ s) = elim (is_space c) [ true ↦ trim_start s | false ↦ c ∷ s ]

unfoldable pub trim : Text → Text
unfolding trim_start
trim s = reverse (trim_start (reverse (trim_start s)))

-- The value of a digit in a radix up to 16; 16 stands for no digit.
abbrev pub digit_value : ℕ → ℕ
digit_value c =
    if is_digit c
    then c - 48
    else if leb b'a' c && leb c b'f'
    then c - 87
    else if leb b'A' c && leb c b'F'
    then c - 55
    else 16

-- The digits of a numeral, most significant first.
unfoldable pub digits_from : ℕ → ℕ → Text → Option ℕ
digits_from radix acc [] = some acc
digits_from radix acc (c ∷ s) =
    let rest = digits_from radix (acc * radix + digit_value c) s in
    if ltb (digit_value c) radix then rest else none

-- One digit or more.
unfoldable pub numeral : ℕ → Text → Option ℕ
unfolding digits_from
numeral radix [] = none
numeral radix (c ∷ s) = digits_from radix 0 (c ∷ s)

abbrev pub negate : ℕ → ℤ
negate n = pos 0 -ℤ pos n

-- A numeral after a first character that is no white space.
unfoldable pub parse_numeral : Text → Option ℤ
unfolding numeral
parse_numeral [] = some (pos 0)
parse_numeral (c ∷ []) = Option.map pos (numeral 10 (c ∷ []))
parse_numeral (c ∷ d ∷ s) =
    if nat_beq c b'+'
    then Option.map pos (numeral 10 (d ∷ s))
    else if nat_beq c b'-'
    then Option.map negate (numeral 10 (d ∷ s))
    else if nat_beq c b'0' && (nat_beq d b'x' || nat_beq d b'X')
    then Option.map pos (numeral 16 s)
    else if nat_beq c b'0' && (nat_beq d b'o' || nat_beq d b'O')
    then Option.map pos (numeral 8 s)
    else if nat_beq c b'0' && (nat_beq d b'b' || nat_beq d b'B')
    then Option.map pos (numeral 2 s)
    else Option.map pos (numeral 10 (c ∷ d ∷ s))

unfoldable pub big_int : Text → Option ℤ
unfolding trim parse_numeral
big_int s = parse_numeral (trim s)
