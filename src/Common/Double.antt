-- ===== src/Common/Double.antt =====
-- The numbers of ECMAScript, IEEE 754 doubles, as far as amounts of money need them: those that are
-- not negative. A double is counted in units of 2^-66: the least amount above 0 is 0.0001, whose
-- double is a multiple of that unit, and so are all greater doubles and their sums. A decimal is a
-- fraction of two naturals. PostgreSQL reads a number from the text that ECMAScript prints for it.
pub mod Laws
mod Tests
use Prim.Native.Nat.{ℕ, zero, suc, ◌+◌, ◌*◌, ◌/◌, ◌%◌, ◌^◌}
use adaptive_financial_os.Common.Tests.{ltb, nat_beq, if◌then◌else◌}

-- The natural number nearest to a / b, the even one of two.
unfoldable pub nearest : ℕ → ℕ → ℕ
nearest a b =
    if ltb (2 * (a % b)) b
    then a / b
    else if ltb b (2 * (a % b))
    then a / b + 1
    else a / b + (a / b) % 2

-- How many times `n` is halved until it has at most 53 bits. The fuel is the greatest exponent of a
-- double.
unfoldable pub halvings : ℕ → ℕ → ℕ
halvings zero n = 0
halvings (suc fuel) n =
    let rest = halvings fuel (n / 2) in if ltb n 9007199254740992 then 0 else suc rest

-- The double nearest to a / b units: 53 significant bits are kept.
unfoldable pub to_double : ℕ → ℕ → ℕ
unfolding nearest halvings
to_double a b = let ulp = 2 ^ halvings 1024 (a / b) in nearest a (b * ulp) * ulp

-- 2^66
abbrev pub units : ℕ
units = 73786976294838206464

-- `parseFloat`, of the decimal s / b.
unfoldable pub parse_float : ℕ → ℕ → ℕ
unfolding to_double
parse_float s b = to_double (s * units) b

-- `x + y`
unfoldable pub double_add : ℕ → ℕ → ℕ
unfolding to_double
double_add x y = to_double (x + y) 1

-- `Number.prototype.toString`: the decimal with the fewest digits that is read as the same double.
-- Seventeen digits are always enough, so that the fuel, the number of decimals, does not run out.
unfoldable pub print_from : ℕ → ℕ → ℕ → ℕ × ℕ
unfolding nearest parse_float
print_from zero b x = (x, units)
print_from (suc fuel) b x =
    let rest = print_from fuel (b * 10) x in
    let s = nearest (x * b) units in if nat_beq (parse_float s b) x then (s, b) else rest

-- A decimal as NUMERIC(20,4) takes it: in ten-thousandths, rounded to the nearest, a half up.
unfoldable pub to_scale : ℕ × ℕ → ℕ
to_scale (s, b) = (2 * (s * 10000) + b) / (2 * b)

-- A number that is bound to a column of type NUMERIC(20,4).
unfoldable pub to_numeric : ℕ → ℕ
unfolding print_from to_scale
to_numeric x = to_scale (print_from 40 1 x)

-- `parseFloat` of an amount of a column NUMERIC(20,4), in ten-thousandths.
unfoldable pub amount_double : ℕ → ℕ
unfolding parse_float
amount_double n = parse_float n 10000

-- An amount that is read as a double and stored again.
unfoldable pub carried : ℕ → ℕ
unfolding to_numeric amount_double
carried n = to_numeric (amount_double n)
