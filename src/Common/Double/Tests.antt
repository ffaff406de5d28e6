-- ===== src/Common/Double/Tests.antt =====
-- Doubles as ECMAScript computes and prints them.
use mathlib.Core.Path.{◌≡◌, refl}
use adaptive_financial_os.Common.Double.{
  nearest, halvings, to_double, parse_float, double_add, print_from, to_scale, to_numeric,
  amount_double, carried,
}

-- 0.1 + 0.2 is printed as 0.30000000000000004, and stored as 0.3000.
tenths :
    print_from 40 1 (double_add (amount_double 1000) (amount_double 2000))
    ≡ (30000000000000004, 100000000000000000)
unfolding double_add amount_double print_from parse_float to_double nearest halvings
tenths = refl

tenths-stored : to_numeric (double_add (amount_double 1000) (amount_double 2000)) ≡ 3000
unfolding double_add to_numeric amount_double print_from to_scale parse_float to_double nearest
    halvings
tenths-stored = refl

-- 9007199254740993.0000 is stored as 9007199254740992.0000.
odd : carried 90071992547409930000 ≡ 90071992547409920000
unfolding carried to_numeric amount_double print_from to_scale parse_float to_double nearest
    halvings
odd = refl

-- 12345678901234.5678 is stored as 12345678901234.5680.
long : carried 123456789012345678 ≡ 123456789012345680
unfolding carried to_numeric amount_double print_from to_scale parse_float to_double nearest
    halvings
long = refl
