-- ===== src/Common/Double/Laws.antt =====
-- Amounts below 10^15 ten-thousandths are carried by doubles without a change, and so are sums of at
-- most 1000 amounts that stay below 10^12.
use Prim.Native.Nat.{ℕ, zero, suc, ◌+◌, ◌*◌, ◌/◌, ◌%◌, ◌^◌, ◌≤◌, ◌<◌}
use native.Mathlib.Nat.{
  div-add-mod, mod-lt, pow-suc, pow-le-pow_right, mul-le-mul_left, mul-le-mul_right,
  div-lt_iff_lt-mul, le-div_iff_mul-le, mul-pos, one-le-pow,
}
use mathlib.Core.Path.{◌≡◌, refl, ap}
use mathlib.Core.Bool.{true}
use mathlib.Core.Logic.{◌⊎◌, inl, inr}
use native.Mathlib.Omega.{arith}
use adaptive_financial_os.Common.Tests.{Bool-cases, ltb, nat_beq}
use adaptive_financial_os.Common.Double.{
  nearest, halvings, to_double, units, parse_float, double_add, print_from, to_scale, to_numeric,
  amount_double, carried,
}

-- Two numbers whose distance is at most half of a third.
abbrev pub IsNear : ℕ → ℕ → ℕ → Type 0
IsNear x y d = (2 * x ≤ 2 * y + d) × (2 * y ≤ 2 * x + d)

-- The natural number nearest to a / b is the quotient or the next one.
nearest_cases :
    (a b : ℕ)
    → ((nearest a b ≡ a / b) × (2 * (a % b) ≤ b)) ⊎ ((nearest a b ≡ a / b + 1) × (b ≤ 2 * (a % b)))
unfolding nearest
nearest_cases a b = elim (Bool-cases (ltb (2 * (a % b)) b)) [
  | inl e ↦ inl (rw e refl, ground (arith, e))
  | inr e ↦ elim (Bool-cases (ltb b (2 * (a % b)))) [
    | inl f ↦ inr (rw (e, f) refl, ground (arith, f))
    | inr f ↦ elim (parity (a / b)) [
      | inl p ↦ inl (rw (e, f) (omega (arith, p)), ground (arith, f))
      | inr p ↦ inr (rw (e, f) (omega (arith, p)), ground (arith, e))
    ]
  ]
]
  where
    parity : (n : ℕ) → (n % 2 ≡ 0) ⊎ (n % 2 ≡ 1)
    parity n = elim (Bool-cases (nat_beq (n % 2) 0)) [
      | inl e ↦ inl (ground (arith, e))
      | inr e ↦ inr (ground (arith, e))
    ]

nearest-IsNear : (a b : ℕ) → 0 < b → IsNear (nearest a b * b) a b
nearest-IsNear a b h =
    let e = div-add-mod a b in
    let l = mod-lt a h in
    elim (nearest_cases a b) [
      | inl (q, r) ↦ rw q (omega (arith, e, l, r), omega (arith, e, l, r))
      | inr (q, r) ↦ rw q (omega (arith, e, l, r), omega (arith, e, l, r))
    ]

halvings_bound : (fuel k n : ℕ) → n < 9007199254740992 * 2 ^ k → halvings fuel n ≤ k
unfolding halvings
halvings_bound zero k n h = omega arith
halvings_bound (suc fuel) zero n h = ground (arith, h)
halvings_bound (suc fuel) (suc k) n h =
    let ih = halvings_bound fuel k (n / 2) (omega (arith, h, pow-suc 2 k)) in ground (arith, ih)

scaled-IsNear :
    (a b u v r : ℕ) → IsNear (r * (b * u)) a (b * u) → b * u ≤ b * v → IsNear (r * u * b) a (b * v)
scaled-IsNear a b u v r h l = (omega (arith, h.0, l), omega (arith, h.1, l))

-- A double is as near to its fraction as half of the unit in its last place.
to_double-IsNear :
    (a b k : ℕ)
    → 0 < b
    → a < b * (9007199254740992 * 2 ^ k)
    → IsNear (to_double a b * b) a (b * 2 ^ k)
unfolding to_double
to_double-IsNear a b k h l =
    let j = halvings 1024 (a / b) in
    let small : a / b < 9007199254740992 * 2 ^ k = (div-lt_iff_lt-mul h).1 (omega (arith, l)) in
    let ulp : 2 ^ j ≤ 2 ^ k =
      pow-le-pow_right (omega arith) (halvings_bound 1024 k (a / b) small) in
    let scaled : b * 2 ^ j ≤ b * 2 ^ k = mul-le-mul_left b ulp in
    let near = nearest-IsNear a (b * 2 ^ j) (mul-pos h (one-le-pow j 2 (omega arith))) in
    scaled-IsNear a b (2 ^ j) (2 ^ k) (nearest a (b * 2 ^ j)) near scaled

beq_lem : (m n : ℕ) → nat_beq m n ≡ true → m ≡ n
beq_lem m n e = ground (arith, e)

-- A printed decimal that stands for the double x, but for less than 2^-15.
IsPrinted : ℕ → ℕ × ℕ → Type 0
IsPrinted x (s, b) = (0 < b) × IsNear (x * b) (s * units) (b * 2 ^ 51)

print_from-IsPrinted :
    (fuel b x : ℕ)
    → 0 < b
    → x ≤ 9007199254740992 * 2 ^ 50 + 2 ^ 50
    → IsPrinted x (print_from fuel b x)
unfolding print_from IsPrinted parse_float
print_from-IsPrinted zero b x h l = (omega arith, (omega arith, omega arith))
print_from-IsPrinted (suc fuel) b x h l =
    let s = nearest (x * b) units in
    let near = nearest-IsNear (x * b) units (omega arith) in
    let most = mul-le-mul_right b l in
    let small : s * units < b * (9007199254740992 * 2 ^ 51) =
      omega (arith, near.0, near.1, most, h) in
    let read = to_double-IsNear (s * units) b 51 h small in
    elim (Bool-cases (nat_beq (parse_float s b) x)) [
      | inl e ↦
          let same : parse_float s b ≡ x = beq_lem (parse_float s b) x e in
          rw e (
            h,
            (
              omega (arith, read.0, read.1, ap (λ (t : ℕ). t * b) same),
              omega (arith, read.0, read.1, ap (λ (t : ℕ). t * b) same),
            ),
          )
      | inr e ↦ rw e (print_from-IsPrinted fuel (b * 10) x (omega (arith, h)) l)
    ]

div_between : (t d n : ℕ) → 0 < d → n * d ≤ t → t < (n + 1) * d → t / d ≡ n
div_between t d n h l m =
    let least = (le-div_iff_mul-le h).1 l in
    let most = (div-lt_iff_lt-mul h).1 m in omega (arith, least, most)

to_scale_lem :
    (n x s b : ℕ)
    → 0 < b
    → IsNear (x * 10000) (n * units) (40000 * 2 ^ 50)
    → IsNear (x * b) (s * units) (b * 2 ^ 51)
    → to_scale (s, b) ≡ n
unfolding to_scale
to_scale_lem n x s b h near printed =
    let least = mul-le-mul_right b near.0 in
    let most = mul-le-mul_right b near.1 in
    div_between (2 * (s * 10000) + b) (2 * b) n (omega (arith, h))
      (omega (arith, least, most, printed.0, printed.1, h))
      (omega (arith, least, most, printed.0, printed.1, h))

-- A double that stands for n ten-thousandths is stored as such, if it is near enough.
to_numeric_lem :
    (n x : ℕ)
    → n < 1000000000000000
    → IsNear (x * 10000) (n * units) (40000 * 2 ^ 50)
    → to_numeric x ≡ n
unfolding to_numeric IsPrinted
to_numeric_lem n x h near =
    let printed = print_from-IsPrinted 40 1 x (omega arith) (omega (arith, near.0, h)) in
    to_scale_lem n x (print_from 40 1 x).0 (print_from 40 1 x).1 printed.0 near printed.1

-- An amount below 10^15 ten-thousandths is stored as it was read.
pub carried-small : (n : ℕ) → n < 1000000000000000 → carried n ≡ n
unfolding carried amount_double parse_float
carried-small n h =
    let near = to_double-IsNear (n * units) 10000 50 (omega arith) (omega (arith, h)) in
    to_numeric_lem n (to_double (n * units) 10000) h (omega (arith, near.0), omega (arith, near.1))

-- A double that stands for n ten-thousandths, after j additions.
abbrev pub Carries : ℕ → ℕ → ℕ → Type 0
Carries x n j = IsNear (x * 10000) (n * units) (j * (30000 * 2 ^ 40))

pub double_add-Carries :
    (x n m j : ℕ)
    → n + m < 1000000000000
    → j ≤ 1000
    → Carries x n j
    → Carries (double_add x (amount_double m)) (n + m) (j + 1)
unfolding double_add amount_double parse_float
double_add-Carries x n m j h l c =
    let y = to_double (m * units) 10000 in
    let near = to_double-IsNear (m * units) 10000 40 (omega arith) (omega (arith, h)) in
    let sum = to_double-IsNear (x + y) 1 41 (omega arith) (omega (arith, near.0, c.0, h, l)) in
    (omega (arith, near.0, c.0, sum.0), omega (arith, near.1, c.1, sum.1))

pub Carries-to_numeric :
    (x n j : ℕ) → n < 1000000000000 → j ≤ 1000 → Carries x n j → to_numeric x ≡ n
Carries-to_numeric x n j h l c =
    to_numeric_lem n x (omega (arith, h)) (omega (arith, c.0, l), omega (arith, c.1, l))
