-- ===== src/Core/Deltas/Amounts.antt =====
-- How `projectionDeltas` reads an amount (packages/accounting-core/src/balance.ts).
use adaptive_financial_os.Common.{
  ℕ, ◌+◌, ◌*◌, ◌≡◌, ◌≢◌, refl, ◌∙◌, Text, text, pos, [], ◌∷◌, ◌++◌, take, all, All, All-append,
  true, false, is_digit, arith,
}
use adaptive_financial_os.Common.BigInt.Laws.{IsDigit, decimal, decimal_from-append, big_int-digits}
use adaptive_financial_os.Core.Types.{ok}
use adaptive_financial_os.Core.Deltas.{split_dot, to_bigint, amount_minor}

all-digits : (s : Text) → All IsDigit s → all is_digit s ≡ true
all-digits [] h = refl
all-digits (c ∷ s) h = ground (arith, h.0, all-digits s h.1)

split_dot-digits : (s : Text) → All IsDigit s → split_dot s ≡ s ∷ []
unfolding split_dot
split_dot-digits [] h = refl
split_dot-digits (c ∷ s) h = rw (split_dot-digits s h.1) (ground (arith, h.0))

split_dot-append :
    (w f : Text) → All IsDigit w → All IsDigit f → split_dot (w ++ b'.' ∷ f) ≡ w ∷ f ∷ []
unfolding split_dot
split_dot-append [] f h k = rw (split_dot-digits f k)
split_dot-append (c ∷ w) f h k = rw (split_dot-append w f h.1 k) (ground (arith, h.0))

not_digits : (w f : Text) → all is_digit (w ++ b'.' ∷ f) ≡ false
not_digits [] f = refl
not_digits (c ∷ w) f = ground (arith, not_digits w f)

-- A whole number without a point is taken as it stands.
pub amount_minor-whole : (w : Text) → w ≢ [] → All IsDigit w → amount_minor w ≡ ok (pos (decimal w))
unfolding amount_minor
amount_minor-whole [] n h = absurd (n refl)
amount_minor-whole (c ∷ w) n h = ground (arith, all-digits (c ∷ w) h, big_int-digits (c ∷ w) h)

decimal-four :
    (w : Text) (a b c d : ℕ)
    → decimal (w ++ a ∷ b ∷ c ∷ d ∷ []) ≡ decimal w * 10000 + decimal (a ∷ b ∷ c ∷ d ∷ [])
decimal-four w a b c d = decimal_from-append 0 w (a ∷ b ∷ c ∷ d ∷ []) ∙ omega arith

amount_minor-point :
    (w f : Text)
    → All IsDigit w
    → All IsDigit f
    → amount_minor (w ++ b'.' ∷ f) ≡ to_bigint (w ++ take 4 (f ++ text "0000"))
unfolding amount_minor
amount_minor-point w f h k = ground (arith, split_dot-append w f h k, not_digits w f)

-- A number with a point and four decimals is taken in units of a ten-thousandth.
pub amount_minor-decimal :
    (w : Text) (a b c d : ℕ)
    → All IsDigit w
    → All IsDigit (a ∷ b ∷ c ∷ d ∷ [])
    → amount_minor (w ++ b'.' ∷ a ∷ b ∷ c ∷ d ∷ [])
      ≡ ok (pos (decimal w * 10000 + decimal (a ∷ b ∷ c ∷ d ∷ [])))
amount_minor-decimal w a b c d h k =
    amount_minor-point w (a ∷ b ∷ c ∷ d ∷ []) h k
    ∙ ground (
      arith,
      big_int-digits (w ++ a ∷ b ∷ c ∷ d ∷ []) (All-append IsDigit w (a ∷ b ∷ c ∷ d ∷ []) h k),
      decimal-four w a b c d,
    )

-- The two forms of one whole number are read on different scales: `10` is 10 and `10.0000` is
-- 100000, and so for every row of digits `w`.
pub amount_minor-scale :
    (w : Text)
    → w ≢ []
    → All IsDigit w
    → (n : ℕ) × (amount_minor w ≡ ok (pos n))
      × (amount_minor (w ++ text ".0000") ≡ ok (pos (n * 10000)))
amount_minor-scale w n h = (
  decimal w,
  amount_minor-whole w n h,
  amount_minor-decimal w b'0' b'0' b'0' b'0' h (refl, (refl, (refl, (refl, tt)))) ∙ ground arith,
)
