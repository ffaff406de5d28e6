-- ===== src/Core/Money/Laws.antt =====
-- What `sumMoney` and `money` return, and when they throw (packages/accounting-core/src/money.ts).
use adaptive_financial_os.Common.{
  ◌≡◌, ◌≢◌, refl, sym, subst, ◌∙◌, Text, ℤ, pos, ◌+ℤ◌, List, [], ◌∷◌, All, text_eq, text_beq_iff,
  arith, ap, +ℤ-zero, +ℤ_assoc,
}
use adaptive_financial_os.Core.Types.{ok, err, currency_mismatch, Money}
use adaptive_financial_os.Core.Money.{add_money, sum_from, sum_money}

-- The sum of the amounts.
abbrev pub total : List Money → ℤ
total [] = pos 0
total (m ∷ ms) = m.amount +ℤ total ms

abbrev pub InCurrency : Text → Money → Type 0
InCurrency c m = m.currency ≡ c

All-map_eq : (c d : Text) (ms : List Money) → c ≡ d → All (InCurrency c) ms → All (InCurrency d) ms
All-map_eq c d ms e h = subst (λ x. All (InCurrency x) ms) e h

pub add_money-same :
    (a b : Money)
    → b.currency ≡ a.currency
    → add_money a b ≡ ok (record a { amount = a.amount +ℤ b.amount })
unfolding add_money
add_money-same a b h = ground (arith, text_beq_iff a.currency b.currency)

pub add_money-ne :
    (a b : Money) → (b.currency ≡ a.currency → ⊥) → add_money a b ≡ err currency_mismatch
unfolding add_money
add_money-ne a b h = ground (arith, text_beq_iff a.currency b.currency)

pub sum_from-same :
    (acc : Money) (ms : List Money)
    → All (InCurrency acc.currency) ms
    → sum_from acc ms ≡ ok (record acc { amount = acc.amount +ℤ total ms })
unfolding sum_from
sum_from-same acc [] h = ground (arith, +ℤ-zero acc.amount)
sum_from-same acc (m ∷ ms) h = rw (add_money-same acc m h.0) (
    sum_from-same (record acc { amount = acc.amount +ℤ m.amount }) ms h.1
    ∙ ap (λ n. ok (record acc { amount = n })) (+ℤ_assoc acc.amount m.amount (total ms)))

-- One currency throughout: the sum of a non-empty list is the sum of its amounts in the currency
-- of its first element.
pub sum_money-same :
    (m : Money) (ms : List Money)
    → All (InCurrency m.currency) ms
    → sum_money (m ∷ ms) ≡ ok (record { amount = total (m ∷ ms); currency = m.currency })
unfolding sum_money
sum_money-same m ms h = sum_from-same m ms h

pub sum_money-in :
    (c : Text) (ms : List Money)
    → All (InCurrency c) ms
    → ms ≢ []
    → sum_money ms ≡ ok (record { amount = total ms; currency = c })
sum_money-in c [] h k = absurd (k refl)
sum_money-in c (m ∷ ms) h k =
    subst (λ d. sum_money (m ∷ ms) ≡ ok (record { amount = total (m ∷ ms); currency = d })) h.0
      (sum_money-same m ms (All-map_eq c m.currency ms (sym h.0) h.1))
