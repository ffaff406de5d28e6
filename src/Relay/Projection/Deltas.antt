-- ===== src/Relay/Projection/Deltas.antt =====
-- apps/outbox-relay/src/relay/projection.service.ts: `computeDeltas`, which computes without a
-- database what `project` adds to the balances. The sums are doubles; the amounts are texts of the
-- column, as `project` reads them.
use adaptive_financial_os.Common.{
  ℕ, ◌+◌, ◌≡◌, refl, ◌∙◌, ap, Text, nat_eq, text_eq, text_beq_iff, Option, none, some, List, [],
  ◌∷◌, All, true, Bool-cases, inl, inr, length, nat_beq, if◌then◌else◌, arith, ◌≤◌, ◌<◌,
}
use adaptive_financial_os.Common.JsMap.{JsMap, get, set, get-set}
use adaptive_financial_os.Common.Double.{amount_double, to_numeric, carried}
use adaptive_financial_os.Common.Double.Laws.{carried-small}
use adaptive_financial_os.Core.Types.{DebitCredit, debit, credit}
use adaptive_financial_os.Db.{LineRow, BalanceRow, part}
use adaptive_financial_os.Relay.Projection.{added, lines_total}
use adaptive_financial_os.Relay.Projection.Totals.{lines_sum, lines_total-exact}
use adaptive_financial_os.Relay.Projection.Atomic.{upsert_all}
use adaptive_financial_os.Relay.Projection.Reflects.{
  exact, balance_total, account_total, balance_total-upsert_all,
}

pub record Delta : Type 0 where
  pub currency : Text
  pub debit_sum : ℕ
  pub credit_sum : ℕ

abbrev pub raised_delta : LineRow → Delta → Delta
raised_delta l d = record d {
  debit_sum = added debit l.direction d.debit_sum (amount_double l.amount);
  credit_sum = added credit l.direction d.credit_sum (amount_double l.amount);
}

-- The entry of the map, which is made for the first line of an account.
abbrev pub delta_of : LineRow → Option Delta → Delta
delta_of l none = record { currency = l.currency; debit_sum = 0; credit_sum = 0 }
delta_of l (some d) = d

-- The loop.
unfoldable pub add_deltas : List LineRow → JsMap ℕ Delta → JsMap ℕ Delta
add_deltas [] m = m
add_deltas (l ∷ ls) m =
    add_deltas ls (set l.account_id (raised_delta l (delta_of l (get l.account_id m))) m)

unfoldable pub compute_deltas : List LineRow → JsMap ℕ Delta
compute_deltas ls = add_deltas ls []

-- What a map of deltas says of an account, on a side.
abbrev pub delta_on : DebitCredit → Option Delta → ℕ
delta_on k none = 0
delta_on debit (some d) = d.debit_sum
delta_on credit (some d) = d.credit_sum

-- The lines of an account, in their order.
abbrev pub account_lines : ℕ → List LineRow → List LineRow
account_lines a [] = []
account_lines a (l ∷ ls) =
    if nat_beq l.account_id a then l ∷ account_lines a ls else account_lines a ls

delta_on-raised :
    (k : DebitCredit) (l : LineRow) (o : Option Delta)
    → delta_on k (some (raised_delta l (delta_of l o)))
      ≡ added k l.direction (delta_on k o) (amount_double l.amount)
delta_on-raised debit l none = refl
delta_on-raised credit l none = refl
delta_on-raised debit l (some d) = refl
delta_on-raised credit l (some d) = refl

beq_lem : (m n : ℕ) → nat_beq m n ≡ true → m ≡ n
beq_lem m n e = ground (arith, e)

delta_on-add :
    (k : DebitCredit) (a : ℕ) (ls : List LineRow) (m : JsMap ℕ Delta)
    → delta_on k (get a (add_deltas ls m))
      ≡ lines_total k (account_lines a ls) (delta_on k (get a m))
unfolding add_deltas
delta_on-add k a [] m = refl
delta_on-add k a (l ∷ ls) m =
    let new = raised_delta l (delta_of l (get l.account_id m)) in
    delta_on-add k a ls (set l.account_id new m)
    ∙ ap (λ o. lines_total k (account_lines a ls) (delta_on k o)) (get-set l.account_id a new m)
    ∙ elim (Bool-cases (nat_beq l.account_id a)) [
      | inl e ↦ rw e (
          ap (lines_total k (account_lines a ls)) (
            delta_on-raised k l (get l.account_id m)
            ∙ ap (λ b. added k l.direction (delta_on k (get b m)) (amount_double l.amount))
                (beq_lem l.account_id a e)))
      | inr e ↦ rw e refl
    ]

lines_sum-account_lines :
    (k : DebitCredit) (t : Text) (a : ℕ) (ls : List LineRow)
    → All (λ (l : LineRow). l.tenant_id ≡ t) ls
    → lines_sum exact k (account_lines a ls) ≡ account_total exact k t a ls
lines_sum-account_lines k t a [] h = refl
lines_sum-account_lines k t a (l ∷ ls) h =
    let own = (text_beq_iff l.tenant_id t).1 h.0 in
    ground (arith, own, lines_sum-account_lines k t a ls h.1)

part-carried :
    (k d : DebitCredit) (n : ℕ) → part k d n < 1000000000000 → part k d (carried n) ≡ part k d n
part-carried debit debit n h = carried-small n (omega (arith, h))
part-carried debit credit n h = refl
part-carried credit debit n h = refl
part-carried credit credit n h = carried-small n (omega (arith, h))

account_total-bounded :
    (k : DebitCredit) (t : Text) (a : ℕ) (ls : List LineRow)
    → account_total exact k t a ls < 1000000000000
    → account_total carried k t a ls ≡ account_total exact k t a ls
account_total-bounded k t a [] h = refl
account_total-bounded k t a (l ∷ ls) h =
    ground (arith, h, part-carried k l.direction l.amount, account_total-bounded k t a ls)

-- For lines of one tenant, `computeDeltas` gives each account what the balance updates of `project`
-- add for it, on each side, or nothing if the account has no line; its double is stored as exactly
-- that, if the account has at most 1000 lines that add up to less than 10^8.
pub compute_deltas-balances :
    (k : DebitCredit) (t : Text) (a : ℕ) (ls : List LineRow) (bs : List BalanceRow)
    → All (λ (l : LineRow). l.tenant_id ≡ t) ls
    → length (account_lines a ls) ≤ 1000
    → account_total exact k t a ls < 1000000000000
    → balance_total k t a (upsert_all ls bs)
      ≡ balance_total k t a bs + to_numeric (delta_on k (get a (compute_deltas ls)))
unfolding compute_deltas
compute_deltas-balances k t a ls bs h few small =
    let sums = lines_sum-account_lines k t a ls h in
    omega (
      arith,
      balance_total-upsert_all k t a ls bs,
      account_total-bounded k t a ls small,
      ap to_numeric (delta_on-add k a ls []),
      lines_total-exact k (account_lines a ls) few (omega (arith, sums, small)),
      sums,
    )
