-- ===== src/Relay/Projection/Totals.antt =====
-- The totals that `project` stores with an entry
-- (apps/outbox-relay/src/relay/projection.service.ts).
use adaptive_financial_os.Common.{ℕ, ◌+◌, ◌≤◌, ◌<◌, ◌≡◌, refl, ◌∙◌, List, [], ◌∷◌, length, arith}
use adaptive_financial_os.Common.Double.{amount_double, to_numeric}
use adaptive_financial_os.Common.Double.Laws.{Carries, double_add-Carries, Carries-to_numeric}
use adaptive_financial_os.Core.Types.{DebitCredit, debit, credit}
use adaptive_financial_os.Db.{EntryRow, LineRow, part, entry_total}
use adaptive_financial_os.Relay.Projection.{entry_lines, added, lines_total, projection_row}
use adaptive_financial_os.Relay.Projection.Reflects.{exact}

-- A side of lines, each amount as `read` gives it.
abbrev pub lines_sum : (ℕ → ℕ) → DebitCredit → List LineRow → ℕ
lines_sum read k [] = 0
lines_sum read k (l ∷ ls) = part k l.direction (read l.amount) + lines_sum read k ls

pub lines_sum-entry_lines :
    (k : DebitCredit) (id : ℕ) (lines : List LineRow)
    → lines_sum exact k (entry_lines id lines) ≡ entry_total k id lines
lines_sum-entry_lines k id [] = refl
lines_sum-entry_lines k id (l ∷ lines) = ground (arith, lines_sum-entry_lines k id lines)

same-Carries : (x n j : ℕ) → Carries x n j → Carries x (n + 0) (j + 1)
same-Carries x n j c = (omega (arith, c.0), omega (arith, c.1))

added-Carries :
    (k d : DebitCredit) (x n m j : ℕ)
    → n + part k d m < 1000000000000
    → j ≤ 1000
    → Carries x n j
    → Carries (added k d x (amount_double m)) (n + part k d m) (j + 1)
added-Carries debit debit x n m j h l c = double_add-Carries x n m j h l c
added-Carries debit credit x n m j h l c = same-Carries x n j c
added-Carries credit debit x n m j h l c = same-Carries x n j c
added-Carries credit credit x n m j h l c = double_add-Carries x n m j h l c

lines_total-Carries :
    (k : DebitCredit) (ls : List LineRow) (x n j : ℕ)
    → n + lines_sum exact k ls < 1000000000000
    → j + length ls ≤ 1000
    → Carries x n j
    → Carries (lines_total k ls x) (n + lines_sum exact k ls) (j + length ls)
lines_total-Carries k [] x n j h l c = (omega (arith, c.0), omega (arith, c.1))
lines_total-Carries k (r ∷ ls) x n j h l c =
    let next = added-Carries k r.direction x n r.amount j (omega (arith, h)) (omega (arith, l)) c in
    let rest =
      lines_total-Carries k ls (added k r.direction x (amount_double r.amount))
        (n + part k r.direction r.amount) (j + 1) (omega (arith, h)) (omega (arith, l)) next in
    (omega (arith, rest.0), omega (arith, rest.1))

-- The total of a side, added up as doubles and stored, is exact for at most 1000 lines that add up
-- to less than 10^8.
pub lines_total-exact :
    (k : DebitCredit) (ls : List LineRow)
    → length ls ≤ 1000
    → lines_sum exact k ls < 1000000000000
    → to_numeric (lines_total k ls 0) ≡ lines_sum exact k ls
lines_total-exact k ls l h =
    let c =
      lines_total-Carries k ls 0 0 0 (omega (arith, h)) (omega (arith, l))
        (omega arith, omega arith) in
    Carries-to_numeric (lines_total k ls 0) (lines_sum exact k ls) (length ls) h l
      (omega (arith, c.0), omega (arith, c.1))

-- For an entry of at most 1000 lines whose two sides are below 10^8 each, the totals of the row that
-- `project` inserts are the two sums that the trigger of the ledger compares, without an error of
-- rounding.
pub projection_row-totals :
    (id : ℕ) (entry : EntryRow) (lines : List LineRow)
    → length (entry_lines id lines) ≤ 1000
    → entry_total debit id lines < 1000000000000
    → entry_total credit id lines < 1000000000000
    → let row = projection_row id entry (entry_lines id lines) in
      (row.total_debit ≡ entry_total debit id lines)
      × (row.total_credit ≡ entry_total credit id lines)
projection_row-totals id entry lines l d c =
    let ds = lines_sum-entry_lines debit id lines in
    let cs = lines_sum-entry_lines credit id lines in
    (
      lines_total-exact debit (entry_lines id lines) l (omega (arith, d, ds)) ∙ ds,
      lines_total-exact credit (entry_lines id lines) l (omega (arith, c, cs)) ∙ cs,
    )
