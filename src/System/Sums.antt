-- ===== src/System/Sums.antt =====
-- What the balances of all accounts add up to, and what new lines leave as it is.
use adaptive_financial_os.Common.{
  some, ℕ, ◌+◌, ◌≡◌, refl, ap, Text, List, [], ◌∷◌, ◌++◌, All, true, false, nat_beq, arith,
}
use adaptive_financial_os.Common.Double.{carried}
use adaptive_financial_os.Common.Double.Laws.{carried-small}
use adaptive_financial_os.Core.Types.{DebitCredit, debit, credit}
use adaptive_financial_os.Db.{EntryRow, LineRow, ProjectionRow, BalanceRow, entry_total, is_entry}
use adaptive_financial_os.Relay.Projection.{entry_lines, delta, upsert, find_entry}
use adaptive_financial_os.Relay.Projection.Atomic.{upsert_all}
use adaptive_financial_os.Relay.Projection.Totals.{lines_sum, lines_sum-entry_lines}
use adaptive_financial_os.Relay.Projection.Reflects.{
  AreSmall, entry_lines-AreSmall, exact, total_on, account_total, projected_total, total_on-new,
  total_on-raised,
}

-- A side of all balances, and of all lines of projected entries, each amount of a line as `read`
-- gives it.
abbrev pub grand_total : DebitCredit → List BalanceRow → ℕ
grand_total k [] = 0
grand_total k (r ∷ rs) = total_on k r + grand_total k rs

abbrev pub projected_sum : (ℕ → ℕ) → DebitCredit → List ProjectionRow → List LineRow → ℕ
projected_sum read k [] lines = 0
projected_sum read k (p ∷ ps) lines =
    lines_sum read k (entry_lines p.entry_id lines) + projected_sum read k ps lines

pub projected_sum-balanced :
    (ps : List ProjectionRow) (lines : List LineRow)
    → ((id : ℕ) → entry_total debit id lines ≡ entry_total credit id lines)
    → projected_sum exact debit ps lines ≡ projected_sum exact credit ps lines
projected_sum-balanced [] lines h = refl
projected_sum-balanced (p ∷ ps) lines h = omega (
  arith,
  lines_sum-entry_lines debit p.entry_id lines,
  lines_sum-entry_lines credit p.entry_id lines,
  h p.entry_id,
  projected_sum-balanced ps lines h,
)

lines_sum-small :
    (k : DebitCredit) (ls : List LineRow)
    → AreSmall ls
    → lines_sum carried k ls ≡ lines_sum exact k ls
lines_sum-small k [] h = refl
lines_sum-small k (l ∷ ls) h = rw (carried-small l.amount h.0) (rw (lines_sum-small k ls h.1) refl)

pub projected_sum-small :
    (k : DebitCredit) (ps : List ProjectionRow) (ls : List LineRow)
    → AreSmall ls
    → projected_sum carried k ps ls ≡ projected_sum exact k ps ls
projected_sum-small k [] ls h = refl
projected_sum-small k (p ∷ ps) ls h = omega (
  arith,
  lines_sum-small k (entry_lines p.entry_id ls) (entry_lines-AreSmall p.entry_id ls h),
  projected_sum-small k ps ls h,
)

pub projected_sum-append :
    (k : DebitCredit) (ps : List ProjectionRow) (p : ProjectionRow) (lines : List LineRow)
    → projected_sum carried k (ps ++ p ∷ []) lines
      ≡ projected_sum carried k ps lines + lines_sum carried k (entry_lines p.entry_id lines)
projected_sum-append k [] p lines = omega arith
projected_sum-append k (q ∷ ps) p lines = omega (arith, projected_sum-append k ps p lines)

grand_total-upsert :
    (k : DebitCredit) (l : LineRow) (bs : List BalanceRow)
    → grand_total k (upsert l bs) ≡ grand_total k bs + delta k l
unfolding upsert
grand_total-upsert k l [] = ground (arith, total_on-new k l)
grand_total-upsert k l (r ∷ bs) = ground (arith, total_on-raised k l r, grand_total-upsert k l bs)

pub grand_total-upsert_all :
    (k : DebitCredit) (ls : List LineRow) (bs : List BalanceRow)
    → grand_total k (upsert_all ls bs) ≡ grand_total k bs + lines_sum carried k ls
grand_total-upsert_all k [] bs = omega arith
grand_total-upsert_all k (l ∷ ls) bs =
    omega (arith, grand_total-upsert_all k ls (upsert l bs), grand_total-upsert k l bs)

-- New lines of one entry are no lines of another.
entry_lines-others :
    (n id : ℕ) (rows : List LineRow)
    → nat_beq id n ≡ false
    → All (λ (r : LineRow). r.entry_id ≡ id) rows
    → entry_lines n rows ≡ []
entry_lines-others n id [] d h = refl
entry_lines-others n id (r ∷ rows) d h = ground (arith, h.0, entry_lines-others n id rows d h.1)

pub entry_lines-append_others :
    (n id : ℕ) (lines rows : List LineRow)
    → nat_beq id n ≡ false
    → All (λ (r : LineRow). r.entry_id ≡ id) rows
    → entry_lines n (lines ++ rows) ≡ entry_lines n lines
entry_lines-append_others n id [] rows d h = entry_lines-others n id rows d h
entry_lines-append_others n id (l ∷ lines) rows d h =
    ground (arith, entry_lines-append_others n id lines rows d h)

-- The lines of every projected entry stay.
abbrev pub KeepsLines : List LineRow → List LineRow → ProjectionRow → Type 0
KeepsLines lines lines' p = entry_lines p.entry_id lines' ≡ entry_lines p.entry_id lines

pub projected_total-kept :
    (k : DebitCredit) (t : Text) (a : ℕ) (ps : List ProjectionRow) (lines lines' : List LineRow)
    → All (KeepsLines lines lines') ps
    → projected_total carried k t a ps lines' ≡ projected_total carried k t a ps lines
projected_total-kept k t a [] lines lines' h = refl
projected_total-kept k t a (p ∷ ps) lines lines' h =
    omega
      (arith, ap (account_total carried k t a) h.0, projected_total-kept k t a ps lines lines' h.1)

pub projected_sum-kept :
    (k : DebitCredit) (ps : List ProjectionRow) (lines lines' : List LineRow)
    → All (KeepsLines lines lines') ps
    → projected_sum carried k ps lines' ≡ projected_sum carried k ps lines
projected_sum-kept k [] lines lines' h = refl
projected_sum-kept k (p ∷ ps) lines lines' h =
    omega (arith, ap (lines_sum carried k) h.0, projected_sum-kept k ps lines lines' h.1)

-- The entries that the projections are of.
abbrev pub IsOf : List EntryRow → ProjectionRow → Type 0
IsOf entries p = is_entry p.entry_id entries ≡ true

other_id :
    (n id : ℕ) (entries : List EntryRow)
    → is_entry n entries ≡ true
    → is_entry id entries ≡ false
    → nat_beq id n ≡ false
other_id n id [] h k = cc
other_id n id (e ∷ entries) h k = ground (arith, other_id n id entries)

pub KeepsLines-new :
    (id : ℕ) (entries : List EntryRow) (ps : List ProjectionRow) (lines rows : List LineRow)
    → All (IsOf entries) ps
    → is_entry id entries ≡ false
    → All (λ (r : LineRow). r.entry_id ≡ id) rows
    → All (KeepsLines lines (lines ++ rows)) ps
KeepsLines-new id entries [] lines rows h k r = tt
KeepsLines-new id entries (p ∷ ps) lines rows h k r = (
  entry_lines-append_others p.entry_id id lines rows (other_id p.entry_id id entries h.0 k) r,
  KeepsLines-new id entries ps lines rows h.1 k r,
)

is_entry-append :
    (n : ℕ) (entries : List EntryRow) (e : EntryRow)
    → is_entry n entries ≡ true
    → is_entry n (entries ++ e ∷ []) ≡ true
is_entry-append n [] e h = cc
is_entry-append n (x ∷ entries) e h = ground (arith, is_entry-append n entries e)

pub IsOf-append :
    (entries : List EntryRow) (e : EntryRow) (ps : List ProjectionRow)
    → All (IsOf entries) ps
    → All (IsOf (entries ++ e ∷ [])) ps
IsOf-append entries e [] h = tt
IsOf-append entries e (p ∷ ps) h =
    (is_entry-append p.entry_id entries e h.0, IsOf-append entries e ps h.1)

pub find_entry-is_entry :
    (id : ℕ) (entries : List EntryRow) (e : EntryRow)
    → find_entry id entries ≡ some e
    → is_entry id entries ≡ true
find_entry-is_entry id [] e h = cc
find_entry-is_entry id (x ∷ entries) e h = ground (arith, find_entry-is_entry id entries e)
