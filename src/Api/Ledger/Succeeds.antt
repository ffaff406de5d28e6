-- ===== src/Api/Ledger/Succeeds.antt =====
-- A request that is in order is posted if no statement fails
-- (apps/api/src/ledger/ledger.service.ts).
use adaptive_financial_os.Common.{
  ℕ, suc, ◌+◌, ◌*◌, ◌≡◌, refl, ap, ◌∙◌, Text, ℤ, pos, negsuc, ◌+ℤ◌, Option, none, some, List, [],
  ◌∷◌, ◌++◌, map, All, true, arith,
}
use adaptive_financial_os.Common.BigInt.{big_int}
use adaptive_financial_os.Core.Types.{DebitCredit, debit, credit}
use adaptive_financial_os.Db.{
  Database, AccountRow, LineRow, find_account, part, entry_total, balanced_entries,
}
use adaptive_financial_os.Db.Session.{no_faults, Session, value, statement}
use adaptive_financial_os.Api.Ledger.{
  line_row, JournalLineDto, add_amount, sum_lines, select_account, insert_line, post_line,
  post_lines,
}
use adaptive_financial_os.Api.Ledger.Steps.{AreLinesOf}

-- The number that a line's amount is the text of.
abbrev pub units_of : Option ℤ → ℕ
units_of none = 0
units_of (some (pos n)) = n
units_of (some (negsuc n)) = 0

abbrev pub units : JournalLineDto → ℕ
units l = units_of (big_int l.amount)

abbrev pub units_total : DebitCredit → List JournalLineDto → ℕ
units_total k [] = 0
units_total k (l ∷ ls) = part k l.direction (units l) + units_total k ls

-- The line's account is there, and its amount is a whole number above 0, which the column holds in
-- ten-thousandths.
pub record IsInOrder (numeric_in : Text → Option ℕ) (accounts : List AccountRow) (tenant : Text)
    (l : JournalLineDto) : Type 0 where
  pub account_id : ℕ
  pub account : find_account tenant l.account_code accounts ≡ some account_id
  pub whole : big_int l.amount ≡ some (pos (units l))
  pub rest : ℕ
  pub numeric : numeric_in l.amount ≡ some (suc rest)
  pub scaled : suc rest ≡ units l * 10000

-- What follows the reading of a line's amount.
abbrev sum_next : DebitCredit → List JournalLineDto → ℤ × ℤ → Option ℤ → Option (ℤ × ℤ)
sum_next k ls sums none = none
sum_next k ls sums (some n) = sum_lines (add_amount k n sums) ls

pairs : {a b c d : ℕ} → a ≡ c → b ≡ d → ◌≡◌ {A = ℤ × ℤ} (pos a, pos b) (pos c, pos d)
pairs e f = rw (e, f) refl

add_amount-units :
    (k : DebitCredit) (n d c : ℕ)
    → add_amount k (pos n) (pos d, pos c) ≡ (pos (d + part debit k n), pos (c + part credit k n))
unfolding ◌+ℤ◌
add_amount-units debit n d c = ground arith
add_amount-units credit n d c = ground arith

module _ (numeric_in : Text → Option ℕ) (new_id : Database → ℕ) where
  pub post_lines-value :
      (tenant : Text) (id : ℕ) (ls : List JournalLineDto) (s : Session)
      → All (IsInOrder numeric_in s.work.accounts tenant) ls
      → (s' : Session) × (post_lines no_faults numeric_in new_id tenant id ls s ≡ (value tt, s'))
  unfolding post_lines select_account post_line insert_line statement
  post_lines-value tenant id [] s h = (s, refl)
  post_lines-value tenant id (l ∷ ls) s h =
      let row = line_row no_faults numeric_in new_id tenant id h.0.account_id l (suc h.0.rest) in
      let next : Session = record s {
        work = record s.work { lines = s.work.lines ++ row ∷ [] };
        touched = (s.touched ++ []) ++ id ∷ [];
        count = s.count + 1 + 1;
      } in
      let (s', e) = post_lines-value tenant id ls next h.1 in (s', rw (h.0.account, h.0.numeric) e)

  pub sum_lines-units :
      (accounts : List AccountRow) (tenant : Text) (d c : ℕ) (ls : List JournalLineDto)
      → All (IsInOrder numeric_in accounts tenant) ls
      → sum_lines (pos d, pos c) ls
        ≡ some (pos (d + units_total debit ls), pos (c + units_total credit ls))
  unfolding sum_lines ◌+ℤ◌
  sum_lines-units accounts tenant d c [] h = ground arith
  sum_lines-units accounts tenant d c (l ∷ ls) h =
      ap (sum_next l.direction ls (pos d, pos c)) h.0.whole
      ∙ ap (λ p. sum_lines p ls) (add_amount-units l.direction (units l) d c)
      ∙ sum_lines-units accounts tenant (d + part debit l.direction (units l))
          (c + part credit l.direction (units l)) ls h.1
      ∙ ap some (pairs (omega arith) (omega arith))

  pub rows-total :
      (accounts : List AccountRow) (tenant : Text) (id : ℕ) (k : DebitCredit)
      (ls : List JournalLineDto) (rows : List LineRow)
      → All (IsInOrder numeric_in accounts tenant) ls
      → AreLinesOf numeric_in accounts tenant id ls rows
      → entry_total k id rows ≡ units_total k ls * 10000
  rows-total accounts tenant id k [] [] h a = refl
  rows-total accounts tenant id k [] (r ∷ rows) h a = absurd a
  rows-total accounts tenant id k (l ∷ ls) [] h a = absurd a
  rows-total accounts tenant id k (l ∷ ls) (r ∷ rows) h a =
      let amount : r.amount ≡ units l * 10000 =
        ground (arith, a.0.amount, h.0.numeric, h.0.scaled) in
      ground
        (arith, a.0.entry, a.0.direction, amount, rows-total accounts tenant id k ls rows h.1 a.1)

  pub balanced_rows :
      (id : ℕ) (rows : List LineRow) (lines : List LineRow) (accounts : List AccountRow)
      (tenant : Text) (ls : List JournalLineDto)
      → AreLinesOf numeric_in accounts tenant id ls rows
      → entry_total debit id lines ≡ entry_total credit id lines
      → balanced_entries (map (λ (r : LineRow). r.entry_id) rows) lines ≡ true
  balanced_rows id [] lines accounts tenant ls a e = refl
  balanced_rows id (r ∷ rows) lines accounts tenant [] a e = absurd a
  balanced_rows id (r ∷ rows) lines accounts tenant (l ∷ ls) a e =
      rw a.0.entry (ground (arith, balanced_rows id rows lines accounts tenant ls a.1 e))
