-- ===== src/Api/Ledger/Balanced.antt =====
-- No run of `postEntry` leaves an unbalanced entry behind (apps/api/src/ledger/ledger.service.ts
-- with the trigger of db/migrations/0001_init.sql).
use adaptive_financial_os.Common.{
  ℕ, ◌+◌, ◌≡◌, refl, sym, subst, Text, Option, List, [], ◌∷◌, ◌++◌, map, Bool, true, false, ◌||◌,
  nat_beq, nat_beq_iff, arith, Bool-cases, ◌⊎◌, inl, inr,
}
use adaptive_financial_os.Core.Types.{DebitCredit, debit, credit}
use adaptive_financial_os.Db.{Database, LineRow, entry_total, balanced_entries}
use adaptive_financial_os.Db.Session.{Faults, Session}
use adaptive_financial_os.Api.Ledger.{
  PostEntryDto, Response, posted, bad_request, conflict, internal_server_error, uncaught,
  post_entry,
}
use adaptive_financial_os.Api.Ledger.Spec.{IsPosted, Fulfils}
use adaptive_financial_os.Api.Ledger.Atomic.{post_entry-atomic}

-- Every entry's lines add up to the same on both sides.
abbrev pub IsBalanced : Database → Type 0
IsBalanced db = (id : ℕ) → entry_total debit id db.lines ≡ entry_total credit id db.lines

abbrev mentions : ℕ → List LineRow → Bool
mentions id [] = false
mentions id (r ∷ rs) = nat_beq r.entry_id id || mentions id rs

entry_id_of : LineRow → ℕ
entry_id_of r = r.entry_id

mentioned-balanced :
    (id : ℕ) (rows lines : List LineRow)
    → balanced_entries (map (λ (r : LineRow). r.entry_id) rows) lines ≡ true
    → mentions id rows ≡ true
    → entry_total debit id lines ≡ entry_total credit id lines
mentioned-balanced id [] lines h m = cc
mentioned-balanced id (r ∷ rows) lines h m = elim (Bool-cases (nat_beq r.entry_id id)) [
  | inl e ↦
      subst (λ n. entry_total debit n lines ≡ entry_total credit n lines)
        ((nat_beq_iff r.entry_id id).0 e) (ground arith)
  | inr e ↦ mentioned-balanced id rows lines (ground arith) (ground arith)
]

unmentioned-total :
    (k : DebitCredit) (id : ℕ) (rows : List LineRow)
    → mentions id rows ≡ false
    → entry_total k id rows ≡ 0
unmentioned-total k id [] h = refl
unmentioned-total k id (r ∷ rows) h = ground (arith, unmentioned-total k id rows)

pub entry_total-append :
    (k : DebitCredit) (id : ℕ) (xs ys : List LineRow)
    → entry_total k id (xs ++ ys) ≡ entry_total k id xs + entry_total k id ys
entry_total-append k id [] ys = omega arith
entry_total-append k id (x ∷ xs) ys = omega (arith, entry_total-append k id xs ys)

rows-IsBalanced :
    (id : ℕ) (lines rows : List LineRow)
    → entry_total debit id lines ≡ entry_total credit id lines
    → balanced_entries (map (λ (r : LineRow). r.entry_id) rows) (lines ++ rows) ≡ true
    → entry_total debit id (lines ++ rows) ≡ entry_total credit id (lines ++ rows)
rows-IsBalanced id lines rows old h = elim (Bool-cases (mentions id rows)) [
  | inl m ↦ mentioned-balanced id rows (lines ++ rows) h m
  | inr m ↦ omega (
    arith,
    entry_total-append debit id lines rows,
    entry_total-append credit id lines rows,
    unmentioned-total debit id rows m,
    unmentioned-total credit id rows m,
  )
]

module _ (numeric_in : Text → Option ℕ) (dto : PostEntryDto) (c db : Database) where
  posted-IsBalanced : (id : ℕ) → IsPosted numeric_in dto c db id → IsBalanced c → IsBalanced db
  posted-IsBalanced id p h n = rw p.stored (rows-IsBalanced n c.lines p.rows (h n) p.balanced)

  same-IsBalanced : db ≡ c → IsBalanced c → IsBalanced db
  same-IsBalanced e h = subst IsBalanced (sym e) h

  either-IsBalanced :
      (db ≡ c) ⊎ ((id : ℕ) × IsPosted numeric_in dto c db id) → IsBalanced c → IsBalanced db
  either-IsBalanced (inl e) h = same-IsBalanced e h
  either-IsBalanced (inr (id, p)) h = posted-IsBalanced id p h

  Fulfils-IsBalanced : (r : Response) → Fulfils numeric_in dto c r db → IsBalanced c → IsBalanced db
  Fulfils-IsBalanced (posted id true) f h = same-IsBalanced f.0 h
  Fulfils-IsBalanced (posted id false) f h = posted-IsBalanced id f h
  Fulfils-IsBalanced bad_request f h = same-IsBalanced f h
  Fulfils-IsBalanced uncaught f h = same-IsBalanced f h
  Fulfils-IsBalanced conflict f h = either-IsBalanced f h
  Fulfils-IsBalanced internal_server_error f h = either-IsBalanced f h

-- If the lines of every entry are balanced before a request, they are after it, whatever the
-- request asks and whatever the environment does to its statements.
pub post_entry-IsBalanced :
    (faults : Faults) (numeric_in : Text → Option ℕ) (new_id : Database → ℕ) (dto : PostEntryDto)
    (s : Session)
    → IsBalanced s.committed
    → IsBalanced (post_entry faults numeric_in new_id dto s).1.committed
post_entry-IsBalanced faults numeric_in new_id dto s h =
    let (r, s') = post_entry faults numeric_in new_id dto s in
    Fulfils-IsBalanced numeric_in dto s.committed s'.committed r
      (post_entry-atomic faults numeric_in new_id dto s) h
