-- ===== src/Api/Queries/Rows.antt =====
-- Which rows the SELECTs and the joins of the queries return
-- (apps/api/src/ledger/ledger.service.ts).
use adaptive_financial_os.Common.{
  ℕ, ◌≡◌, refl, Text, List, [], ◌∷◌, keep, Bool, true, false, nat_beq, ◌==◌, ◌&&◌, text_eq,
  text_beq_iff, arith, All, All-append, All-keep, All-weaken,
}
use adaptive_financial_os.Db.{AccountRow, EntryRow, LineRow, ProjectionRow, BalanceRow}
use adaptive_financial_os.Api.Queries.{
  LineDetail, BalanceDetail, EntryView, join, line_details, line_detail, balance_details,
  balance_detail,
}

-- What the rows of a join are of.
join-All :
    {A : Type 0} (P : A → Type 0) (account : ℕ) (make : AccountRow → A) (accounts : List AccountRow)
    → ((a : AccountRow) → P (make a))
    → All P (join account make accounts)
unfolding join
join-All P account make [] h = tt
join-All P account make (a ∷ accounts) h =
    joined (nat_beq a.id account) (join account make accounts) (join-All P account make accounts h)
  where
    joined :
        (b : Bool) (rest : List _)
        → All P rest
        → All P (elim b [ true ↦ make a ∷ rest | false ↦ rest ])
    joined true rest k = (h a, k)
    joined false rest k = k

pub line_details-All :
    (P : LineRow → Type 0) (accounts : List AccountRow) (ls : List LineRow)
    → All P ls
    → All (λ (d : LineDetail). P d.line) (line_details accounts ls)
line_details-All P accounts [] h = tt
line_details-All P accounts (l ∷ ls) h =
    All-append _ (join l.account_id (line_detail l) accounts) (line_details accounts ls)
      (join-All (λ (d : LineDetail). P d.line) l.account_id (line_detail l) accounts (λ a. h.0))
      (line_details-All P accounts ls h.1)

pub balance_details-All :
    (P : BalanceRow → Type 0) (accounts : List AccountRow) (bs : List BalanceRow)
    → All P bs
    → All (λ (d : BalanceDetail). P d.balance) (balance_details accounts bs)
balance_details-All P accounts [] h = tt
balance_details-All P accounts (b ∷ bs) h =
    All-append _ (join b.account_id (balance_detail b) accounts) (balance_details accounts bs)
      (join-All (λ (d : BalanceDetail). P d.balance) b.account_id (balance_detail b) accounts
        (λ a. h.0))
      (balance_details-All P accounts bs h.1)

both : (a b : Bool) → a && b ≡ true → (a ≡ true) × (b ≡ true)
both true b h = (refl, h)
both false b h = cc

-- What `getEntry` and `getProjection` may return.
pub record IsViewOf (tenant : Text) (entry_id : ℕ) (v : EntryView) : Type 0 where
  pub id : v.entry.id ≡ entry_id
  pub tenant_id : v.entry.tenant_id ≡ tenant
  pub lines : All (λ (d : LineDetail). d.line.entry_id ≡ entry_id) v.lines

pub record IsProjectionOf (tenant : Text) (entry : ℕ) (p : ProjectionRow) : Type 0 where
  pub entry_id : p.entry_id ≡ entry
  pub tenant_id : p.tenant_id ≡ tenant

pub entries_of :
    (tenant : Text) (id : ℕ) (rows : List EntryRow)
    → All
        (λ (e : EntryRow). (e.id ≡ id) × (e.tenant_id ≡ tenant))
        (keep (λ e. nat_beq e.id id && e.tenant_id == tenant) rows)
entries_of tenant id rows =
    All-weaken _ _ _
      (λ (e : EntryRow) h.
        let (i, t) = both (nat_beq e.id id) (e.tenant_id == tenant) h in
        (ground (arith, i), (text_beq_iff e.tenant_id tenant).0 t))
      (All-keep _ rows)

pub projections_of :
    (tenant : Text) (id : ℕ) (rows : List ProjectionRow)
    → All
        (IsProjectionOf tenant id)
        (keep (λ p. nat_beq p.entry_id id && p.tenant_id == tenant) rows)
projections_of tenant id rows =
    All-weaken _ _ _
      (λ (p : ProjectionRow) h.
        let (i, t) = both (nat_beq p.entry_id id) (p.tenant_id == tenant) h in
        record { entry_id = ground (arith, i); tenant_id = (text_beq_iff p.tenant_id tenant).0 t })
      (All-keep _ rows)

pub lines_of :
    (id : ℕ) (rows : List LineRow)
    → All (λ (l : LineRow). l.entry_id ≡ id) (keep (λ l. nat_beq l.entry_id id) rows)
lines_of id rows = All-weaken _ _ _ (λ (l : LineRow) h. ground (arith, h)) (All-keep _ rows)
