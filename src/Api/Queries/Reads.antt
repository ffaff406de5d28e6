-- ===== src/Api/Queries/Reads.antt =====
-- Rules for queries that commit nothing, and for lists of a tenant's rows
-- (apps/api/src/ledger/ledger.service.ts).
use Prim.Native.Nat.{min}
use mathlib.Core.List.{Permᴰ}
use adaptive_financial_os.Common.{
  ◌≤◌, ◌≡◌, refl, sym, ◌∙◌, ap, subst, Text, ℤ, pos, negsuc, Option, none, some, List, keep, length,
  ◌==◌, text_eq, text_beq_iff, arith, All, All-keep, All-take, All-weaken, length-take,
}
use adaptive_financial_os.Db.{
  Database, EntryRow, ProjectionRow, SqlResult, done, raised, other_error, undefined_table,
  unique_violation,
}
use adaptive_financial_os.Db.Session.{
  Fault, refuse, lose_answer, Faults, Session, Outcome, value, throw, sql, not_found_exception,
  Action, under, read, query, select,
}
use adaptive_financial_os.Db.Ensures.{Ensures, Ensures-query, Ends}
use adaptive_financial_os.Api.Queries.{
  LineDetail, BalanceDetail, Orders, limited, released, on_missing_table,
}

-- An ORDER BY only reorders.
pub record Reorders (orders : Orders) : Type 0 where
  pub entries : (rows : List EntryRow) → Permᴰ rows (orders.entries rows)
  pub details : (rows : List LineDetail) → Permᴰ rows (orders.details rows)
  pub projections : (rows : List ProjectionRow) → Permᴰ rows (orders.projections rows)
  pub balances : (rows : List BalanceDetail) → Permᴰ rows (orders.balances rows)

-- A query that commits nothing, and what it returns.
abbrev pub Reads : {A : Type 0} → (A → Type 0) → Database → Outcome A × Session → Type 0
Reads P c r = Ends (λ a db. (db ≡ c) × P a) (λ db. db ≡ c) r

module _ {A : Type 0} (P : A → Type 0) (c : Database) where
  pub Reads-released : (r : Outcome A × Session) → Reads P c r → Reads P c (released r)
  Reads-released (value a, s) h = h
  Reads-released (throw e, s) h = h

  pub Reads-on_missing_table :
      (other : Action A) (r : Outcome A × Session)
      → ((s : Session) → s.committed ≡ c → Reads P c (other s))
      → Reads P c r
      → Reads P c (on_missing_table other r)
  Reads-on_missing_table other (value a, s) k h = h
  Reads-on_missing_table other (throw (sql undefined_table), s) k h = k s h
  Reads-on_missing_table other (throw (sql unique_violation), s) k h = h
  Reads-on_missing_table other (throw (sql other_error), s) k h = h
  Reads-on_missing_table other (throw not_found_exception, s) k h = h

  Reads-of : (r : Outcome A × Session) → Ensures c (λ a s. P a) r → Reads P c r
  Reads-of (value a, s) h = h
  Reads-of (throw e, s) h = h

  Reads-under :
      (o : Option Fault) (x : SqlResult A) (s : Session)
      → s.committed ≡ c
      → ((a : A) → x ≡ done a → P a)
      → Reads P c (under o (read x s) s)
  Reads-under none (done a) s e h = (e, h a refl)
  Reads-under none (raised f) s e h = e
  Reads-under (some (refuse f)) x s e h = e
  Reads-under (some (lose_answer f)) (done a) s e h = e
  Reads-under (some (lose_answer f)) (raised g) s e h = e

  pub Reads-select :
      (faults : Faults) (f : Database → SqlResult A) (s : Session)
      → s.committed ≡ c
      → ((a : A) → f c ≡ done a → P a)
      → Reads P c (select faults f s)
  unfolding select
  Reads-select faults f s e h =
      Reads-under (faults s.count) (f s.committed) s e (λ a g. h a (ap f (sym e) ∙ g))

  pub Reads-query :
      (faults : Faults) (f : Database → A) (s : Session)
      → s.committed ≡ c
      → P (f c)
      → Reads P c (query faults f s)
  Reads-query faults f s e h = Reads-weaken (query faults f s) (Ensures-query faults f s c e) h
    where
      Reads-weaken :
          (r : Outcome A × Session) → Ensures c (λ a s'. a ≡ f c) r → P (f c) → Reads P c r
      Reads-weaken (value a, t) k p = (k.0, subst P (sym k.1) p)
      Reads-weaken (throw x, t) k p = k

module _ {A : Type 0} (tenant_of : A → Text) (tenant : Text) where
  -- The rows of the tenant.
  pub own_rows :
      (rows : List A) → All (λ r. tenant_of r ≡ tenant) (keep (λ r. tenant_of r == tenant) rows)
  own_rows rows =
      All-weaken _ _ _ (λ r e. (text_beq_iff (tenant_of r) tenant).0 e) (All-keep _ rows)

  -- The rows that a list with a limit may return.
  abbrev pub IsPage : List A → Type 0
  IsPage rows = All (λ r. tenant_of r ≡ tenant) rows × (length rows ≤ 100)

  pub page :
      (limit : ℤ) (rows page : List A)
      → All (λ r. tenant_of r ≡ tenant) rows
      → limited limit rows ≡ done page
      → IsPage page
  page (pos n) rows p h e =
      subst IsPage (ground arith)
        (All-take _ (min n 100) rows h, omega (arith, length-take (min n 100) rows))
  page (negsuc n) rows p h e = cc
