-- ===== src/Api/Queries.antt =====
-- apps/api/src/ledger/ledger.service.ts: `listEntries`, `getEntry`, `listProjections`,
-- `listBalances` and `getProjection`, which run without a transaction. What an ORDER BY makes of
-- the rows is a parameter, since the rows have no timestamps here; a `limit` is a whole number. A
-- table that does not exist is a statement that the environment refuses with 42P01. The policies of
-- row level security are left out, as elsewhere.
pub mod Reads
pub mod Rows
pub mod Own
pub mod RoundTrip
pub mod Tests
use Prim.Native.Nat.{min}
use adaptive_financial_os.Common.{
  ℕ, Text, ℤ, pos, negsuc, List, [], ◌∷◌, ◌++◌, take, keep, Bool, true, false, nat_beq, ◌==◌, ◌&&◌,
  text_eq,
}
use adaptive_financial_os.Db.{
  Database, AccountRow, EntryRow, LineRow, ProjectionRow, BalanceRow, SqlResult, done, raised,
  other_error, undefined_table,
}
use adaptive_financial_os.Db.Session.{
  Faults, Session, Outcome, value, throw, sql, not_found_exception, Action, pure, fail, ◌>>=◌, ◌>>◌,
  query, select, release,
}

-- A row of `journal_lines` with its account's `code` and `name`.
pub record LineDetail : Type 0 where
  pub line : LineRow
  pub account_code : Text
  pub account_name : Text

-- A row of `account_balances` with its account's `code` and `name`.
pub record BalanceDetail : Type 0 where
  pub balance : BalanceRow
  pub account_code : Text
  pub account_name : Text

-- What `getEntry` returns.
pub record EntryView : Type 0 where
  pub entry : EntryRow
  pub lines : List LineDetail

-- What each ORDER BY makes of the rows.
pub record Orders : Type 0 where
  pub entries : List EntryRow → List EntryRow
  pub details : List LineDetail → List LineDetail
  pub projections : List ProjectionRow → List ProjectionRow
  pub balances : List BalanceDetail → List BalanceDetail

-- JOIN accounts a ON a.id = …, for one row: what `make` makes of the row and each such account.
unfoldable pub join : {A : Type 0} → ℕ → (AccountRow → A) → List AccountRow → List A
join account make [] = []
join account make (a ∷ accounts) =
    let rest = join account make accounts in
    elim (nat_beq a.id account) [ true ↦ make a ∷ rest | false ↦ rest ]

abbrev pub line_detail : LineRow → AccountRow → LineDetail
line_detail l a = record { line = l; account_code = a.code; account_name = a.name }

abbrev pub balance_detail : BalanceRow → AccountRow → BalanceDetail
balance_detail b a = record { balance = b; account_code = a.code; account_name = a.name }

abbrev pub line_details : List AccountRow → List LineRow → List LineDetail
line_details accounts [] = []
line_details accounts (l ∷ ls) =
    join l.account_id (line_detail l) accounts ++ line_details accounts ls

abbrev pub balance_details : List AccountRow → List BalanceRow → List BalanceDetail
balance_details accounts [] = []
balance_details accounts (b ∷ bs) =
    join b.account_id (balance_detail b) accounts ++ balance_details accounts bs

-- LIMIT, with `Math.min(limit, 100)`: the server refuses a negative one.
abbrev pub limited : {A : Type 0} → ℤ → List A → SqlResult (List A)
limited (pos n) rows = done (take (min n 100) rows)
limited (negsuc n) rows = raised other_error

-- `finally`
abbrev pub released : {A : Type 0} → Outcome A × Session → Outcome A × Session
released (r, s) = (r, release s)

-- `catch`, of the code 42P01 only.
abbrev pub on_missing_table : {A : Type 0} → Action A → Outcome A × Session → Outcome A × Session
on_missing_table other (value a, s) = (value a, s)
on_missing_table other (throw (sql undefined_table), s) = other s
on_missing_table other (throw e, s) = (throw e, s)

-- `res.rows[0]`, with `NotFoundException` for no rows.
abbrev pub first_row : {A : Type 0} → List A → Action A
first_row [] = fail not_found_exception
first_row (r ∷ rs) = pure r

module _ (faults : Faults) (orders : Orders) where
  -- SELECT set_config('app.current_tenant', $1, true)
  unfoldable pub set_config : Action (Unit {0})
  set_config = query faults (λ db. tt)

  unfoldable pub select_entries : Text → ℤ → Action (List EntryRow)
  select_entries tenant limit =
      select faults
        (λ db. limited limit (orders.entries (keep (λ e. e.tenant_id == tenant) db.entries)))

  unfoldable pub list_entries : Text → ℤ → Action (List EntryRow)
  list_entries tenant limit s = released ((set_config >> select_entries tenant limit) s)

  -- What follows the SELECT of the entry.
  unfoldable pub entry_view : ℕ → EntryRow → Action EntryView
  entry_view id entry = do
    rows ← query faults (λ db.
        orders.details (line_details db.accounts (keep (λ l. nat_beq l.entry_id id) db.lines)))
    pure (record { entry = entry; lines = rows })

  unfoldable pub select_entry : Text → ℕ → Action (List EntryRow)
  select_entry tenant id =
      query faults (λ db. keep (λ e. nat_beq e.id id && e.tenant_id == tenant) db.entries)

  unfoldable pub view_entry : Text → ℕ → Action EntryView
  view_entry tenant id = do
    rows ← select_entry tenant id
    entry ← first_row rows
    entry_view id entry

  unfoldable pub get_entry : Text → ℕ → Action EntryView
  get_entry tenant id s = released ((set_config >> view_entry tenant id) s)

  -- The inner `try`, here and below.
  unfoldable pub select_projections : Text → ℤ → Action (List ProjectionRow)
  select_projections tenant limit s = on_missing_table (pure []) (
      select faults
        (λ db.
          limited limit (orders.projections (keep (λ p. p.tenant_id == tenant) db.projections)))
        s)

  unfoldable pub list_projections : Text → ℤ → Action (List ProjectionRow)
  list_projections tenant limit s = released ((set_config >> select_projections tenant limit) s)

  unfoldable pub select_balances : Text → Action (List BalanceDetail)
  select_balances tenant s = on_missing_table (pure []) (
      query faults
        (λ db.
          orders.balances
            (balance_details db.accounts (keep (λ b. b.tenant_id == tenant) db.balances)))
        s)

  unfoldable pub list_balances : Text → Action (List BalanceDetail)
  list_balances tenant s = released ((set_config >> select_balances tenant) s)

  unfoldable pub select_projection : Text → ℕ → Action ProjectionRow
  select_projection tenant id s = on_missing_table (fail not_found_exception) (
      (query faults
            (λ db. keep (λ p. nat_beq p.entry_id id && p.tenant_id == tenant) db.projections)
          >>= first_row)
        s)

  unfoldable pub get_projection : Text → ℕ → Action ProjectionRow
  get_projection tenant id s = released ((set_config >> select_projection tenant id) s)
