-- ===== src/Api/Queries/Own.antt =====
-- Whatever statements fail, the queries of apps/api/src/ledger/ledger.service.ts return rows of the
-- tenant only.
use adaptive_financial_os.Common.{
  ℕ, ◌≡◌, refl, sym, subst, Text, ℤ, List, [], ◌∷◌, keep, nat_beq, ◌==◌, ◌&&◌, text_eq, arith, All,
  perm-All,
}
use adaptive_financial_os.Db.{Database, EntryRow, ProjectionRow, BalanceRow, SqlResult}
use adaptive_financial_os.Db.Session.{
  Faults, Session, not_found_exception, Action, pure, fail, ◌>>=◌, query, select,
}
use adaptive_financial_os.Db.Ensures.{Ensures-query, Ends-bind}
use adaptive_financial_os.Api.Queries.{
  LineDetail, BalanceDetail, Orders, line_details, balance_details, limited, released, first_row,
  set_config, list_entries, select_entries, select_entry, select_projections, select_balances,
  select_projection, entry_view, view_entry, get_entry, list_projections, list_balances,
  get_projection,
}
use adaptive_financial_os.Api.Queries.Reads.{
  Reorders, Reads, Reads-released, Reads-on_missing_table, Reads-select, Reads-query, own_rows,
  IsPage, page,
}
use adaptive_financial_os.Api.Queries.Rows.{
  line_details-All, balance_details-All, IsViewOf, IsProjectionOf, entries_of, projections_of,
  lines_of,
}

module _ (faults : Faults) (orders : Orders) where
  -- What follows `set_config`.
  Reads-after :
      {A : Type 0} (P : A → Type 0) (next : Action A) (s : Session)
      → ((s' : Session) → s'.committed ≡ s.committed → Reads P s.committed (next s'))
      → Reads P s.committed (released ((set_config faults orders >>= λ _. next) s))
  unfolding set_config
  Reads-after P next s k = Reads-released P s.committed _ (
      Ends-bind s.committed (λ a s'. a ≡ tt) _ _ refl (query faults (λ db. tt)) (λ _. next) s
        (Ensures-query faults (λ db. tt) s s.committed refl) (λ _ s' e h. k s' e))

  Reads-query_bind :
      {X A : Type 0} (P : A → Type 0) (c : Database) (f : Database → X) (next : X → Action A)
      (s : Session)
      → s.committed ≡ c
      → ((x : X) (s' : Session) → s'.committed ≡ c → x ≡ f c → Reads P c (next x s'))
      → Reads P c ((query faults f >>= next) s)
  Reads-query_bind P c f next s e k =
      Ends-bind c (λ x s'. x ≡ f c) _ _ refl (query faults f) next s (Ensures-query faults f s c e)
        (λ x s' e' g. k x s' e' g)

  Reads-first_row :
      {A : Type 0} (P : A → Type 0) (c : Database) (f : Database → List A) (s : Session)
      → s.committed ≡ c
      → All P (f c)
      → Reads P c ((query faults f >>= first_row) s)
  Reads-first_row P c f s e h =
      Reads-query_bind P c f first_row s e
        (λ rows s' e' g. first rows s' e' (subst (All P) (sym g) h))
    where
      first :
          (rows : List _) (t : Session)
          → t.committed ≡ c
          → All P rows
          → Reads P c (first_row rows t)
      first [] t k q = k
      first (r ∷ rows) t k q = (k, q.0)

  Reads-entry_view :
      (tenant : Text) (id : ℕ) (c : Database) (entry : EntryRow) (s : Session)
      → Reorders orders
      → s.committed ≡ c
      → (entry.id ≡ id) × (entry.tenant_id ≡ tenant)
      → Reads (IsViewOf tenant id) c (entry_view faults orders id entry s)
  unfolding entry_view
  Reads-entry_view tenant id c entry s laws e h =
      let own =
        laws.details (line_details c.accounts (keep (λ l. nat_beq l.entry_id id) c.lines)) in
      Reads-query_bind (IsViewOf tenant id) c
        (λ db.
          orders.details (line_details db.accounts (keep (λ l. nat_beq l.entry_id id) db.lines)))
        (λ rows. pure (record { entry = entry; lines = rows })) s e
        (λ rows s' e' g. (
          e',
          record {
            id = h.0;
            tenant_id = h.1;
            lines =
                subst (All (λ (d : LineDetail). d.line.entry_id ≡ id)) (sym g)
                  (perm-All _ own (line_details-All _ c.accounts _ (lines_of id c.lines)));
          },
        ))

  Reads-get_entry :
      (tenant : Text) (id : ℕ) (s : Session)
      → Reorders orders
      → Reads (IsViewOf tenant id) s.committed (get_entry faults orders tenant id s)
  unfolding get_entry view_entry select_entry
  Reads-get_entry tenant id s laws =
      Reads-after (IsViewOf tenant id) (view_entry faults orders tenant id) s (λ s1 e1.
        Reads-query_bind (IsViewOf tenant id) s.committed
          (λ db. keep (λ e. nat_beq e.id id && e.tenant_id == tenant) db.entries)
          (λ rows. first_row rows >>= entry_view faults orders id) s1 e1
          (λ rows s2 e2 g.
            viewed rows s2 e2 (subst (All _) (sym g) (entries_of tenant id s.committed.entries))))
    where
      viewed :
          (rows : List EntryRow) (t : Session)
          → t.committed ≡ s.committed
          → All (λ (e : EntryRow). (e.id ≡ id) × (e.tenant_id ≡ tenant)) rows
          → Reads
              (IsViewOf tenant id)
              s.committed
              ((first_row rows >>= entry_view faults orders id) t)
      viewed [] t k h = k
      viewed (entry ∷ rows) t k h = Reads-entry_view tenant id s.committed entry t laws k h.0

  Reads-list_entries :
      (tenant : Text) (limit : ℤ) (s : Session)
      → Reorders orders
      → Reads
          (IsPage (λ (e : EntryRow). e.tenant_id) tenant)
          s.committed
          (list_entries faults orders tenant limit s)
  unfolding list_entries select_entries
  Reads-list_entries tenant limit s laws =
      let P = IsPage (λ (e : EntryRow). e.tenant_id) tenant in
      Reads-after P (select_entries faults orders tenant limit) s (λ s1 e1.
        Reads-select P s.committed faults
          (λ db. limited limit (orders.entries (keep (λ e. e.tenant_id == tenant) db.entries))) s1
          e1
          (λ rows g.
            page (λ (e : EntryRow). e.tenant_id) tenant limit _ rows
              (perm-All _ (laws.entries _)
                (own_rows (λ (e : EntryRow). e.tenant_id) tenant s.committed.entries))
              g))

  Reads-list_projections :
      (tenant : Text) (limit : ℤ) (s : Session)
      → Reorders orders
      → Reads
          (IsPage (λ (p : ProjectionRow). p.tenant_id) tenant)
          s.committed
          (list_projections faults orders tenant limit s)
  unfolding list_projections select_projections
  Reads-list_projections tenant limit s laws =
      let P = IsPage (λ (p : ProjectionRow). p.tenant_id) tenant in
      let f : Database → SqlResult (List ProjectionRow) = λ db.
        limited limit (orders.projections (keep (λ p. p.tenant_id == tenant) db.projections)) in
      Reads-after P (select_projections faults orders tenant limit) s (λ s1 e1.
        Reads-on_missing_table P s.committed (pure []) (select faults f s1)
          (λ t k. (k, (tt, omega arith)))
          (Reads-select P s.committed faults f s1 e1 (λ rows g.
            page (λ (p : ProjectionRow). p.tenant_id) tenant limit _ rows
              (perm-All _ (laws.projections _)
                (own_rows (λ (p : ProjectionRow). p.tenant_id) tenant s.committed.projections))
              g)))

  abbrev OwnBalances : Text → List BalanceDetail → Type 0
  OwnBalances tenant rows = All (λ (b : BalanceDetail). b.balance.tenant_id ≡ tenant) rows

  Reads-list_balances :
      (tenant : Text) (s : Session)
      → Reorders orders
      → Reads (OwnBalances tenant) s.committed (list_balances faults orders tenant s)
  unfolding list_balances select_balances
  Reads-list_balances tenant s laws =
      let f : Database → List BalanceDetail = λ db.
        orders.balances
          (balance_details db.accounts (keep (λ b. b.tenant_id == tenant) db.balances)) in
      Reads-after (OwnBalances tenant) (select_balances faults orders tenant) s (λ s1 e1.
        Reads-on_missing_table (OwnBalances tenant) s.committed (pure []) (query faults f s1)
          (λ t k. (k, tt))
          (Reads-query (OwnBalances tenant) s.committed faults f s1 e1 (
            perm-All _ (laws.balances _) (
              balance_details-All (λ (b : BalanceRow). b.tenant_id ≡ tenant) s.committed.accounts _
                (own_rows (λ (b : BalanceRow). b.tenant_id) tenant s.committed.balances)))))

  Reads-get_projection :
      (tenant : Text) (id : ℕ) (s : Session)
      → Reads (IsProjectionOf tenant id) s.committed (get_projection faults orders tenant id s)
  unfolding get_projection select_projection
  Reads-get_projection tenant id s =
      let f : Database → List ProjectionRow =
        λ db. keep (λ p. nat_beq p.entry_id id && p.tenant_id == tenant) db.projections in
      Reads-after (IsProjectionOf tenant id) (select_projection faults orders tenant id) s (λ s1 e1.
        Reads-on_missing_table (IsProjectionOf tenant id) s.committed (fail not_found_exception)
          ((query faults f >>= first_row) s1) (λ t k. k)
          (Reads-first_row (IsProjectionOf tenant id) s.committed f s1 e1
            (projections_of tenant id s.committed.projections)))

  -- If an ORDER BY only reorders, then whatever statements fail, the queries commit nothing. The
  -- entries and the projections that they list, 100 at most, the balances that they list, and the
  -- entry and the projection of an id are of the tenant that is asked for. The lines that come with
  -- the entry are those of the entry; their tenant is not tested.
  pub queries-own :
      (tenant : Text) (limit : ℤ) (id : ℕ) (s : Session)
      → Reorders orders
      → Reads
          (IsPage (λ (e : EntryRow). e.tenant_id) tenant)
          s.committed
          (list_entries faults orders tenant limit s)
        × Reads (IsViewOf tenant id) s.committed (get_entry faults orders tenant id s)
        × Reads
            (IsPage (λ (p : ProjectionRow). p.tenant_id) tenant)
            s.committed
            (list_projections faults orders tenant limit s)
        × Reads
            (All (λ (b : BalanceDetail). b.balance.tenant_id ≡ tenant))
            s.committed
            (list_balances faults orders tenant s)
        × Reads (IsProjectionOf tenant id) s.committed (get_projection faults orders tenant id s)
  queries-own tenant limit id s laws = (
    Reads-list_entries tenant limit s laws,
    Reads-get_entry tenant id s laws,
    Reads-list_projections tenant limit s laws,
    Reads-list_balances tenant s laws,
    Reads-get_projection tenant id s,
  )
