-- ===== src/Api/Queries/Tests.antt =====
-- Concrete runs of the queries of apps/api/src/ledger/ledger.service.ts.
use mathlib.Core.List.{Permᴰ}
use adaptive_financial_os.Common.{◌≡◌, refl, text, pos, List, [], ◌∷◌, All}
use adaptive_financial_os.Db.{EntryRow, ProjectionRow}
use adaptive_financial_os.Db.Session.{no_faults, Session, value}
use adaptive_financial_os.Api.Ledger.{post_entry}
use adaptive_financial_os.Api.Ledger.Tests.{idle, numeric_in, new_id, request, request-posted}
use adaptive_financial_os.Api.Queries.{
  LineDetail, BalanceDetail, Orders, list_entries, get_entry, list_projections, list_balances,
  get_projection,
}
use adaptive_financial_os.Api.Queries.Reads.{Reorders, Reads, IsPage}
use adaptive_financial_os.Api.Queries.Own.{queries-own}
use adaptive_financial_os.Api.Queries.Rows.{IsViewOf, IsProjectionOf}
use adaptive_financial_os.Api.Queries.RoundTrip.{AreDetailsOf, get_entry-posted}

-- The rows stay as they were inserted.
abbrev orders : Orders
orders = record {
  entries = λ rows. rows;
  details = λ rows. rows;
  projections = λ rows. rows;
  balances = λ rows. rows;
}

same : {A : Type 0} (rows : List A) → Permᴰ rows rows
same [] = Permᴰ.nil
same (r ∷ rows) = Permᴰ.cons refl (same rows)

orders-Reorders : Reorders orders
orders-Reorders = record { entries = same; details = same; projections = same; balances = same }

abbrev sold : Session
sold = (post_entry no_faults numeric_in new_id request idle).1

get_entry-posted_example :
    (details : List LineDetail) × ((get_entry no_faults orders (text "t1") 10 sold).0
      ≡ value (record {
        entry = record { id = 10; tenant_id = text "t1"; description = text "sale" };
        lines = details;
      }))
    × AreDetailsOf numeric_in request.lines details
get_entry-posted_example =
    get_entry-posted orders numeric_in new_id no_faults request idle 10 (refl, (refl, tt)) tt
      request-posted

queries-own_example :
    Reads
      (IsPage (λ (e : EntryRow). e.tenant_id) (text "t1"))
      sold.committed
      (list_entries no_faults orders (text "t1") (pos 20) sold)
    × Reads
        (IsViewOf (text "t1") 10)
        sold.committed
        (get_entry no_faults orders (text "t1") 10 sold)
    × Reads
        (IsPage (λ (p : ProjectionRow). p.tenant_id) (text "t1"))
        sold.committed
        (list_projections no_faults orders (text "t1") (pos 20) sold)
    × Reads
        (All (λ (b : BalanceDetail). b.balance.tenant_id ≡ text "t1"))
        sold.committed
        (list_balances no_faults orders (text "t1") sold)
    × Reads
        (IsProjectionOf (text "t1") 10)
        sold.committed
        (get_projection no_faults orders (text "t1") 10 sold)
queries-own_example = queries-own no_faults orders (text "t1") (pos 20) 10 sold orders-Reorders
