-- ===== src/Api/Ledger/Spec.antt =====
-- What a posted entry is, and what each answer of `postEntry` promises
-- (apps/api/src/ledger/ledger.service.ts).
use adaptive_financial_os.Common.{
  ℕ, ◌≡◌, Text, text, Option, none, some, List, [], ◌∷◌, ◌++◌, map, length, true, false, ◌⊎◌,
}
use adaptive_financial_os.Db.{
  Database, LineRow, Status, posted_payload, find_key, is_entry, balanced_entries,
}
use adaptive_financial_os.Api.Ledger.{
  PostEntryDto, Response, posted, bad_request, conflict, internal_server_error, uncaught,
}
use adaptive_financial_os.Api.Ledger.Steps.{AreLinesOf}

-- The database with an entry, its lines, its key and its event added to the ends of their tables.
abbrev pub posted_db : PostEntryDto → Database → ℕ → List LineRow → ℕ → Database
posted_db dto c id rows event_id = record c {
  entries =
      c.entries
      ++ record { id = id; tenant_id = dto.tenant_id; description = dto.description } ∷ [];
  lines = c.lines ++ rows;
  keys =
      c.keys ++ record { tenant_id = dto.tenant_id; key = dto.idempotency_key; entry_id = id } ∷ [];
  outbox =
      c.outbox
      ++ record {
        id = event_id;
        tenant_id = some dto.tenant_id;
        aggregate_type = text "journal_entry";
        aggregate_id = some id;
        status = Status.pending;
        event_type = text "journal_entry.posted";
        payload = posted_payload id dto.description (length dto.lines);
        is_published = false;
        is_processed = false;
      }
        ∷ [];
}

-- `db` is `c` with the request posted under the id: the id and its key were new, every line of the
-- request has its row, and the rows pass the trigger.
pub record IsPosted (numeric_in : Text → Option ℕ) (dto : PostEntryDto) (c db : Database) (id : ℕ)
    : Type 0 where
  pub rows : List LineRow
  pub event_id : ℕ
  pub stored : db ≡ posted_db dto c id rows event_id
  pub lines_of : AreLinesOf numeric_in c.accounts dto.tenant_id id dto.lines rows
  pub new_entry : is_entry id c.entries ≡ false
  pub new_key : find_key dto.tenant_id dto.idempotency_key c.keys ≡ none
  pub balanced : balanced_entries (map (λ (r : LineRow). r.entry_id) rows) (c.lines ++ rows) ≡ true

-- What each response says of the database before and after.
abbrev pub Fulfils : (Text → Option ℕ) → PostEntryDto → Database → Response → Database → Type 0
Fulfils num dto c (posted id true) db =
    (db ≡ c) × (find_key dto.tenant_id dto.idempotency_key c.keys ≡ some id)
Fulfils num dto c (posted id false) db = IsPosted num dto c db id
Fulfils num dto c bad_request db = db ≡ c
Fulfils num dto c uncaught db = db ≡ c
Fulfils num dto c conflict db = (db ≡ c) ⊎ ((id : ℕ) × IsPosted num dto c db id)
Fulfils num dto c internal_server_error db = (db ≡ c) ⊎ ((id : ℕ) × IsPosted num dto c db id)
