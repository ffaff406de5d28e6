-- ===== src/Api/Ledger/Retry.antt =====
-- A request that was answered is answered again by the same entry
-- (apps/api/src/ledger/ledger.service.ts).
use adaptive_financial_os.Common.{
  ℕ, ◌≡◌, refl, subst, Text, Option, none, some, List, [], ◌∷◌, ◌++◌, Bool, true, false, text_eq,
  text_beq_iff, arith,
}
use adaptive_financial_os.Db.{Database, KeyRow, find_key}
use adaptive_financial_os.Db.Session.{no_faults, Faults, Session, begin, rollback, statement}
use adaptive_financial_os.Api.Ledger.{
  PostEntryDto, posted, validate_balance, set_tenant, select_key, post_existing, post_or_cached,
  post_body, post_checked, post_entry,
}
use adaptive_financial_os.Api.Ledger.Spec.{Fulfils}
use adaptive_financial_os.Api.Ledger.Atomic.{post_entry-atomic}

find_key-append :
    (tenant key : Text) (ks : List KeyRow) (id : ℕ)
    → find_key tenant key ks ≡ none
    → find_key tenant key (ks ++ record { tenant_id = tenant; key = key; entry_id = id } ∷ [])
      ≡ some id
find_key-append tenant key [] id h =
    ground (arith, text_beq_iff tenant tenant, text_beq_iff key key)
find_key-append tenant key (k ∷ ks) id h = ground (arith, find_key-append tenant key ks id)

module _ (numeric_in : Text → Option ℕ) (new_id : Database → ℕ) where
  cached_answer :
      (dto : PostEntryDto) (s : Session) (id : ℕ)
      → validate_balance dto ≡ none
      → find_key dto.tenant_id dto.idempotency_key s.committed.keys ≡ some id
      → ((post_entry no_faults numeric_in new_id dto s).0 ≡ posted id true)
        × ((post_entry no_faults numeric_in new_id dto s).1.committed ≡ s.committed)
  unfolding post_entry post_checked post_body begin set_tenant select_key statement post_or_cached
      post_existing rollback
  cached_answer dto s id v k = rw (v, k) (refl, refl)

  stored_key :
      (dto : PostEntryDto) (c db : Database) (id : ℕ) (b : Bool)
      → Fulfils numeric_in dto c (posted id b) db
      → find_key dto.tenant_id dto.idempotency_key db.keys ≡ some id
  stored_key dto c db id true f = rw f.0 f.1
  stored_key dto c db id false p =
      rw p.stored (find_key-append dto.tenant_id dto.idempotency_key c.keys id p.new_key)

  -- After any answer `posted`, new or cached, a balanced request under the same tenant and key,
  -- with whatever lines, is answered by the same entry as cached if no statement fails, and stores
  -- nothing.
  pub post_entry-retry :
      (faults : Faults) (dto again : PostEntryDto) (s : Session) (id : ℕ) (b : Bool)
      → (post_entry faults numeric_in new_id dto s).0 ≡ posted id b
      → again.tenant_id ≡ dto.tenant_id
      → again.idempotency_key ≡ dto.idempotency_key
      → validate_balance again ≡ none
      → let s' = (post_entry faults numeric_in new_id dto s).1 in
        ((post_entry no_faults numeric_in new_id again s').0 ≡ posted id true)
        × ((post_entry no_faults numeric_in new_id again s').1.committed ≡ s'.committed)
  post_entry-retry faults dto again s id b e t k v =
      let s' = (post_entry faults numeric_in new_id dto s).1 in
      let f : Fulfils numeric_in dto s.committed (posted id b) s'.committed =
        subst (λ r. Fulfils numeric_in dto s.committed r s'.committed) e
          (post_entry-atomic faults numeric_in new_id dto s) in
      cached_answer again s' id v (rw (t, k) (stored_key dto s.committed s'.committed id b f))
