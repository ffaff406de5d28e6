-- ===== src/Api/Ledger/Posted.antt =====
-- The answer to a request that is in order (apps/api/src/ledger/ledger.service.ts).
use mathlib.Core.List.{append-nil}
use adaptive_financial_os.Common.{
  ℕ, ◌+◌, ◌≡◌, refl, ap, ◌∙◌, subst, Text, Option, none, List, [], ◌∷◌, ◌++◌, map, length, All,
  true, false, arith,
}
use adaptive_financial_os.Core.Types.{debit, credit}
use adaptive_financial_os.Db.{
  Database, AccountRow, LineRow, find_key, is_entry, entry_total, balanced_entries,
}
use adaptive_financial_os.Db.Session.{
  no_faults, Session, Outcome, value, throw, Action, pure, ◌>>=◌, ◌>>◌, statement, begin, commit,
}
use adaptive_financial_os.Db.Ensures.{bind-value, Ensures}
use adaptive_financial_os.Api.Ledger.{
  PostEntryDto, Response, posted, validate_balance, set_tenant, select_key, insert_entry,
  insert_key, insert_event, post_lines, post_new, post_or_cached, post_body, handle, post_checked,
  post_entry,
}
use adaptive_financial_os.Api.Ledger.Steps.{AddsLines, Ensures-post_lines}
use adaptive_financial_os.Api.Ledger.Balanced.{IsBalanced, entry_total-append}
use adaptive_financial_os.Api.Ledger.Succeeds.{
  IsInOrder, units_total, post_lines-value, sum_lines-units, rows-total, balanced_rows,
}

module _ (numeric_in : Text → Option ℕ) (new_id : Database → ℕ) where
  handle-value :
      (r : Outcome Response × Session) (x : Response)
      → r.0 ≡ value x
      → (handle no_faults numeric_in new_id r).0 ≡ x
  handle-value (value y, s) x h = ground arith
  handle-value (throw e, s) x h = cc

  -- What follows the key, and what follows the lines.
  abbrev after_key : PostEntryDto → ℕ → Action Response
  after_key dto id = do
    insert_event no_faults numeric_in new_id dto.tenant_id id dto.description (length dto.lines)
    commit no_faults
    pure (posted id false)

  abbrev after_lines : PostEntryDto → ℕ → Action Response
  after_lines dto id = do
    insert_key no_faults numeric_in new_id dto.tenant_id dto.idempotency_key id
    after_key dto id

  abbrev keyed : PostEntryDto → ℕ → Session → Session
  keyed dto id s = record s {
    work = record s.work {
      keys =
          s.work.keys
          ++ record { tenant_id = dto.tenant_id; key = dto.idempotency_key; entry_id = id } ∷ [];
    };
    touched = s.touched ++ [];
    count = s.count + 1;
  }

  insert_key-value :
      (dto : PostEntryDto) (id : ℕ) (s : Session)
      → find_key dto.tenant_id dto.idempotency_key s.work.keys ≡ none
      → insert_key no_faults numeric_in new_id dto.tenant_id dto.idempotency_key id s
        ≡ (value tt, keyed dto id s)
  unfolding insert_key statement
  insert_key-value dto id s k = ground (arith, k)

  stored-posted :
      (dto : PostEntryDto) (id : ℕ) (s : Session)
      → balanced_entries s.touched s.work.lines ≡ true
      → (after_key dto id (keyed dto id s)).0 ≡ value (posted id false)
  unfolding insert_event commit statement
  stored-posted dto id s b =
      let touched : (s.touched ++ []) ++ [] ≡ s.touched =
        append-nil (s.touched ++ []) ∙ append-nil s.touched in
      let passes : balanced_entries ((s.touched ++ []) ++ []) s.work.lines ≡ true =
        ap (λ ids. balanced_entries ids s.work.lines) touched ∙ b in
      ground (arith, passes)

  after_lines-posted :
      (dto : PostEntryDto) (id : ℕ) (s : Session)
      → find_key dto.tenant_id dto.idempotency_key s.work.keys ≡ none
      → balanced_entries s.touched s.work.lines ≡ true
      → (after_lines dto id s).0 ≡ value (posted id false)
  after_lines-posted dto id s k b =
      ap (λ p. p.0)
        (bind-value (insert_key no_faults numeric_in new_id dto.tenant_id dto.idempotency_key id)
          (λ _. after_key dto id) s (keyed dto id s) tt (insert_key-value dto id s k))
      ∙ stored-posted dto id s b

  -- The session before the lines: the entry is inserted.
  abbrev before_lines : PostEntryDto → Session → Session
  before_lines dto s = record s {
    work = record s.committed {
      entries =
          s.committed.entries
          ++ record {
            id = new_id s.committed;
            tenant_id = dto.tenant_id;
            description = dto.description;
          }
            ∷ [];
    };
    touched = [];
    count = s.count + 1 + 1 + 1 + 1;
  }

  -- The session after the key has been looked up.
  abbrev after_lookup : Session → Session
  after_lookup s = record s { work = s.committed; touched = []; count = s.count + 1 + 1 + 1 }

  insert_entry-value :
      (dto : PostEntryDto) (s : Session)
      → is_entry (new_id s.committed) s.committed.entries ≡ false
      → insert_entry no_faults numeric_in new_id dto.tenant_id dto.description (after_lookup s)
        ≡ (value (new_id s.committed), before_lines dto s)
  unfolding insert_entry statement
  insert_entry-value dto s fresh = ground (arith, fresh)

  -- What follows the entry.
  abbrev after_entry : PostEntryDto → ℕ → Action Response
  after_entry dto id =
      post_lines no_faults numeric_in new_id dto.tenant_id id dto.lines >>= λ _. after_lines dto id

  post_body-after :
      (dto : PostEntryDto) (s s' : Session)
      → is_entry (new_id s.committed) s.committed.entries ≡ false
      → find_key dto.tenant_id dto.idempotency_key s.committed.keys ≡ none
      → post_lines no_faults numeric_in new_id dto.tenant_id
          (new_id s.committed)
          dto.lines
          (before_lines dto s)
        ≡ (value tt, s')
      → post_body no_faults numeric_in new_id dto s ≡ after_lines dto (new_id s.committed) s'
  unfolding post_body begin set_tenant select_key post_or_cached post_new statement
  post_body-after dto s s' fresh k e =
      ap (λ o. post_or_cached no_faults numeric_in new_id dto o (after_lookup s)) k
      ∙ bind-value (insert_entry no_faults numeric_in new_id dto.tenant_id dto.description)
          (after_entry dto) (after_lookup s) (before_lines dto s) (new_id s.committed)
          (insert_entry-value dto s fresh)
      ∙ bind-value
          (post_lines no_faults numeric_in new_id dto.tenant_id (new_id s.committed) dto.lines)
          (λ _. after_lines dto (new_id s.committed)) (before_lines dto s) s' tt e

  balanced_request :
      (accounts : List AccountRow) (tenant : Text) (dto : PostEntryDto)
      → All (IsInOrder numeric_in accounts tenant) dto.lines
      → validate_balance dto ≡ none
      → units_total debit dto.lines ≡ units_total credit dto.lines
  unfolding validate_balance
  balanced_request accounts tenant dto h v =
      let e = sum_lines-units numeric_in new_id accounts tenant 0 0 dto.lines h in
      ground (arith, v, e)

  -- If no statement fails, a balanced request under a new key whose accounts are all there and
  -- whose amounts are whole numbers above 0 is answered as posted under the generated id, if that
  -- is new, in any database whose entries are balanced.
  pub post_entry-succeeds :
      (dto : PostEntryDto) (s : Session)
      → IsBalanced s.committed
      → is_entry (new_id s.committed) s.committed.entries ≡ false
      → validate_balance dto ≡ none
      → find_key dto.tenant_id dto.idempotency_key s.committed.keys ≡ none
      → All (IsInOrder numeric_in s.committed.accounts dto.tenant_id) dto.lines
      → (post_entry no_faults numeric_in new_id dto s).0 ≡ posted (new_id s.committed) false
  unfolding post_entry post_checked
  post_entry-succeeds dto s books fresh v k good =
      let id = new_id s.committed in
      let (s', e) =
        post_lines-value numeric_in new_id dto.tenant_id id dto.lines (before_lines dto s) good in
      let (_, adds) =
        subst
          (Ensures s.committed
            (λ _ s'. AddsLines numeric_in dto.tenant_id id dto.lines (before_lines dto s) s'))
          e
          (Ensures-post_lines no_faults numeric_in new_id dto.tenant_id id dto.lines
            (before_lines dto s) s.committed refl) in
      let keys : find_key dto.tenant_id dto.idempotency_key s'.work.keys ≡ none =
        ap (λ (d : Database). find_key dto.tenant_id dto.idempotency_key d.keys) adds.work ∙ k in
      let units = balanced_request s.committed.accounts dto.tenant_id dto good v in
      let totals : entry_total debit id (s.committed.lines ++ adds.rows)
          ≡ entry_total credit id (s.committed.lines ++ adds.rows) =
        omega (
          arith,
          entry_total-append debit id s.committed.lines adds.rows,
          entry_total-append credit id s.committed.lines adds.rows,
          rows-total numeric_in new_id s.committed.accounts dto.tenant_id id debit dto.lines
              adds.rows good adds.lines_of,
          rows-total numeric_in new_id s.committed.accounts dto.tenant_id id credit dto.lines
              adds.rows good adds.lines_of,
          books id,
          units,
        ) in
      let rows =
        balanced_rows numeric_in new_id id adds.rows (s.committed.lines ++ adds.rows)
          s.committed.accounts dto.tenant_id dto.lines adds.lines_of totals in
      let passes : balanced_entries s'.touched s'.work.lines ≡ true =
        ap (λ ids. balanced_entries ids s'.work.lines) adds.touched
        ∙ ap
            (λ (d : Database).
              balanced_entries (map (λ (r : LineRow). r.entry_id) adds.rows) d.lines)
            adds.work
        ∙ rows in
      rw v (
        handle-value (post_body no_faults numeric_in new_id dto s) (posted id false) (
          ap (λ p. p.0) (post_body-after dto s s' fresh k e)
          ∙ after_lines-posted dto id s' keys passes))
