-- ===== src/Api/Ledger/Atomic.antt =====
-- `postEntry` is atomic (apps/api/src/ledger/ledger.service.ts), whatever statement fails.
use adaptive_financial_os.Common.{
  ℕ, ◌+◌, ◌≡◌, refl, ◌∙◌, sym, ap, Text, Option, none, some, [], map, length, Bool, true, false,
  arith, ◌⊎◌, inl, inr,
}
use adaptive_financial_os.Db.{
  Database, LineRow, unique_violation, undefined_table, other_error, find_key, balanced_entries,
}
use adaptive_financial_os.Db.Session.{
  Fault, refuse, lose_answer, Faults, Session, Outcome, value, throw, Thrown, sql,
  not_found_exception, Action, pure, ◌>>=◌, begin, rollback, commit, opened, ended, commit_if,
}
use adaptive_financial_os.Db.Ensures.{Ensures, Ensures-statement, Ensures-weaken}
use adaptive_financial_os.Api.Ledger.{
  PostEntryDto, Response, posted, bad_request, conflict, internal_server_error, uncaught,
  validate_balance, to_response, set_tenant, select_key, insert_entry, insert_key, insert_event,
  post_lines, post_new, post_existing, post_or_cached, post_body, handle, post_checked, post_entry,
}
use adaptive_financial_os.Api.Ledger.Spec.{IsPosted, Fulfils}
use adaptive_financial_os.Api.Ledger.Stages.{
  IsStaged, HasEntry, HasKey, Ensures-insert_entry, lines-HasLines, Ensures-insert_key,
  Ensures-insert_event,
}
use adaptive_financial_os.Api.Ledger.Steps.{AddsLines, Ensures-post_lines, same_touched}

module _ (faults : Faults) (numeric_in : Text → Option ℕ) (new_id : Database → ℕ) where
  -- The result of `postEntry`'s body: a response, or an exception.
  abbrev Settles : PostEntryDto → Database → Outcome Response × Session → Type 0
  Settles dto c (value r, s) = Fulfils numeric_in dto c r s.committed
  Settles dto c (throw e, s) =
      (s.committed ≡ c) ⊎ ((id : ℕ) × IsPosted numeric_in dto c s.committed id)

  ended-Settles :
      (dto : PostEntryDto) (c : Database) (id : ℕ) (o : Option Fault) (s s' : Session)
      → IsPosted numeric_in dto c s.committed id
      → s'.committed ≡ c
      → Settles dto c (elim (ended o s s').0 [
        | value a ↦ (value (posted id false), (ended o s s').1)
        | throw e ↦ (throw e, (ended o s s').1)
      ])
  ended-Settles dto c id none s s' p q = p
  ended-Settles dto c id (some (refuse e)) s s' p q = inl q
  ended-Settles dto c id (some (lose_answer e)) s s' p q = inr (id, p)

  staged-IsPosted :
      (dto : PostEntryDto) (c : Database) (id : ℕ) (s : Session)
      (st : IsStaged faults numeric_in new_id dto c id s)
      → balanced_entries s.touched s.work.lines ≡ true
      → IsPosted numeric_in dto c s.work id
  staged-IsPosted dto c id s st h = record {
    rows = st.rows;
    event_id = st.event_id;
    stored = st.work;
    lines_of = st.lines_of;
    new_entry = st.new_entry;
    new_key = st.new_key;
    balanced =
        ap (λ (d : Database). balanced_entries (map (λ (r : LineRow). r.entry_id) st.rows) d.lines)
          (sym st.work)
        ∙ ap (λ ids. balanced_entries ids s.work.lines) (sym st.touched)
        ∙ h;
  }

  commit_if-Settles :
      (dto : PostEntryDto) (c : Database) (id : ℕ) (s : Session) (b : Bool) (o : Option Fault)
      → s.committed ≡ c
      → IsStaged faults numeric_in new_id dto c id s
      → balanced_entries s.touched s.work.lines ≡ b
      → Settles dto c (elim (commit_if b o s).0 [
        | value a ↦ (value (posted id false), (commit_if b o s).1)
        | throw e ↦ (throw e, (commit_if b o s).1)
      ])
  commit_if-Settles dto c id s true o e st h =
      ended-Settles dto c id o _ _ (staged-IsPosted dto c id s st h) e
  commit_if-Settles dto c id s false o e st h = inl e

  commit-Settles :
      (dto : PostEntryDto) (c : Database) (id : ℕ) (s : Session)
      → s.committed ≡ c
      → IsStaged faults numeric_in new_id dto c id s
      → Settles dto c ((commit faults >>= λ _. pure (posted id false)) s)
  unfolding commit
  commit-Settles dto c id s e st =
      commit_if-Settles dto c id s (balanced_entries s.touched s.work.lines) (faults s.count) e st
        refl

  -- A chain settles if its first part commits nothing and the rest settles.
  Settles-continue :
      {A : Type 0} (dto : PostEntryDto) (c : Database) (Q : A → Session → Type 0)
      (f : A → Action Response) (r : Outcome A × Session)
      → Ensures c Q r
      → ((a : A) (s : Session) → s.committed ≡ c → Q a s → Settles dto c (f a s))
      → Settles dto c (elim r.0 [ value a ↦ f a r.1 | throw e ↦ (throw e, r.1) ])
  Settles-continue dto c Q f (value a, s) h k = k a s h.0 h.1
  Settles-continue dto c Q f (throw e, s) h k = inl h

  Settles-bind :
      {A : Type 0} (dto : PostEntryDto) (c : Database) (Q : A → Session → Type 0) (m : Action A)
      (f : A → Action Response) (s : Session)
      → Ensures c Q (m s)
      → ((a : A) (s' : Session) → s'.committed ≡ c → Q a s' → Settles dto c (f a s'))
      → Settles dto c ((m >>= f) s)
  Settles-bind dto c Q m f s h k = Settles-continue dto c Q f (m s) h k

  post_new-Settles :
      (dto : PostEntryDto) (c : Database) (s : Session)
      → s.committed ≡ c
      → s.work ≡ c
      → s.touched ≡ []
      → Settles dto c (post_new faults numeric_in new_id dto s)
  unfolding post_new
  post_new-Settles dto c s e w t =
      Settles-bind dto c (HasEntry faults numeric_in new_id dto c)
        (insert_entry faults numeric_in new_id dto.tenant_id dto.description) _ s
        (Ensures-insert_entry faults numeric_in new_id dto c s e w t)
        (λ id s1 e1 q1.
          Settles-bind dto c (λ _ s2. AddsLines numeric_in dto.tenant_id id dto.lines s1 s2)
            (post_lines faults numeric_in new_id dto.tenant_id id dto.lines) _ s1
            (Ensures-post_lines faults numeric_in new_id dto.tenant_id id dto.lines s1 c e1)
            (λ _ s2 e2 q2.
              Settles-bind dto c (λ _ s3. HasKey faults numeric_in new_id dto c id s3)
                (insert_key faults numeric_in new_id dto.tenant_id dto.idempotency_key id) _ s2
                (Ensures-insert_key faults numeric_in new_id dto c id s2 e2
                  (lines-HasLines faults numeric_in new_id dto c id s1 s2 q1 q2))
                (λ _ s3 e3 q3.
                  Settles-bind dto c (λ _ s4. IsStaged faults numeric_in new_id dto c id s4)
                    (insert_event faults numeric_in new_id dto.tenant_id id dto.description
                      (length dto.lines))
                    _ s3 (Ensures-insert_event faults numeric_in new_id dto c id s3 e3 q3)
                    (λ _ s4 e4 q4. commit-Settles dto c id s4 e4 q4))))

  -- A rollback commits nothing, and the response to a key that was there names its entry.
  ended-existing :
      (dto : PostEntryDto) (c : Database) (id : ℕ) (o : Option Fault) (s s' : Session)
      → s.committed ≡ c
      → s'.committed ≡ c
      → find_key dto.tenant_id dto.idempotency_key c.keys ≡ some id
      → Settles dto c (elim (ended o s s').0 [
        | value a ↦ (value (posted id true), (ended o s s').1)
        | throw e ↦ (throw e, (ended o s s').1)
      ])
  ended-existing dto c id none s s' p q k = (p, k)
  ended-existing dto c id (some (refuse e)) s s' p q k = inl q
  ended-existing dto c id (some (lose_answer e)) s s' p q k = inl p

  post_or_cached-Settles :
      (dto : PostEntryDto) (c : Database) (found : Option ℕ) (s : Session)
      → s.committed ≡ c
      → s.work ≡ c
      → s.touched ≡ []
      → found ≡ find_key dto.tenant_id dto.idempotency_key c.keys
      → Settles dto c (post_or_cached faults numeric_in new_id dto found s)
  unfolding post_or_cached post_existing rollback
  post_or_cached-Settles dto c none s e w t k = post_new-Settles dto c s e w t
  post_or_cached-Settles dto c (some id) s e w t k =
      ended-existing dto c id (faults s.count) (opened s) (record s { count = s.count + 1 }) e e
        (sym k)

  -- The transaction is open and nothing has been done in it.
  abbrev IsFresh : Database → Session → Type 0
  IsFresh c s = (s.work ≡ c) × (s.touched ≡ [])

  ended-begin :
      (c : Database) (o : Option Fault) (s : Session)
      → s.committed ≡ c
      → Ensures c (λ _ s'. IsFresh c s') (ended o (opened s) (record s { count = s.count + 1 }))
  ended-begin c none s e = (e, (e, refl))
  ended-begin c (some (refuse x)) s e = e
  ended-begin c (some (lose_answer x)) s e = e

  pub post_body-Settles :
      (dto : PostEntryDto) (c : Database) (s : Session)
      → s.committed ≡ c
      → Settles dto c (post_body faults numeric_in new_id dto s)
  unfolding post_body begin set_tenant select_key
  post_body-Settles dto c s e =
      Settles-bind dto c (λ _ s1. IsFresh c s1) (begin faults) _ s
        (ended-begin c (faults s.count) s e)
        (λ _ s1 e1 q1.
          Settles-bind dto c (λ _ s2. IsFresh c s2) (set_tenant faults numeric_in new_id) _ s1
            (Ensures-weaken c _ _ _ (Ensures-statement faults _ s1 c e1) (λ a s2 ran. (
              ground (arith, ran.1, q1.0),
              same_touched faults numeric_in new_id s1 s2 ran.0 (ground (arith, ran.1)) ran.2
                  ∙ q1.1,
            )))
            (λ _ s2 e2 q2.
              Settles-bind dto c
                (λ found s3.
                  IsFresh c s3 × (found ≡ find_key dto.tenant_id dto.idempotency_key c.keys))
                (select_key faults numeric_in new_id dto.tenant_id dto.idempotency_key) _ s2
                (Ensures-weaken c _ _ _ (Ensures-statement faults _ s2 c e2) (λ a s3 ran. (
                  (
                    ground (arith, ran.1, q2.0),
                    same_touched faults numeric_in new_id s2 s3 ran.0 (ground (arith, ran.1)) ran.2
                        ∙ q2.1,
                  ),
                  ground (arith, ran.1, q2.0),
                )))
                (λ found s3 e3 q3. post_or_cached-Settles dto c found s3 e3 q3.0.0 q3.0.1 q3.1)))

  thrown-Fulfils :
      (dto : PostEntryDto) (c db : Database) (e : Thrown)
      → (db ≡ c) ⊎ ((id : ℕ) × IsPosted numeric_in dto c db id)
      → Fulfils numeric_in dto c (to_response e) db
  thrown-Fulfils dto c db (sql unique_violation) h = h
  thrown-Fulfils dto c db (sql undefined_table) h = h
  thrown-Fulfils dto c db (sql other_error) h = h
  thrown-Fulfils dto c db not_found_exception h = h

  rollback-committed : (s : Session) → (rollback faults s).1.committed ≡ s.committed
  unfolding rollback
  rollback-committed s = go (faults s.count)
    where
      go :
          (o : Option Fault)
          → (ended o (opened s) (record s { count = s.count + 1 })).1.committed ≡ s.committed
      go none = refl
      go (some (refuse e)) = refl
      go (some (lose_answer e)) = refl

  handle-Fulfils :
      (dto : PostEntryDto) (c : Database) (r : Outcome Response × Session)
      → Settles dto c r
      → Fulfils numeric_in dto c
          (handle faults numeric_in new_id r).0
          (handle faults numeric_in new_id r).1.committed
  handle-Fulfils dto c (value r, s) h = h
  handle-Fulfils dto c (throw e, s) h = thrown-Fulfils dto c _ e (rw (rollback-committed s) h)

  refused-Fulfils :
      (dto : PostEntryDto) (c : Database) (r : Response)
      → validate_balance dto ≡ some r
      → Fulfils numeric_in dto c r c
  unfolding validate_balance
  refused-Fulfils dto c bad_request h = refl
  refused-Fulfils dto c uncaught h = refl
  refused-Fulfils dto c (posted id b) h = absurd (ground arith)
  refused-Fulfils dto c conflict h = absurd (ground arith)
  refused-Fulfils dto c internal_server_error h = absurd (ground arith)

  post_checked-Fulfils :
      (dto : PostEntryDto) (o : Option Response) (s : Session)
      → validate_balance dto ≡ o
      → let (r, s') = post_checked faults numeric_in new_id dto o s in
        Fulfils numeric_in dto s.committed r s'.committed
  unfolding post_checked
  post_checked-Fulfils dto none s e =
      handle-Fulfils dto s.committed (post_body faults numeric_in new_id dto s)
        (post_body-Settles dto s.committed s refl)
  post_checked-Fulfils dto (some r) s e = refused-Fulfils dto s.committed r e

  -- Whatever statements the environment refuses, or runs without an answer: a request that is
  -- answered as posted has stored its entry, its lines, its key and its event, all of them and
  -- nothing else, under a key that was new; one that is answered as posted before, bad or with an
  -- uncaught error has changed nothing, and a key that was there gives the id stored for it; and
  -- one that is answered by a conflict or an internal error has changed nothing, or has stored all
  -- of it.
  pub post_entry-atomic :
      (dto : PostEntryDto) (s : Session)
      → let (r, s') = post_entry faults numeric_in new_id dto s in
        Fulfils numeric_in dto s.committed r s'.committed
  unfolding post_entry
  post_entry-atomic dto s = post_checked-Fulfils dto (validate_balance dto) s refl
