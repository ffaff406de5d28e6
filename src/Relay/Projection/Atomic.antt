-- ===== src/Relay/Projection/Atomic.antt =====
-- `project` is atomic and guarded by the entry's id
-- (apps/outbox-relay/src/relay/projection.service.ts).
use mathlib.Core.List.{append-nil}
use adaptive_financial_os.Common.{
  ℕ, ◌≡◌, ◌≢◌, refl, ◌∙◌, sym, ap, subst, text, Option, none, some, List, [], ◌∷◌, ◌++◌, Bool, true,
  false, arith, Bool-cases, ◌⊎◌, inl, inr, ◌==◌, text_eq, text_beq_iff,
}
use adaptive_financial_os.Db.{Database, EntryRow, LineRow, BalanceRow, done}
use adaptive_financial_os.Db.Session.{
  Faults, Session, Outcome, value, throw, pure, ◌>>=◌, statement, query, begin, rollback,
}
use adaptive_financial_os.Db.Ensures.{
  Ensures, Ensures-bind, Ensures-statement, Ensures-weaken, Ends, Ends-bind, IsFresh, Ensures-begin,
  Ensures-rollback, Ensures-query, commit-Ends, rollback-committed,
}
use adaptive_financial_os.Relay.Envelope.{OutboxEnvelope}
use adaptive_financial_os.Relay.Projection.{
  find_entry, entry_lines, is_projected, upsert, projection_row, store_projection,
  select_projection, insert_projection, upsert_balance, upsert_balances, after_insert, after_guard,
  project_body, settle, project_entry, project_aggregate, project,
}

-- The balances after the lines, one after another.
abbrev pub upsert_all : List LineRow → List BalanceRow → List BalanceRow
upsert_all [] bs = bs
upsert_all (l ∷ ls) bs = upsert_all ls (upsert l bs)

-- `db` is `c` with the entry projected, which it was not in `c`.
pub record IsProjected (c db : Database) (id : ℕ) : Type 0 where
  pub entry : EntryRow
  pub found : find_entry id c.entries ≡ some entry
  pub stored : db ≡ record c {
    projections = c.projections ++ projection_row id entry (entry_lines id c.lines) ∷ [];
    balances = upsert_all (entry_lines id c.lines) c.balances;
  }
  pub was_new : is_projected id c.projections ≡ false

-- What the transaction of `project` promises: it answers `true`, the entry being projected now or
-- having been before, and an exception leaves nothing or everything.
abbrev pub Projects : Database → ℕ → Bool → Database → Type 0
Projects c id true db = ((db ≡ c) × (is_projected id c.projections ≡ true)) ⊎ IsProjected c db id
Projects c id false db = ⊥

abbrev pub Throws : Database → ℕ → Database → Type 0
Throws c id db = (db ≡ c) ⊎ IsProjected c db id

-- The work of the open transaction, with some balances brought up to date.
abbrev HasBalances : Database → Session → Type 0
HasBalances db s = (s.work ≡ db) × (s.touched ≡ [])

module _ (faults : Faults) where
  pub same_touched :
      (s s' : Session) (ids : List ℕ)
      → ids ≡ []
      → s'.touched ≡ s.touched ++ ids
      → s.touched ≡ []
      → s'.touched ≡ []
  same_touched s s' ids e t z = t ∙ ap (λ xs. s.touched ++ xs) e ∙ append-nil s.touched ∙ z

  -- A statement that always succeeds with one answer.
  Ensures-sure :
      {A : Type 0} (f : Database → A × Database) (s : Session) (c db : Database)
      → s.committed ≡ c
      → HasBalances db s
      → Ensures c
          (λ a s'. (a ≡ (f db).0) × HasBalances (f db).1 s')
          (statement faults (λ d. done ((f d).0, (f d).1, [])) s)
  Ensures-sure f s c db e h =
      Ensures-weaken c _ _ _ (Ensures-statement faults (λ d. done ((f d).0, (f d).1, [])) s c e)
        (λ a s' ran. (
          ground (arith, ran.1) ∙ ap (λ d. (f d).0) h.0,
          (
            ground (arith, ran.1) ∙ ap (λ d. (f d).1) h.0,
            same_touched s s' ran.0 (ground (arith, ran.1)) ran.2 h.1,
          ),
        ))

  Ensures-upsert_balances :
      (ls : List LineRow) (s : Session) (c db : Database)
      → s.committed ≡ c
      → HasBalances db s
      → Ensures c
          (λ _ s'. HasBalances (record db { balances = upsert_all ls db.balances }) s')
          (upsert_balances faults ls s)
  unfolding upsert_balances upsert_balance
  Ensures-upsert_balances [] s c db e h = (e, h)
  Ensures-upsert_balances (l ∷ ls) s c db e h =
      Ensures-bind c _ _ (upsert_balance faults l) _ s
        (Ensures-sure (λ d. (tt, record d { balances = upsert l d.balances })) s c db e h)
        (λ _ s1 e1 h1.
          Ensures-upsert_balances ls s1 c (record db { balances = upsert l db.balances }) e1 h1.1)

  -- A rollback that is followed by an answer.
  Ends-rollback :
      (V : Bool → Database → Type 0) (T : Database → Type 0) (b : Bool) (s : Session) (c : Database)
      → s.committed ≡ c
      → T c
      → V b c
      → Ends V T ((rollback faults >>= λ _. pure b) s)
  Ends-rollback V T b s c e t v =
      Ends-bind c (λ _ s'. IsFresh c s') V T t (rollback faults) (λ _. pure b) s
        (Ensures-rollback faults s c e) (λ _ s' e' h. subst (V b) (sym e') v)

  module _ (c : Database) (id : ℕ) (entry : EntryRow)
      (found : find_entry id c.entries ≡ some entry) where
    abbrev with_row : Database
    with_row = record c {
      projections = c.projections ++ projection_row id entry (entry_lines id c.lines) ∷ [];
    }

    abbrev final : Database
    final = record with_row { balances = upsert_all (entry_lines id c.lines) c.balances }

    IsProjected-final :
        (s : Session)
        → s.work ≡ final
        → is_projected id c.projections ≡ false
        → IsProjected c s.work id
    IsProjected-final s w new = record { entry = entry; found = found; stored = w; was_new = new }

    Ends-after_insert :
        (s : Session)
        → s.committed ≡ c
        → is_projected id c.projections ≡ false
        → HasBalances with_row s
        → Ends (Projects c id) (Throws c id) (after_insert faults (entry_lines id c.lines) true s)
    unfolding after_insert
    Ends-after_insert s e new h =
        Ends-bind c (λ _ s'. HasBalances final s') (Projects c id) (Throws c id) (inl refl)
          (upsert_balances faults (entry_lines id c.lines)) _ s
          (Ensures-upsert_balances (entry_lines id c.lines) s c with_row e h)
          (λ _ s' e' h'.
            commit-Ends faults (Projects c id) (Throws c id) true s' h'.1
              (inr (IsProjected-final s' h'.0 new)) (inr (IsProjected-final s' h'.0 new)) (inl e'))

    -- The database as the INSERT leaves it, when there is no row yet.
    Ensures-insert_projection :
        (s : Session)
        → s.committed ≡ c
        → is_projected id c.projections ≡ false
        → HasBalances c s
        → Ensures c
            (λ b s'. (b ≡ true) × HasBalances with_row s')
            (insert_projection faults id entry (entry_lines id c.lines) s)
    unfolding insert_projection
    Ensures-insert_projection s e new h =
        Ensures-weaken c _ _ _
          (Ensures-statement faults (store_projection id entry (entry_lines id c.lines)) s c e)
          (λ b s' ran.
            inserted b s' ran.0
              (ap (store_projection id entry (entry_lines id c.lines)) (sym h.0) ∙ ran.1) ran.2)
      where
        inserted :
            (b : Bool) (s' : Session) (ids : List ℕ)
            → store_projection id entry (entry_lines id c.lines) c ≡ done (b, s'.work, ids)
            → s'.touched ≡ s.touched ++ ids
            → (b ≡ true) × HasBalances with_row s'
        inserted b s' ids r t = (
          ground (arith, new),
          (ground (arith, new), same_touched s s' ids (ground (arith, new)) t h.1),
        )

    Ends-after_guard :
        (b : Bool) (s : Session)
        → s.committed ≡ c
        → HasBalances c s
        → b ≡ is_projected id c.projections
        → Ends
            (Projects c id)
            (Throws c id)
            (after_guard faults id entry (entry_lines id c.lines) b s)
    unfolding after_guard
    Ends-after_guard true s e h g =
        Ends-rollback (Projects c id) (Throws c id) true s c e (inl refl) (inl (refl, sym g))
    Ends-after_guard false s e h g =
        Ends-bind c (λ b s'. (b ≡ true) × HasBalances with_row s') (Projects c id) (Throws c id)
          (inl refl) (insert_projection faults id entry (entry_lines id c.lines)) _ s
          (Ensures-insert_projection s e (sym g) h)
          (λ b s' e' q.
            subst
              (λ x.
                Ends (Projects c id) (Throws c id)
                  (after_insert faults (entry_lines id c.lines) x s'))
              (sym q.0) (Ends-after_insert s' e' (sym g) q.1))

    Ends-project_body :
        (s : Session)
        → s.committed ≡ c
        → Ends
            (Projects c id)
            (Throws c id)
            (project_body faults id entry (entry_lines id c.lines) s)
    unfolding project_body select_projection
    Ends-project_body s e =
        Ends-bind c (λ _ s'. IsFresh c s') (Projects c id) (Throws c id) (inl refl) (begin faults) _
          s (Ensures-begin faults s c e)
          (λ _ s1 e1 h1.
            Ends-bind c (λ b s'. (b ≡ is_projected id c.projections) × HasBalances c s')
              (Projects c id) (Throws c id) (inl refl) (select_projection faults id) _ s1
              (Ensures-sure (λ d. (is_projected id d.projections, d)) s1 c c e1 h1)
              (λ b s2 e2 h2. Ends-after_guard b s2 e2 h2.1 h2.0))

  Ends-settle :
      (V : Bool → Database → Type 0) (T : Database → Type 0) (r : Outcome Bool × Session)
      → Ends V T r
      → Ends V T (settle faults r)
  Ends-settle V T (value b, s) h = h
  Ends-settle V T (throw e, s) h = subst T (sym (rollback-committed faults s)) h

-- The answer to an envelope that names the entry `id`: `true` as above, for a posted entry only,
-- and `false` only for another type of event or an entry that is not there.
abbrev pub Answers : Database → OutboxEnvelope → ℕ → Bool → Database → Type 0
Answers c envelope id true db =
    Projects c id true db × (envelope.event_type ≡ text "journal_entry.posted")
Answers c envelope id false db =
    (db ≡ c)
    × ((envelope.event_type ≢ text "journal_entry.posted") ⊎ (find_entry id c.entries ≡ none))

module _ (faults : Faults) (envelope : OutboxEnvelope) (id : ℕ) where
  Ends-Answers :
      (c : Database) (r : Outcome Bool × Session)
      → envelope.event_type ≡ text "journal_entry.posted"
      → Ends (Projects c id) (Throws c id) r
      → Ends (Answers c envelope id) (Throws c id) r
  Ends-Answers c (value true, s) k h = (h, k)
  Ends-Answers c (value false, s) k h = absurd h
  Ends-Answers c (throw e, s) k h = h

  Ends-project_entry :
      (c : Database) (o : Option EntryRow) (s : Session)
      → envelope.event_type ≡ text "journal_entry.posted"
      → s.committed ≡ c
      → o ≡ find_entry id c.entries
      → Ends (Answers c envelope id) (Throws c id) (project_entry faults id o s)
  unfolding project_entry
  Ends-project_entry c none s k e h = (e, inr (sym h))
  Ends-project_entry c (some entry) s k e h =
      Ends-bind c (λ ls _. ls ≡ entry_lines id c.lines) (Answers c envelope id) (Throws c id)
        (inl refl) (query faults (λ db. entry_lines id db.lines)) _ s
        (Ensures-query faults (λ db. entry_lines id db.lines) s c e)
        (λ ls s' e' q.
          subst
            (λ xs.
              Ends (Answers c envelope id) (Throws c id)
                (settle faults (project_body faults id entry xs s')))
            (sym q)
            (Ends-Answers c _ k (
              Ends-settle faults (Projects c id) (Throws c id) _
                (Ends-project_body faults c id entry (sym h) s' e'))))

  Ends-project_aggregate :
      (c : Database) (s : Session)
      → envelope.event_type ≡ text "journal_entry.posted"
      → s.committed ≡ c
      → Ends (Answers c envelope id) (Throws c id) (project_aggregate faults (some id) s)
  unfolding project_aggregate
  Ends-project_aggregate c s k e =
      Ends-bind c (λ o _. o ≡ find_entry id c.entries) (Answers c envelope id) (Throws c id)
        (inl refl) (query faults (λ db. find_entry id db.entries)) _ s
        (Ensures-query faults (λ db. find_entry id db.entries) s c e)
        (λ o s' e' q. Ends-project_entry c o s' k e' q)

  -- Whatever statements the environment refuses, or runs without an answer: `true` is answered for
  -- a posted entry only, which is now projected, with its row and the balances of all its lines, as
  -- the service computes them in doubles, or was before, and then nothing has changed; `false` only
  -- for another type of event or an entry that is not there, and nothing has changed; an exception
  -- leaves nothing changed or all of it done.
  pub project-atomic :
      (s : Session)
      → envelope.aggregate_id ≡ some id
      → Ends (Answers s.committed envelope id) (Throws s.committed id) (project faults envelope s)
  unfolding project
  project-atomic s a = elim (Bool-cases (envelope.event_type == text "journal_entry.posted")) [
    | inl k ↦
        rw (k, a)
          (Ends-project_aggregate s.committed s
            ((text_beq_iff envelope.event_type (text "journal_entry.posted")).0 k) refl)
    | inr k ↦ rw k (refl, inl (λ e. other_type e k))
  ]
    where
      other_type :
          envelope.event_type ≡ text "journal_entry.posted"
          → (envelope.event_type == text "journal_entry.posted") ≡ false
          → ⊥
      other_type e k =
          ground (arith, text_beq_iff envelope.event_type (text "journal_entry.posted"))
