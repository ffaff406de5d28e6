-- ===== src/Api/Ledger/Stages.antt =====
-- The open transaction of `postEntry`, statement by statement
-- (apps/api/src/ledger/ledger.service.ts).
use adaptive_financial_os.Common.{
  ℕ, ◌≡◌, ◌∙◌, false, Bool-cases, inl, inr, sym, ap, subst, Text, Option, none, List, [], ◌∷◌, ◌++◌,
  map, length, arith,
}
use adaptive_financial_os.Db.{Database, LineRow, KeyRow, SqlResult, done, find_key, is_entry}
use adaptive_financial_os.Db.Session.{Faults, Session}
use adaptive_financial_os.Db.Ensures.{Ensures, Ran, Ensures-statement, Ensures-weaken}
use adaptive_financial_os.Api.Ledger.{
  PostEntryDto, store_entry, insert_entry, insert_key, store_key, insert_event, event_row,
}
use adaptive_financial_os.Api.Ledger.Spec.{posted_db}
use adaptive_financial_os.Api.Ledger.Steps.{AreLinesOf, AddsLines, same_touched}

module _ (faults : Faults) (numeric_in : Text → Option ℕ) (new_id : Database → ℕ) where
  -- The transaction holds everything but the commit.
  pub record IsStaged (dto : PostEntryDto) (c : Database) (id : ℕ) (s : Session) : Type 0 where
    pub rows : List LineRow
    pub event_id : ℕ
    pub work : s.work ≡ posted_db dto c id rows event_id
    pub new_entry : is_entry id c.entries ≡ false
    pub lines_of : AreLinesOf numeric_in c.accounts dto.tenant_id id dto.lines rows
    pub new_key : find_key dto.tenant_id dto.idempotency_key c.keys ≡ none
    pub touched : s.touched ≡ map (λ (r : LineRow). r.entry_id) rows

  -- The parts of the staged transaction, in the order in which they come.
  abbrev pub with_entry : PostEntryDto → Database → ℕ → Database
  with_entry dto c id = record c {
    entries =
        c.entries
        ++ record { id = id; tenant_id = dto.tenant_id; description = dto.description } ∷ [];
  }

  abbrev pub HasEntry : PostEntryDto → Database → ℕ → Session → Type 0
  HasEntry dto c id s =
      (s.work ≡ with_entry dto c id) × (s.touched ≡ []) × (is_entry id c.entries ≡ false)

  pub record HasLines (dto : PostEntryDto) (c : Database) (id : ℕ) (s : Session) : Type 0 where
    pub rows : List LineRow
    pub work : s.work ≡ record (with_entry dto c id) { lines = c.lines ++ rows }
    pub new_entry : is_entry id c.entries ≡ false
    pub lines_of : AreLinesOf numeric_in c.accounts dto.tenant_id id dto.lines rows
    pub touched : s.touched ≡ map (λ (r : LineRow). r.entry_id) rows

  abbrev pub with_key : PostEntryDto → Database → ℕ → List LineRow → Database
  with_key dto c id rows = record (with_entry dto c id) {
    lines = c.lines ++ rows;
    keys =
        c.keys
        ++ record { tenant_id = dto.tenant_id; key = dto.idempotency_key; entry_id = id } ∷ [];
  }

  pub record HasKey (dto : PostEntryDto) (c : Database) (id : ℕ) (s : Session) : Type 0 where
    pub rows : List LineRow
    pub work : s.work ≡ with_key dto c id rows
    pub new_entry : is_entry id c.entries ≡ false
    pub lines_of : AreLinesOf numeric_in c.accounts dto.tenant_id id dto.lines rows
    pub new_key : find_key dto.tenant_id dto.idempotency_key c.keys ≡ none
    pub touched : s.touched ≡ map (λ (r : LineRow). r.entry_id) rows

  -- What the INSERT of the entry says if it succeeds.
  stored_entry :
      (tenant description : Text) (id new : ℕ) (s s' : Session) (ids : List ℕ)
      → store_entry faults numeric_in new_id tenant description new s.work ≡ done (id, s'.work, ids)
      → (s'.work ≡ record s.work {
        entries =
            s.work.entries
            ++ record { id = id; tenant_id = tenant; description = description } ∷ [];
      })
        × (ids ≡ [])
        × (is_entry id s.work.entries ≡ false)
  stored_entry tenant description id new s s' ids h =
      elim (Bool-cases (is_entry new s.work.entries)) [
        | inl e ↦ absurd (ground (arith, h))
        | inr e ↦ ground (arith, h)
      ]

  entry-HasEntry :
      (dto : PostEntryDto) (c : Database) (id : ℕ) (s s' : Session)
      → s.work ≡ c
      → s.touched ≡ []
      → Ran
          (store_entry faults numeric_in new_id dto.tenant_id dto.description
            (new_id s.work)
            s.work)
          s
          id
          s'
      → HasEntry dto c id s'
  entry-HasEntry dto c id s s' w t (ids, h, touched) =
      let (work, none_touched, fresh) =
        stored_entry dto.tenant_id dto.description id (new_id s.work) s s' ids h in
      (
        work ∙ ap (λ d. with_entry dto d id) w,
        same_touched faults numeric_in new_id s s' ids none_touched touched ∙ t,
        ap (λ (d : Database). is_entry id d.entries) (sym w) ∙ fresh,
      )

  pub Ensures-insert_entry :
      (dto : PostEntryDto) (c : Database) (s : Session)
      → s.committed ≡ c
      → s.work ≡ c
      → s.touched ≡ []
      → Ensures c
          (λ id s'. HasEntry dto c id s')
          (insert_entry faults numeric_in new_id dto.tenant_id dto.description s)
  unfolding insert_entry
  Ensures-insert_entry dto c s e w t =
      Ensures-weaken c _ _ _ (Ensures-statement faults _ s c e)
        (λ id s' ran. entry-HasEntry dto c id s s' w t ran)

  pub lines-HasLines :
      (dto : PostEntryDto) (c : Database) (id : ℕ) (s s' : Session)
      → HasEntry dto c id s
      → AddsLines numeric_in dto.tenant_id id dto.lines s s'
      → HasLines dto c id s'
  lines-HasLines dto c id s s' h a = record {
    rows = a.rows;
    new_entry = h.2;
    work = a.work ∙ ap (λ (d : Database). record d { lines = d.lines ++ a.rows }) h.0;
    lines_of =
        subst (λ (d : Database). AreLinesOf numeric_in d.accounts dto.tenant_id id dto.lines a.rows)
          h.0 a.lines_of;
    touched = a.touched ∙ ap (λ ts. ts ++ map (λ (r : LineRow). r.entry_id) a.rows) h.1;
  }

  pub key-HasKey :
      (dto : PostEntryDto) (c : Database) (id : ℕ) (s s' : Session)
      → HasLines dto c id s
      → Ran (store_key faults numeric_in new_id dto.tenant_id dto.idempotency_key id s.work) s tt s'
      → HasKey dto c id s'
  key-HasKey dto c id s s' h (ids, ran, t) =
      let keys : s.work.keys ≡ c.keys = ap (λ (d : Database). d.keys) h.work in
      let fresh : find_key dto.tenant_id dto.idempotency_key s.work.keys ≡ none = ground arith in
      let row : KeyRow = record {
        tenant_id = dto.tenant_id;
        key = dto.idempotency_key;
        entry_id = id;
      } in
      let added : s'.work ≡ record s.work { keys = s.work.keys ++ row ∷ [] } = ground arith in
      record {
        rows = h.rows;
        new_entry = h.new_entry;
        work = added ∙ ap (λ (d : Database). record d { keys = d.keys ++ row ∷ [] }) h.work;
        lines_of = h.lines_of;
        new_key = ap (find_key dto.tenant_id dto.idempotency_key) (sym keys) ∙ fresh;
        touched = same_touched faults numeric_in new_id s s' ids (ground arith) t ∙ h.touched;
      }

  pub Ensures-insert_key :
      (dto : PostEntryDto) (c : Database) (id : ℕ) (s : Session)
      → s.committed ≡ c
      → HasLines dto c id s
      → Ensures c
          (λ _ s'. HasKey dto c id s')
          (insert_key faults numeric_in new_id dto.tenant_id dto.idempotency_key id s)
  unfolding insert_key
  Ensures-insert_key dto c id s e h =
      Ensures-weaken c _ _ _ (Ensures-statement faults _ s c e)
        (λ a s' ran. key-HasKey dto c id s s' h ran)

  pub Ensures-insert_event :
      (dto : PostEntryDto) (c : Database) (id : ℕ) (s : Session)
      → s.committed ≡ c
      → HasKey dto c id s
      → Ensures c
          (λ _ s'. IsStaged dto c id s')
          (insert_event faults numeric_in new_id dto.tenant_id id dto.description
            (length dto.lines)
            s)
  unfolding insert_event
  Ensures-insert_event dto c id s e h =
      Ensures-weaken c _ _ _ (Ensures-statement faults _ s c e) (λ a s' ran. record {
        rows = h.rows;
        new_entry = h.new_entry;
        event_id = new_id s.work;
        work =
            event_added s s' ran.0 ran.1
            ∙ ap
                (λ (d : Database). record d {
                  outbox =
                      d.outbox
                      ++ event_row faults numeric_in new_id dto.tenant_id id dto.description
                          (length dto.lines) s.work
                        ∷ [];
                })
                h.work;
        lines_of = h.lines_of;
        new_key = h.new_key;
        touched =
            same_touched faults numeric_in new_id s s' ran.0 (ground (arith, ran.1)) ran.2
            ∙ h.touched;
      })
    where
      event_added :
          (s s' : Session) (ids : List ℕ)
          → ◌≡◌ {A = SqlResult (Unit {0} × Database × List ℕ)}
              (done (
                tt,
                record s.work {
                  outbox =
                      s.work.outbox
                      ++ event_row faults numeric_in new_id dto.tenant_id id dto.description
                          (length dto.lines)
                          s.work
                        ∷ [];
                },
                [],
              ))
              (done (tt, s'.work, ids))
          → s'.work ≡ record s.work {
            outbox =
                s.work.outbox
                ++ event_row faults numeric_in new_id dto.tenant_id id dto.description
                    (length dto.lines)
                    s.work
                  ∷ [];
          }
      event_added s s' ids q = ground arith
