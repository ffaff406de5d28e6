-- ===== src/Relay/Worker/Grows.antt =====
-- What a delivery to the projection adds to a database that works
-- (apps/outbox-relay/src/relay/projection.service.ts).
use adaptive_financial_os.Common.{
  ℕ, ◌≡◌, ◌≢◌, refl, sym, ◌∙◌, ap, subst, Text, text, Option, none, some, List, [], ◌∷◌, ◌++◌, Bool,
  true, false, Option-cases, ◌⊎◌, inl, inr, arith,
}
use adaptive_financial_os.Db.{Database, EntryRow, EventRow, ProjectionRow}
use adaptive_financial_os.Db.Session.{no_faults, Session, value}
use adaptive_financial_os.Db.Ensures.{Ends}
use adaptive_financial_os.Relay.Envelope.{OutboxEnvelope}
use adaptive_financial_os.Relay.Projection.{find_entry, is_projected, project}
use adaptive_financial_os.Relay.Projection.Atomic.{IsProjected, Throws, Answers, project-atomic}
use adaptive_financial_os.Relay.Projection.Reflects.{project-no_aggregate}
use adaptive_financial_os.Relay.Projection.Returns.{project-Returns}
use adaptive_financial_os.Relay.Worker.{to_envelope}

-- What deliveries leave as it is: the outbox, the entries, and what is projected.
pub record Grows (c db : Database) : Type 0 where
  pub outbox : db.outbox ≡ c.outbox
  pub entries : db.entries ≡ c.entries
  pub projected :
      (id : ℕ) → is_projected id c.projections ≡ true → is_projected id db.projections ≡ true

-- The entry that the event names is projected, if the event is of a posted entry that is there.
abbrev pub IsDeliveredTo : List EntryRow → List ProjectionRow → Text → Option ℕ → Type 0
IsDeliveredTo entries ps event_type none = Unit
IsDeliveredTo entries ps event_type (some id) =
    (event_type ≢ text "journal_entry.posted")
    ⊎ (find_entry id entries ≡ none)
    ⊎ (is_projected id ps ≡ true)

abbrev pub IsDelivered : List EntryRow → Database → EventRow → Type 0
IsDelivered entries db row = IsDeliveredTo entries db.projections row.event_type row.aggregate_id

pub IsDeliveredTo-later :
    (entries : List EntryRow) (ps qs : List ProjectionRow) (t : Text) (o : Option ℕ)
    → ((id : ℕ) → is_projected id ps ≡ true → is_projected id qs ≡ true)
    → IsDeliveredTo entries ps t o
    → IsDeliveredTo entries qs t o
IsDeliveredTo-later entries ps qs t none k h = tt
IsDeliveredTo-later entries ps qs t (some id) k (inl h) = inl h
IsDeliveredTo-later entries ps qs t (some id) k (inr (inl h)) = inr (inl h)
IsDeliveredTo-later entries ps qs t (some id) k (inr (inr h)) = inr (inr (k id h))

is_projected-append :
    (id : ℕ) (ps : List ProjectionRow) (p : ProjectionRow)
    → is_projected id ps ≡ true
    → is_projected id (ps ++ p ∷ []) ≡ true
is_projected-append id [] p h = cc
is_projected-append id (q ∷ ps) p h = ground (arith, is_projected-append id ps p)

is_projected-last :
    (id : ℕ) (ps : List ProjectionRow) (p : ProjectionRow)
    → p.entry_id ≡ id
    → is_projected id (ps ++ p ∷ []) ≡ true
is_projected-last id [] p h = ground arith
is_projected-last id (q ∷ ps) p h = ground (arith, is_projected-last id ps p h)

pub Grows-refl : (c db : Database) → db ≡ c → Grows c db
Grows-refl c db e = record {
  outbox = ap (λ (d : Database). d.outbox) e;
  entries = ap (λ (d : Database). d.entries) e;
  projected = λ id h. ap (λ (d : Database). is_projected id d.projections) e ∙ h;
}

Grows-projected : (c db : Database) (id : ℕ) → IsProjected c db id → Grows c db
Grows-projected c db id p = record {
  outbox = ap (λ (d : Database). d.outbox) p.stored;
  entries = ap (λ (d : Database). d.entries) p.stored;
  projected = λ j h.
      ap (λ (d : Database). is_projected j d.projections) p.stored
      ∙ is_projected-append j c.projections _ h;
}

Answers-Grows :
    (c : Database) (e : OutboxEnvelope) (id : ℕ) (b : Bool) (db : Database)
    → Answers c e id b db
    → Grows c db × IsDeliveredTo c.entries db.projections e.event_type (some id)
Answers-Grows c e id false db h =
    (Grows-refl c db h.0, elim h.1 [ inl other ↦ inl other | inr lost ↦ inr (inl lost) ])
Answers-Grows c e id true db (inl h, k) = (
  Grows-refl c db h.0,
  inr (inr (ap (λ (d : Database). is_projected id d.projections) h.0 ∙ h.1)),
)
Answers-Grows c e id true db (inr p, k) = (
  Grows-projected c db id p,
  inr (
      inr (
        ap (λ (d : Database). is_projected id d.projections) p.stored
        ∙ is_projected-last id c.projections _ refl)),
)

-- A delivery to the projection, on a database that works.
pub project-Grows :
    (row : EventRow) (s : Session)
    → (b : Bool) × (s' : Session) × (project no_faults (to_envelope row) s ≡ (value b, s'))
      × Grows s.committed s'.committed
      × IsDelivered s.committed.entries s'.committed row
project-Grows row s =
    let (b, s', e) = project-Returns (to_envelope row) s in
    elim (Option-cases row.aggregate_id) [
      | inl n ↦
          let same : s'.committed ≡ s.committed =
            ap (λ p. p.1.committed)
              (sym e ∙ project-no_aggregate no_faults (to_envelope row) s n) in
          (
            b,
            s',
            e,
            Grows-refl s.committed s'.committed same,
            subst (IsDeliveredTo s.committed.entries s'.committed.projections row.event_type)
                (sym n) tt,
          )
      | inr (id, a) ↦
          let (grows, done) = Answers-Grows s.committed (to_envelope row) id b s'.committed (
            subst (Ends (Answers s.committed (to_envelope row) id) (Throws s.committed id)) e
              (project-atomic no_faults (to_envelope row) id s a)) in
          (
            b,
            s',
            e,
            grows,
            subst (IsDeliveredTo s.committed.entries s'.committed.projections row.event_type)
                (sym a) done,
          )
    ]
