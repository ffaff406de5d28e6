-- ===== src/Relay/Worker/Lifecycle.antt =====
-- The lifecycle of an event, pending to published or to dead letter, and what a poll does to the
-- balances (apps/outbox-relay/src/relay/outbox-relay.service.ts).
use adaptive_financial_os.Common.{
  ℕ, ◌≡◌, refl, ap, subst, List, [], ◌∷◌, Bool, true, false, nat_beq, arith, Bool-cases,
  Option-cases, ◌⊎◌, inl, inr, ◌&&◌, if◌then◌else◌,
}
use adaptive_financial_os.Db.{Database, EventRow, pending}
use adaptive_financial_os.Db.Session.{Session, Outcome, value, throw}
use adaptive_financial_os.Db.Ensures.{Ends}
use adaptive_financial_os.Relay.Envelope.{OutboxEnvelope}
use adaptive_financial_os.Relay.Projection.{project}
use adaptive_financial_os.Relay.Projection.Atomic.{
  IsProjected, Projects, Throws, Answers, project-atomic,
}
use adaptive_financial_os.Relay.Projection.Reflects.{project-no_aggregate}
use adaptive_financial_os.Relay.Worker.{
  Config, Environment, Worker, to_envelope, is_pending, update_events, to_published, to_dead_letter,
  member, process_once,
}
use adaptive_financial_os.Relay.Worker.Keeps.{process_once-keeps}

-- An event stays as it is, or leaves the state `pending` for one of the two final states.
abbrev pub Moves : EventRow → EventRow → Type 0
Moves row row' =
    (row' ≡ row)
    ⊎ ((row.status ≡ pending) × ((row' ≡ to_published row) ⊎ (row' ≡ to_dead_letter row)))

abbrev pub AllMove : List EventRow → List EventRow → Type 0
AllMove [] [] = Unit
AllMove [] (y ∷ ys) = ⊥
AllMove (x ∷ xs) [] = ⊥
AllMove (x ∷ xs) (y ∷ ys) = Moves x y × AllMove xs ys

pub AllMove-refl : (xs : List EventRow) → AllMove xs xs
AllMove-refl [] = tt
AllMove-refl (x ∷ xs) = (inl refl, AllMove-refl xs)

-- What an UPDATE may do to a row.
Changes : (EventRow → EventRow) → Type 0
Changes change =
    (row : EventRow) → (change row ≡ to_published row) ⊎ (change row ≡ to_dead_letter row)

Moves-update :
    (test : Bool) (change : EventRow → EventRow) (x y : EventRow)
    → Changes change
    → Moves x y
    → Moves x (if test && is_pending y.status then change y else y)
unfolding Changes
Moves-update test change x y k (inl e) = elim (Bool-cases (test && is_pending y.status)) [
  | inl t ↦ rw t (
      inr (
        ground arith,
        subst (λ z. (change y ≡ to_published z) ⊎ (change y ≡ to_dead_letter z)) e (k y),
      ))
  | inr f ↦ rw f (inl e)
]
Moves-update test change x y k (inr (p, inl e)) = ground arith
Moves-update test change x y k (inr (p, inr e)) = ground arith

AllMove-update :
    (test : ℕ → Bool) (change : EventRow → EventRow) (xs ys : List EventRow)
    → Changes change
    → AllMove xs ys
    → AllMove xs (update_events test change ys)
unfolding update_events
AllMove-update test change [] [] k h = tt
AllMove-update test change [] (y ∷ ys) k h = absurd h
AllMove-update test change (x ∷ xs) [] k h = absurd h
AllMove-update test change (x ∷ xs) (y ∷ ys) k h =
    (Moves-update (test y.id) change x y k h.0, AllMove-update test change xs ys k h.1)

IsProjected-outbox : (c db : Database) (id : ℕ) → IsProjected c db id → db.outbox ≡ c.outbox
IsProjected-outbox c db id p = ap (λ (d : Database). d.outbox) p.stored

either-outbox : (c db : Database) (id : ℕ) → Throws c id db → db.outbox ≡ c.outbox
either-outbox c db id (inl e) = ap (λ (d : Database). d.outbox) e
either-outbox c db id (inr p) = IsProjected-outbox c db id p

Projects-outbox : (c db : Database) (id : ℕ) → Projects c id true db → db.outbox ≡ c.outbox
Projects-outbox c db id (inl e) = ap (λ (d : Database). d.outbox) e.0
Projects-outbox c db id (inr p) = IsProjected-outbox c db id p

Ends-outbox :
    (c : Database) (e : OutboxEnvelope) (id : ℕ) (r : Outcome Bool × Session)
    → Ends (Answers c e id) (Throws c id) r
    → r.1.committed.outbox ≡ c.outbox
Ends-outbox c e id (value true, s) h = Projects-outbox c s.committed id h.0
Ends-outbox c e id (value false, s) h = ap (λ (d : Database). d.outbox) h.0
Ends-outbox c e id (throw x, s) h = either-outbox c s.committed id h

module _ (config : Config) (env : Environment) where
  project-outbox :
      (e : OutboxEnvelope) (s : Session)
      → (project env.faults e s).1.committed.outbox ≡ s.committed.outbox
  project-outbox e s = elim (Option-cases e.aggregate_id) [
    | inl n ↦ rw (project-no_aggregate env.faults e s n)
    | inr (id, a) ↦
        Ends-outbox s.committed e id (project env.faults e s) (project-atomic env.faults e id s a)
  ]

  -- Over one poll, whatever the environment does, every event keeps its place and stays as it was,
  -- or goes from `pending` to `published` or `dead_letter` with the flags of that state: no event
  -- is added or lost, and none leaves a final state.
  pub process_once-AllMove :
      (w : Worker)
      → AllMove w.session.committed.outbox (process_once config env w).1.session.committed.outbox
  process_once-AllMove w =
      process_once-keeps config env (Unit {0}) (λ _ _ _. tt)
        (λ db. AllMove w.session.committed.outbox db.outbox)
        (λ _ row s h. rw (project-outbox (to_envelope row) s) h)
        (λ id db h.
          AllMove-update (λ j. nat_beq j id) to_dead_letter w.session.committed.outbox db.outbox
            (unfold Changes in λ row. inr refl) h)
        (λ _ ids db h.
          AllMove-update (λ j. member j ids) to_published w.session.committed.outbox db.outbox
            (unfold Changes in λ row. inl refl) h)
        w (AllMove-refl w.session.committed.outbox)
