-- ===== src/Relay/Worker/Keeps.antt =====
-- What one poll keeps of the committed database: a rule for invariants
-- (apps/outbox-relay/src/relay/outbox-relay.service.ts).
use adaptive_financial_os.Common.{
  ℕ, ◌+◌, ◌≡◌, refl, sym, subst, Option, none, some, List, [], ◌∷◌, ◌++◌, take, Bool, true, false,
  ltb, nat_beq, nat_eq, arith, Bool-cases, ◌⊎◌, inl, inr,
}
use adaptive_financial_os.Common.JsMap.{JsMap, get}
use adaptive_financial_os.Db.{Database, EventRow, done}
use adaptive_financial_os.Db.Session.{
  Fault, refuse, lose_answer, Session, Outcome, value, throw, statement, begin, execute, executed,
}
use adaptive_financial_os.Db.Ensures.{
  Ensures-statement, Ensures-weaken, Ends, Ends-bind, IsFresh, Ensures-begin, commit-Ends,
  rollback-committed,
}
use adaptive_financial_os.Relay.Envelope.{OutboxEnvelope}
use adaptive_financial_os.Relay.Projection.{project}
use adaptive_financial_os.Relay.Projection.Atomic.{same_touched}
use adaptive_financial_os.Relay.Worker.{
  Config, Environment, Worker, Attempt, to_envelope, update_events, to_published, to_dead_letter,
  member, claimable, backoff_ids, prev_attempts, claim_body, closed, claim, delivered, deliver,
  dead_lettered, handle_failure, after_failure, after_delivery, process_rows, marked,
  mark_published, mark_nonempty, pruned, finish, process_claimed, process_once,
}

module _ (config : Config) (env : Environment) where
  -- The claim commits nothing, and returns the first claimable rows.
  abbrev pub Claims : Database → List ℕ → List EventRow → Database → Type 0
  Claims c excluded rows db =
      (db ≡ c) × (rows ≡ take config.batch_size (claimable excluded c.outbox))

  Ends-claim_body :
      (excluded : List ℕ) (s : Session)
      → Ends
          (Claims s.committed excluded)
          (λ db. db ≡ s.committed)
          (claim_body config env excluded s)
  unfolding claim_body
  Ends-claim_body excluded s =
      Ends-bind s.committed (λ _ s'. IsFresh s.committed s') (Claims s.committed excluded)
        (λ db. db ≡ s.committed) refl (begin env.faults) _ s
        (Ensures-begin env.faults s s.committed refl)
        (λ _ s1 e1 h1.
          Ends-bind s.committed
            (λ rows s2.
              IsFresh s.committed s2
              × (rows ≡ take config.batch_size (claimable excluded s.committed.outbox)))
            (Claims s.committed excluded) (λ db. db ≡ s.committed) refl
            (statement env.faults
              (λ db. done (take config.batch_size (claimable excluded db.outbox), db, [])))
            _ s1
            (Ensures-weaken s.committed _ _ _ (Ensures-statement env.faults _ s1 s.committed e1)
              (λ rows s2 ran. (
                (
                  ground (arith, ran.1, h1.0),
                  same_touched env.faults s1 s2 ran.0 (ground (arith, ran.1)) ran.2 h1.1,
                ),
                ground (arith, ran.1, h1.0),
              )))
            (λ rows s2 e2 h2.
              commit-Ends env.faults (Claims s.committed excluded) (λ db. db ≡ s.committed) rows s2
                h2.0.1 (h2.0.0, h2.1) h2.0.0 e2))

  Ends-closed :
      {A : Type 0} (V : A → Database → Type 0) (T : Database → Type 0) (r : Outcome A × Session)
      → Ends V T r
      → Ends V T (closed config env r)
  Ends-closed V T (value a, s) h = h
  Ends-closed V T (throw e, s) h = subst T (sym (rollback-committed env.faults s)) h

  pub Ends-claim :
      (excluded : List ℕ) (s : Session)
      → Ends (Claims s.committed excluded) (λ db. db ≡ s.committed) (claim config env excluded s)
  unfolding claim
  Ends-claim excluded s =
      Ends-closed _ _ (claim_body config env excluded s) (Ends-claim_body excluded s)

  -- `P` is what follows from a delivery that the publisher takes.
  module _ (P : Type 0) (when : (n : ℕ) (e : OutboxEnvelope) → env.publishes n e ≡ true → P)
      (K : Database → Type 0)
      (projects : P
        → (row : EventRow) (s : Session) → K s.committed
        → K (project env.faults (to_envelope row) s).1.committed)
      (dies : (id : ℕ) (db : Database)
        → K db
        → K (record db { outbox = update_events (λ j. nat_beq j id) to_dead_letter db.outbox }))
      (publishes : P
        → (ids : List ℕ) (db : Database) → K db
        → K (record db { outbox = update_events (λ j. member j ids) to_published db.outbox })) where
    executed-keeps :
        (o : Option Fault) (db : Database) (s : Session)
        → K s.committed
        → K db
        → K (executed o db s).1.committed
    executed-keeps none db s h k = k
    executed-keeps (some (refuse e)) db s h k = h
    executed-keeps (some (lose_answer e)) db s h k = k

    execute-keeps :
        (f : Database → Database) (s : Session)
        → K s.committed
        → K (f s.committed)
        → K (execute env.faults f s).1.committed
    unfolding execute
    execute-keeps f s h k = executed-keeps (env.faults s.count) (f s.committed) s h k

    dead_lettered-session :
        (id : ℕ) (m : JsMap ℕ Attempt) (r : Outcome (Unit {0}) × Session)
        → (dead_lettered config env id m r).1.session ≡ r.1
    dead_lettered-session id m (value _, s) = refl
    dead_lettered-session id m (throw e, s) = refl

    marked-session :
        (ids : List ℕ) (m : JsMap ℕ Attempt) (r : Outcome (Unit {0}) × Session)
        → (marked config env ids m r).1.session ≡ r.1
    marked-session ids m (value _, s) = refl
    marked-session ids m (throw e, s) = refl

    handle_failure-keeps :
        (row : EventRow) (w : Worker)
        → K w.session.committed
        → K (handle_failure config env row w).1.session.committed
    unfolding handle_failure
    handle_failure-keeps row w h =
        elim (Bool-cases (ltb config.max_attempts (prev_attempts (get row.id w.backoff) + 1))) [
          | inl e ↦
              rw (e, dead_lettered-session)
                (execute-keeps _ w.session h (dies row.id w.session.committed h))
          | inr e ↦ rw e h
        ]

    delivered-session : (r : Outcome Bool × Session) → (delivered config env r).1 ≡ r.1
    delivered-session (value b, s) = refl
    delivered-session (throw e, s) = refl

    Delivers : Bool × Session → Type 0
    Delivers (true, s) = K s.committed × P
    Delivers (false, s) = K s.committed

    delivered-Delivers :
        P → (r : Outcome Bool × Session) → K r.1.committed → Delivers (delivered config env r)
    unfolding Delivers
    delivered-Delivers p (value b, s) h = (h, p)
    delivered-Delivers p (throw e, s) h = h

    deliver-Delivers :
        (row : EventRow) (s : Session) → K s.committed → Delivers (deliver config env row s)
    unfolding deliver Delivers
    deliver-Delivers row s h = elim (Bool-cases (env.publishes s.count (to_envelope row))) [
      | inl e ↦
          let p : P = when s.count (to_envelope row) e in
          rw e (delivered-Delivers p (project env.faults (to_envelope row) s) (projects p row s h))
      | inr e ↦ rw e h
    ]

    Loops : Outcome (List ℕ) × Worker → Type 0
    Loops (value ids, w) = K w.session.committed × ((ids ≡ []) ⊎ P)
    Loops (throw e, w) = K w.session.committed

    after_failure-Loops :
        (rest : Worker → Outcome (List ℕ) × Worker) (r : Outcome (Unit {0}) × Worker)
        → ((w : Worker) → K w.session.committed → Loops (rest w))
        → K r.1.session.committed
        → Loops (after_failure config env rest r)
    unfolding Loops
    after_failure-Loops rest (value _, w) k h = k w h
    after_failure-Loops rest (throw e, w) k h = h

    after_delivery-Loops :
        (rest : List ℕ → Worker → Outcome (List ℕ) × Worker) (row : EventRow) (ids : List ℕ)
        (m : JsMap ℕ Attempt) (d : Bool × Session)
        → ((js : List ℕ) (w : Worker) → K w.session.committed → (js ≡ []) ⊎ P → Loops (rest js w))
        → Delivers d
        → (ids ≡ []) ⊎ P
        → Loops (after_delivery config env rest row ids m d)
    unfolding Delivers
    after_delivery-Loops rest row ids m (true, s) k h o =
        k (ids ++ row.id ∷ []) (record { session = s; backoff = m }) h.0 (inr h.1)
    after_delivery-Loops rest row ids m (false, s) k h o =
        after_failure-Loops (rest ids)
          (handle_failure config env row (record { session = s; backoff = m })) (λ w q. k ids w q o)
          (handle_failure-keeps row (record { session = s; backoff = m }) h)

    process_rows-Loops :
        (rows : List EventRow) (ids : List ℕ) (w : Worker)
        → K w.session.committed
        → (ids ≡ []) ⊎ P
        → Loops (process_rows config env rows ids w)
    unfolding process_rows Loops
    process_rows-Loops [] ids w h o = (h, o)
    process_rows-Loops (row ∷ rows) ids w h o =
        after_delivery-Loops (process_rows config env rows) row ids w.backoff
          (deliver config env row w.session) (λ js v k q. process_rows-Loops rows js v k q)
          (deliver-Delivers row w.session h) o

    mark_nonempty-keeps :
        (ids : List ℕ) (w : Worker)
        → K w.session.committed
        → (ids ≡ []) ⊎ P
        → K (mark_nonempty config env ids w).1.session.committed
    unfolding mark_nonempty mark_published
    mark_nonempty-keeps [] w h o = h
    mark_nonempty-keeps (id ∷ ids) w h (inl e) = absurd (ground arith)
    mark_nonempty-keeps (id ∷ ids) w h (inr p) =
        rw marked-session
          (execute-keeps _ w.session h (publishes p (id ∷ ids) w.session.committed h))

    pruned-session :
        (r : Outcome (Unit {0}) × Worker) → (pruned config env r).1.session ≡ r.1.session
    pruned-session (value _, w) = ground arith
    pruned-session (throw e, w) = refl

    finish-keeps :
        (r : Outcome (List ℕ) × Worker) → Loops r → K (finish config env r).1.session.committed
    unfolding Loops
    finish-keeps (throw e, w) h = h
    finish-keeps (value ids, w) h = rw pruned-session (mark_nonempty-keeps ids w h.0 h.1)

    process_claimed-keeps :
        (c : Database) (excluded : List ℕ) (r : Outcome (List EventRow) × Session)
        (m : JsMap ℕ Attempt)
        → Ends (Claims c excluded) (λ db. db ≡ c) r
        → K c
        → K (process_claimed config env r m).1.session.committed
    unfolding process_claimed
    process_claimed-keeps c excluded (throw e, s) m h k = subst K (sym h) k
    process_claimed-keeps c excluded (value [], s) m h k = subst K (sym h.0) k
    process_claimed-keeps c excluded (value (row ∷ rows), s) m h k =
        finish-keeps (process_rows config env (row ∷ rows) [] (record { session = s; backoff = m }))
          (process_rows-Loops (row ∷ rows) [] (record { session = s; backoff = m })
            (subst K (sym h.0) k) (inl refl))

    pub process_once-keeps :
        (w : Worker) → K w.session.committed → K (process_once config env w).1.session.committed
    unfolding process_once
    process_once-keeps w k =
        let excluded = backoff_ids (env.now w.session.count) w.backoff in
        process_claimed-keeps w.session.committed excluded (claim config env excluded w.session)
          w.backoff (Ends-claim excluded w.session) k
