-- ===== src/Relay/Worker/Delivers/Rows.antt =====
-- The loop over the claimed rows of apps/outbox-relay/src/relay/outbox-relay.service.ts while the database works.
use mathlib.Core.List.{append_assoc, append-nil}
use adaptive_financial_os.Common.{
  ℕ, ◌+◌, ◌≡◌, refl, sym, ◌∙◌, ap, subst, List, [], ◌∷◌, ◌++◌, All, Bool, true, false, ◌||◌, ltb,
  nat_beq, nat_eq, Bool-cases, ◌⊎◌, inl, inr, if◌then◌else◌, arith,
}
use adaptive_financial_os.Common.JsMap.{get}
use adaptive_financial_os.Db.{Database, EntryRow, EventRow}
use adaptive_financial_os.Db.Session.{no_faults, Session, value, execute}
use adaptive_financial_os.Relay.Envelope.{OutboxEnvelope}
use adaptive_financial_os.Relay.Projection.{is_projected, project}
use adaptive_financial_os.Relay.Worker.{
  Config, Environment, Worker, to_envelope, update_events, to_dead_letter, prev_attempts,
  handle_failure, after_failure, member, delivered, deliver, after_delivery, process_rows,
}
use adaptive_financial_os.Relay.Worker.Grows.{IsDelivered, IsDeliveredTo-later, project-Grows}

pub update-none :
    (change : EventRow → EventRow) (rows : List EventRow)
    → update_events (λ j. false) change rows ≡ rows
unfolding update_events
update-none change [] = refl
update-none change (row ∷ rows) = ap (λ rs. row ∷ rs) (update-none change rows)

-- Events that are given up in two steps.
update-twice :
    (first second : ℕ → Bool) (rows : List EventRow)
    → update_events second to_dead_letter (update_events first to_dead_letter rows)
      ≡ update_events (λ j. first j || second j) to_dead_letter rows
unfolding update_events
update-twice first second [] = refl
update-twice first second (row ∷ rows) = ground (arith, update-twice first second rows)

-- The ids of the events that a publisher takes, and of those that it does not.
abbrev pub taken_ids : (OutboxEnvelope → Bool) → List EventRow → List ℕ
taken_ids takes [] = []
taken_ids takes (row ∷ rows) =
    if takes (to_envelope row) then row.id ∷ taken_ids takes rows else taken_ids takes rows

abbrev pub refused_ids : (OutboxEnvelope → Bool) → List EventRow → List ℕ
refused_ids takes [] = []
refused_ids takes (row ∷ rows) =
    if takes (to_envelope row) then refused_ids takes rows else row.id ∷ refused_ids takes rows

-- An event that the publisher takes is delivered.
abbrev pub IsServed : (OutboxEnvelope → Bool) → List EntryRow → Database → EventRow → Type 0
IsServed takes entries db row = (takes (to_envelope row) ≡ false) ⊎ IsDelivered entries db row

-- Events that may be given up: those that the publisher does not take.
abbrev pub AreRefused : (OutboxEnvelope → Bool) → List EventRow → (ℕ → Bool) → Type 0
AreRefused takes rows dead = (j : ℕ) → (dead j ≡ false) ⊎ (member j (refused_ids takes rows) ≡ true)

module _ (config : Config) (env : Environment) where
  -- The same environment with a database that works.
  abbrev pub working : Environment
  working = record env { faults = no_faults }

  -- What a failure comes to: the event is given up, or nothing is stored.
  record Fails (row : EventRow) (w : Worker) : Type 0 where
    after : Worker
    dead : ℕ → Bool
    runs : handle_failure config working row w ≡ (value tt, after)
    stored : after.session.committed ≡ record w.session.committed {
      outbox = update_events dead to_dead_letter w.session.committed.outbox;
    }
    own : (j : ℕ) → (dead j ≡ false) ⊎ (nat_beq j row.id ≡ true)

  handle_failure-Fails : (row : EventRow) (w : Worker) → Fails row w
  unfolding handle_failure execute
  handle_failure-Fails row w =
      let attempts = prev_attempts (get row.id w.backoff) + 1 in
      elim (Bool-cases (ltb config.max_attempts attempts)) [
        | inl e ↦ record {
          after = (handle_failure config working row w).1;
          dead = λ j. nat_beq j row.id;
          runs = rw e refl;
          stored = rw e refl;
          own = λ j. or_false (nat_beq j row.id);
        }
        | inr e ↦ record {
          after = (handle_failure config working row w).1;
          dead = λ j. false;
          runs = rw e refl;
          stored = rw e (
              ap (λ rows. record w.session.committed { outbox = rows })
                (sym (update-none to_dead_letter w.session.committed.outbox)));
          own = λ j. inl refl;
        }
      ]
    where
      or_false : (b : Bool) → (b ≡ false) ⊎ (b ≡ true)
      or_false true = inr refl
      or_false false = inl refl

  module _ (takes : OutboxEnvelope → Bool)
      (publishes : (n : ℕ) (e : OutboxEnvelope) → env.publishes n e ≡ takes e) where
    -- What the loop comes to for some rows.
    pub record Delivers (rows : List EventRow) (ids : List ℕ) (w : Worker) : Type 0 where
      pub after : Worker
      pub dead : ℕ → Bool
      pub runs :
          process_rows config working rows ids w ≡ (value (ids ++ taken_ids takes rows), after)
      pub outbox :
          after.session.committed.outbox
          ≡ update_events dead to_dead_letter w.session.committed.outbox
      pub entries : after.session.committed.entries ≡ w.session.committed.entries
      pub projected :
          (id : ℕ)
          → is_projected id w.session.committed.projections ≡ true
          → is_projected id after.session.committed.projections ≡ true
      pub each : All (IsServed takes w.session.committed.entries after.session.committed) rows
      pub refused : AreRefused takes rows dead

    deliver-true :
        (row : EventRow) (s s' : Session) (b : Bool)
        → takes (to_envelope row) ≡ true
        → project no_faults (to_envelope row) s ≡ (value b, s')
        → deliver config working row s ≡ (true, s')
    unfolding deliver
    deliver-true row s s' b t e =
        ap
          (λ p.
            if p
            then delivered config working (project no_faults (to_envelope row) s)
            else (false, s))
          (publishes s.count (to_envelope row) ∙ t)
        ∙ ap (delivered config working) e

    deliver-false :
        (row : EventRow) (s : Session)
        → takes (to_envelope row) ≡ false
        → deliver config working row s ≡ (false, s)
    unfolding deliver
    deliver-false row s t =
        ap
          (λ p.
            if p
            then delivered config working (project no_faults (to_envelope row) s)
            else (false, s))
          (publishes s.count (to_envelope row) ∙ t)

    taken-Delivers :
        (row : EventRow) (rows : List EventRow) (ids : List ℕ) (w : Worker)
        → takes (to_envelope row) ≡ true
        → ((js : List ℕ) (w' : Worker) → Delivers rows js w')
        → Delivers (row ∷ rows) ids w
    unfolding process_rows
    taken-Delivers row rows ids w t ih =
        let (b, s', e, grows, done) = project-Grows row w.session in
        let rest = ih (ids ++ row.id ∷ []) (record { session = s'; backoff = w.backoff }) in
        let last = rest.after.session.committed in
        record {
          after = rest.after;
          dead = rest.dead;
          runs =
              ap
                (after_delivery config working (process_rows config working rows) row ids w.backoff)
                (deliver-true row w.session s' b t e)
              ∙ rest.runs
              ∙ ap (λ js. (value js, rest.after))
                  (append_assoc ids (row.id ∷ []) (taken_ids takes rows) ∙ rw t refl);
          outbox = rest.outbox ∙ ap (update_events rest.dead to_dead_letter) grows.outbox;
          entries = rest.entries ∙ grows.entries;
          projected = λ id h. rest.projected id (grows.projected id h);
          each = (
            inr (
                IsDeliveredTo-later w.session.committed.entries s'.committed.projections
                  last.projections row.event_type row.aggregate_id rest.projected done),
            subst (λ es. All (IsServed takes es last) rows) grows.entries rest.each,
          );
          refused = rw t rest.refused;
        }

    refused-Delivers :
        (row : EventRow) (rows : List EventRow) (ids : List ℕ) (w : Worker)
        → takes (to_envelope row) ≡ false
        → ((js : List ℕ) (w' : Worker) → Delivers rows js w')
        → Delivers (row ∷ rows) ids w
    unfolding process_rows
    refused-Delivers row rows ids w t ih =
        let failed = handle_failure-Fails row w in
        let rest = ih ids failed.after in
        let same = ap (λ (d : Database). d.entries) failed.stored in
        record {
          after = rest.after;
          dead = λ j. failed.dead j || rest.dead j;
          runs =
              ap
                (after_delivery config working (process_rows config working rows) row ids w.backoff)
                (deliver-false row w.session t)
              ∙ ap (after_failure config working (process_rows config working rows ids)) failed.runs
              ∙ rest.runs
              ∙ ap (λ js. (value (ids ++ js), rest.after)) (rw t refl);
          outbox =
              rest.outbox
              ∙ ap (λ (d : Database). update_events rest.dead to_dead_letter d.outbox) failed.stored
              ∙ update-twice failed.dead rest.dead w.session.committed.outbox;
          entries = rest.entries ∙ same;
          projected = λ id h. rest.projected id (
              subst (λ (d : Database). is_projected id d.projections ≡ true) (sym failed.stored) h);
          each = (
            inl t,
            subst (λ es. All (IsServed takes es rest.after.session.committed) rows) same rest.each,
          );
          refused = λ j. ground (arith, t, failed.own j, rest.refused j);
        }

    pub process_rows-Delivers :
        (rows : List EventRow) (ids : List ℕ) (w : Worker) → Delivers rows ids w
    unfolding process_rows
    process_rows-Delivers [] ids w = record {
      after = w;
      dead = λ j. false;
      runs = ap (λ js. (value js, w)) (sym (append-nil ids));
      outbox = sym (update-none to_dead_letter w.session.committed.outbox);
      entries = refl;
      projected = λ id h. h;
      each = tt;
      refused = λ j. inl refl;
    }
    process_rows-Delivers (row ∷ rows) ids w = elim (Bool-cases (takes (to_envelope row))) [
      | inl t ↦ taken-Delivers row rows ids w t (process_rows-Delivers rows)
      | inr t ↦ refused-Delivers row rows ids w t (process_rows-Delivers rows)
    ]
