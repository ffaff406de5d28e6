-- ===== src/Relay/Worker/Delivers.antt =====
-- A poll of apps/outbox-relay/src/relay/outbox-relay.service.ts while the database works.
pub mod Rows
use mathlib.Core.List.{append_assoc, append-nil}
use adaptive_financial_os.Common.{
  ℕ, ◌+◌, ◌≡◌, refl, sym, ◌∙◌, ap, subst, List, [], ◌∷◌, ◌++◌, take, All, All-weaken, Bool, true,
  false, ◌||◌, ltb, nat_beq, nat_eq, Bool-cases, ◌⊎◌, inl, inr, if◌then◌else◌, arith,
}
use adaptive_financial_os.Common.JsMap.{JsMap, get}
use adaptive_financial_os.Db.{Database, EntryRow, EventRow}
use adaptive_financial_os.Db.Session.{
  no_faults, Session, Outcome, value, statement, begin, commit, execute,
}
use adaptive_financial_os.Relay.Envelope.{OutboxEnvelope}
use adaptive_financial_os.Relay.Projection.{is_projected, project}
use adaptive_financial_os.Relay.Worker.{
  Config, Environment, Worker, Attempt, to_envelope, update_events, to_published, to_dead_letter,
  prev_attempts, handle_failure, after_failure, member, claimable, backoff_ids, claim_body, claim,
  delivered, deliver, after_delivery, process_rows, mark_published, mark_nonempty, pruned, finish,
  process_claimed, process_once,
}
use adaptive_financial_os.Relay.Worker.Grows.{
  IsDeliveredTo, IsDelivered, IsDeliveredTo-later, project-Grows,
}
use adaptive_financial_os.Relay.Worker.Delivers.Rows.{
  update-none, taken_ids, IsServed, AreRefused, working, process_rows-Delivers,
}

module _ (config : Config) (env : Environment) (takes : OutboxEnvelope → Bool)
    (publishes : (n : ℕ) (e : OutboxEnvelope) → env.publishes n e ≡ takes e) where
  claim-value :
      (excluded : List ℕ) (s : Session)
      → (s' : Session) × (claim config (working config env) excluded s
          ≡ (value (take config.batch_size (claimable excluded s.committed.outbox)), s'))
        × (s'.committed ≡ s.committed)
  unfolding claim claim_body statement begin commit
  claim-value excluded s = (_, refl, refl)

  pruned-value :
      (w : Worker)
      → (w' : Worker) × (pruned config (working config env) (value tt, w) ≡ (value tt, w'))
        × (w'.session ≡ w.session)
  pruned-value w = (_, refl, ground arith)

  -- The claimed rows are marked.
  mark-value :
      (ids : List ℕ) (w : Worker)
      → (w' : Worker) × (finish config (working config env) (value ids, w) ≡ (value tt, w'))
        × (w'.session.committed.outbox
            ≡ update_events (λ j. member j ids) to_published w.session.committed.outbox)
        × (w'.session.committed.projections ≡ w.session.committed.projections)
  unfolding mark_nonempty mark_published execute
  mark-value [] w =
      let (w', e, same) = pruned-value w in
      (
        w',
        e,
        ap (λ (s : Session). s.committed.outbox) same
            ∙ sym (update-none to_published w.session.committed.outbox),
        ap (λ (s : Session). s.committed.projections) same,
      )
  mark-value (id ∷ ids) w =
      let (w', e, same) =
        pruned-value (mark_published config (working config env) (id ∷ ids) w).1 in
      (
        w',
        e,
        ap (λ (s : Session). s.committed.outbox) same,
        ap (λ (s : Session). s.committed.projections) same,
      )

  abbrev pub batch : Worker → List EventRow
  batch w =
      take config.batch_size
        (claimable (backoff_ids (env.now w.session.count) w.backoff) w.session.committed.outbox)

  -- What a poll comes to for the events that it has claimed.
  pub record IsPolled (rows : List EventRow) (c db : Database) : Type 0 where
    pub dead : ℕ → Bool
    pub refused : AreRefused takes rows dead
    pub outbox :
        db.outbox
        ≡ update_events
            (λ j. member j (taken_ids takes rows))
            to_published
            (update_events dead to_dead_letter c.outbox)
    pub each : All (IsServed takes c.entries db) rows

  process_claimed-value :
      (rows : List EventRow) (s : Session) (m : JsMap ℕ Attempt)
      → (w' : Worker) × (process_claimed config (working config env) (value rows, s) m
          ≡ (value tt, w'))
        × IsPolled rows s.committed w'.session.committed
  unfolding process_claimed
  process_claimed-value [] s m = (
    _,
    refl,
    record {
      dead = λ j. false;
      refused = λ j. inl refl;
      outbox = sym (
          update-none to_published (update_events (λ j. false) to_dead_letter s.committed.outbox)
          ∙ update-none to_dead_letter s.committed.outbox);
      each = tt;
    },
  )
  process_claimed-value (row ∷ rows) s m =
      let run =
        process_rows-Delivers config env takes publishes (row ∷ rows) []
          (record { session = s; backoff = m }) in
      let ids = taken_ids takes (row ∷ rows) in
      let (w', e, outbox, projections) = mark-value ids run.after in
      (
        w',
        ap (finish config (working config env)) run.runs ∙ e,
        record {
          dead = run.dead;
          refused = run.refused;
          outbox = outbox ∙ ap (update_events (λ j. member j ids) to_published) run.outbox;
          each =
              All-weaken (IsServed takes s.committed.entries run.after.session.committed)
                (IsServed takes s.committed.entries w'.session.committed) (row ∷ rows)
                (λ r h.
                  subst
                    (λ ps.
                      (takes (to_envelope r) ≡ false)
                      ⊎ IsDeliveredTo s.committed.entries ps r.event_type r.aggregate_id)
                    (sym projections) h)
                run.each;
        },
      )

  -- While the database works, and the publisher takes the events that it takes whenever they come:
  -- a poll ends without an error. Each event of the batch, which is the first claimable events up
  -- to the batch size, that the publisher takes is delivered: the entry that it names is
  -- projected, unless it names none, the event is of another type, or there is no such entry. Of
  -- the outbox, pending events that the publisher does not take may be given up, then the pending
  -- events that it has taken are marked as published, and nothing else changes.
  pub process_once-delivers :
      (w : Worker)
      → ((process_once config (working config env) w).0 ≡ value tt)
        × IsPolled
            (batch w)
            w.session.committed
            (process_once config (working config env) w).1.session.committed
  unfolding process_once
  process_once-delivers w =
      let (s', e, same) = claim-value (backoff_ids (env.now w.session.count) w.backoff) w.session in
      let (w', run, ends) = process_claimed-value (batch w) s' w.backoff in
      let whole : process_once config (working config env) w ≡ (value tt, w') =
        ap (λ r. process_claimed config (working config env) r w.backoff) e ∙ run in
      (
        ap (λ p. p.0) whole,
        subst
            (λ (p : Outcome (Unit {0}) × Worker).
              IsPolled (batch w) w.session.committed p.1.session.committed)
            (sym whole)
            (subst (λ (d : Database). IsPolled (batch w) d w'.session.committed) same ends),
      )
