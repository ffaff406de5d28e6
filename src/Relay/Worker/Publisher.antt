-- ===== src/Relay/Worker/Publisher.antt =====
-- apps/outbox-relay/src/relay/outbox.publisher.ts: `WebhookOutboxPublisher.publish` as it stands.
-- Its parameter is named `_envelope`, and its first statement reads `envelope`, which nothing
-- declares: it throws a `ReferenceError` before anything is sent, with a webhook configured or
-- without.
use adaptive_financial_os.Common.{
  ℕ, ◌≡◌, refl, List, [], ◌∷◌, Bool, false, nat_beq, arith, Bool-cases, ◌⊎◌, inl, inr, ◌&&◌, Option,
  none, some, if◌then◌else◌,
}
use adaptive_financial_os.Db.{EventRow, pending}
use adaptive_financial_os.Relay.Envelope.{OutboxEnvelope}
use adaptive_financial_os.Relay.Worker.{
  Config, Environment, Worker, is_pending, update_events, to_dead_letter, process_once,
}
use adaptive_financial_os.Relay.Worker.Keeps.{process_once-keeps}

-- A name that the scope of `publish` may hold.
pub data Identifier : Type 0 where
  param_envelope : Identifier
  free_envelope : Identifier

-- Reading a name: `_envelope` is bound to the argument, `envelope` is not bound.
unfoldable pub read_name : Identifier → OutboxEnvelope → Option OutboxEnvelope
read_name param_envelope e = some e
read_name free_envelope e = none

-- Whether `publish` resolves. `sent` is what the log or the webhook would make of the envelope.
unfoldable pub webhook_publish : (OutboxEnvelope → Bool) → OutboxEnvelope → Bool
unfolding read_name
webhook_publish sent e = elim (read_name free_envelope e) [ none ↦ false | some read ↦ sent read ]

-- An event stays as it is or is given up.
abbrev pub GivenUp : EventRow → EventRow → Type 0
GivenUp row row' = (row' ≡ row) ⊎ ((row.status ≡ pending) × (row' ≡ to_dead_letter row))

abbrev pub AllGivenUp : List EventRow → List EventRow → Type 0
AllGivenUp [] [] = Unit
AllGivenUp [] (y ∷ ys) = ⊥
AllGivenUp (x ∷ xs) [] = ⊥
AllGivenUp (x ∷ xs) (y ∷ ys) = GivenUp x y × AllGivenUp xs ys

AllGivenUp-refl : (xs : List EventRow) → AllGivenUp xs xs
AllGivenUp-refl [] = tt
AllGivenUp-refl (x ∷ xs) = (inl refl, AllGivenUp-refl xs)

GivenUp-update :
    (test : Bool) (x y : EventRow)
    → GivenUp x y
    → GivenUp x (if test && is_pending y.status then to_dead_letter y else y)
GivenUp-update test x y (inl e) = elim (Bool-cases (test && is_pending y.status)) [
  | inl t ↦ rw t (inr (ground arith, rw e))
  | inr f ↦ rw f (inl e)
]
GivenUp-update test x y (inr (p, e)) = ground arith

AllGivenUp-update :
    (test : ℕ → Bool) (xs ys : List EventRow)
    → AllGivenUp xs ys
    → AllGivenUp xs (update_events test to_dead_letter ys)
unfolding update_events
AllGivenUp-update test [] [] h = tt
AllGivenUp-update test [] (y ∷ ys) h = absurd h
AllGivenUp-update test (x ∷ xs) [] h = absurd h
AllGivenUp-update test (x ∷ xs) (y ∷ ys) h =
    (GivenUp-update (test y.id) x y h.0, AllGivenUp-update test xs ys h.1)

-- With the webhook publisher as it stands, no poll publishes or projects anything, whatever would
-- be sent and whatever the environment does: the projections and the balances stay as they are, and
-- an event stays as it is or goes from `pending` to `dead_letter`.
pub process_once-webhook :
    (config : Config) (env : Environment) (sent : OutboxEnvelope → Bool) (w : Worker)
    → ((n : ℕ) (e : OutboxEnvelope) → env.publishes n e ≡ webhook_publish sent e)
    → AllGivenUp w.session.committed.outbox (process_once config env w).1.session.committed.outbox
      × ((process_once config env w).1.session.committed.projections
          ≡ w.session.committed.projections)
      × ((process_once config env w).1.session.committed.balances ≡ w.session.committed.balances)
unfolding webhook_publish
process_once-webhook config env sent w wired =
    process_once-keeps config env ⊥ (λ n e p. ground (arith, wired n e))
      (λ db.
        AllGivenUp w.session.committed.outbox db.outbox
        × (db.projections ≡ w.session.committed.projections)
        × (db.balances ≡ w.session.committed.balances))
      (λ p row s h. absurd p)
      (λ id db h.
        (AllGivenUp-update (λ j. nat_beq j id) w.session.committed.outbox db.outbox h.0, h.1, h.2))
      (λ p ids db h. absurd p) w (AllGivenUp-refl w.session.committed.outbox, refl, refl)
