-- ===== src/System/Polls.antt =====
-- The polls of the worker are a sequence of steps of the system, so that what holds of every order of
-- steps holds of them (apps/outbox-relay/src/relay/outbox-relay.service.ts).
use adaptive_financial_os.Common.{ℕ, zero, suc, ◌≡◌, refl, sym, ◌∙◌, subst, Text, Option, List}
use adaptive_financial_os.Core.Types.{debit, credit}
use adaptive_financial_os.Db.{Database, AccountRow, LineRow}
use adaptive_financial_os.Relay.Projection.Reflects.{AreSmall, exact, project-lines}
use adaptive_financial_os.Relay.Worker.{
  Config, Environment, Worker, to_envelope, process_once, loop,
}
use adaptive_financial_os.Relay.Worker.Keeps.{process_once-keeps}
use adaptive_financial_os.System.{initial, deliver, mark, give_up, Reach, next}
use adaptive_financial_os.System.Sums.{grand_total}
use adaptive_financial_os.System.Sound.{IsSound, Reach-IsSound}

module _ (numeric_in : Text → Option ℕ) (new_id : Database → ℕ) (config : Config)
    (env : Environment) (accounts : List AccountRow) where
  -- What is reached, with some lines.
  Reaches : List LineRow → Database → Type 0
  Reaches ls db = Reach numeric_in new_id (initial accounts) db × (db.lines ≡ ls)

  process_once-Reaches :
      (ls : List LineRow) (w : Worker)
      → Reaches ls w.session.committed
      → Reaches ls (process_once config env w).1.session.committed
  unfolding Reaches
  process_once-Reaches ls w r =
      process_once-keeps config env (Unit {0}) (λ _ _ _. tt) (Reaches ls)
        (λ _ row s k. (
          next k.0 (deliver env.faults (to_envelope row) s refl refl),
          project-lines env.faults (to_envelope row) s ∙ k.1,
        ))
        (λ id db k. (next k.0 (give_up id refl), k.1))
        (λ _ ids db k. (next k.0 (mark ids refl), k.1)) w r

  loop-Reaches :
      (ls : List LineRow) (polls : ℕ) (w : Worker)
      → Reaches ls w.session.committed
      → Reaches ls (loop config env polls w).session.committed
  unfolding loop
  loop-Reaches ls zero w r = r
  loop-Reaches ls (suc polls) w r =
      loop-Reaches ls polls (process_once config env w).1 (process_once-Reaches ls w r)

  -- A worker that starts on a database that requests and deliveries have led to, with amounts below
  -- 10^11, leaves the lines as they are over any number of polls, whatever its publisher, the clock
  -- and the database do: the lines of every entry are balanced, the balances are the exact sums of
  -- the projected entries, each of these is projected once, and the debits of all balances add up to
  -- their credits.
  pub loop-IsSound :
      (polls : ℕ) (w : Worker)
      → Reach numeric_in new_id (initial accounts) w.session.committed
      → AreSmall w.session.committed.lines
      → let db = (loop config env polls w).session.committed in
        (db.lines ≡ w.session.committed.lines)
        × IsSound exact db
        × (grand_total debit db.balances ≡ grand_total credit db.balances)
  unfolding Reaches
  loop-IsSound polls w r small =
      let (there, same) = loop-Reaches w.session.committed.lines polls w (r, refl) in
      let (sound, equal) =
        Reach-IsSound numeric_in new_id accounts there (subst AreSmall (sym same) small) in
      (same, sound, equal)
