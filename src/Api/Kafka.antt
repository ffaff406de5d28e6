-- ===== src/Api/Kafka.antt =====
-- apps/api/src/kafka/publisher.ts: `KafkaPublisher.publish`. What the body of the `try` comes to is
-- the environment's, by the number of the attempt: an offset, or an error that is caught. So is the
-- jitter after a number of failures, which the code draws by `Math.random`, in whole milliseconds, as
-- `setTimeout` takes them.
pub mod Attempts
pub mod Tests
use Prim.Native.Nat.{min}
use adaptive_financial_os.Common.{
  ℕ, zero, suc, ◌+◌, ◌*◌, ◌^◌, Text, text, Option, none, some, List, [], ◌∷◌, ◌++◌, Bool, true,
  false, ltb, leb, ℤ, pos, ◌+ℤ◌,
}

-- The fields of `KafkaConfig` that the loop reads; `jitterRatio` in hundredths.
pub record KafkaConfig : Type 0 where
  pub max_attempts : ℕ
  pub backoff_base_ms : ℕ
  pub backoff_max_ms : ℕ
  pub jitter_percent : ℕ

-- What the body of the `try` does.
pub data Tried : Type 0 where
  sent : ℕ → Tried
  raised : Text → Tried

-- `{ success: true, offset }` or `{ success: false, error }`
pub data Published : Type 0 where
  success : ℕ → Published
  failure : Text → Published

-- What a call comes to: its answer, the attempts made and the delays waited for.
pub record Run : Type 0 where
  pub answer : Published
  pub attempts : ℕ
  pub waits : List ℤ

module _ (config : KafkaConfig) (tries : ℕ → Tried) (jitter : ℕ → ℤ) where
  abbrev pub backoff : ℕ → ℕ
  backoff attempt = min (config.backoff_base_ms * 2 ^ attempt) config.backoff_max_ms

  -- `delay`
  abbrev pub delay : ℕ → ℤ
  delay attempt = pos (backoff attempt) +ℤ jitter attempt

  -- The `catch`, which goes on with the next attempt, if there is one left.
  abbrev pub caught : (List ℤ → Option Run) → Bool → Text → ℕ → List ℤ → Option Run
  caught rest true error attempt waits =
      some (record { answer = failure error; attempts = attempt; waits = waits })
  caught rest false error attempt waits = rest (waits ++ delay attempt ∷ [])

  abbrev pub tried : (List ℤ → Option Run) → Tried → ℕ → List ℤ → Option Run
  tried rest (sent offset) attempt waits =
      some (record { answer = success offset; attempts = suc attempt; waits = waits })
  tried rest (raised error) attempt waits =
      caught rest (leb config.max_attempts (suc attempt)) error (suc attempt) waits

  abbrev pub looped : (List ℤ → Option Run) → Bool → ℕ → List ℤ → Option Run
  looped rest true attempt waits = tried rest (tries attempt) attempt waits
  looped rest false attempt waits =
      some (record {
        answer = failure (text "max attempts reached");
        attempts = attempt;
        waits = waits;
      })

  -- The loop, on fuel.
  unfoldable pub publish_loop : ℕ → ℕ → List ℤ → Option Run
  publish_loop zero attempt waits = none
  publish_loop (suc fuel) attempt waits =
      looped (publish_loop fuel (suc attempt)) (ltb attempt config.max_attempts) attempt waits

  unfoldable pub publish : Option Run
  publish = publish_loop (suc config.max_attempts) 0 []
