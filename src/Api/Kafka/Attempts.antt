-- ===== src/Api/Kafka/Attempts.antt =====
-- How many attempts `KafkaPublisher.publish` makes, and what they come to
-- (apps/api/src/kafka/publisher.ts).
use Prim.Native.Nat.{min, ◌^◌}
use adaptive_financial_os.Common.{
  ℕ, zero, suc, ◌+◌, ◌-◌, ◌*◌, ◌≤◌, ◌≡◌, ℤ, pos, ◌+ℤ◌, pos_part, Text, text, Option, some, List, [],
  ◌∷◌, ◌++◌, All, ◌⊎◌,
}
use adaptive_financial_os.Api.Kafka.{
  KafkaConfig, Tried, sent, raised, Published, success, failure, Run,
}

module _ (config : KafkaConfig) (tries : ℕ → Tried) (jitter : ℕ → ℤ) where
  -- The delays after the first n failures.
  abbrev pub delays : ℕ → List ℤ
  delays zero = []
  delays (suc n) =
      delays n
      ++ (pos (min (config.backoff_base_ms * 2 ^ suc n) config.backoff_max_ms) +ℤ jitter (suc n))
        ∷ []

  -- A wait within the greatest backoff and its jitter.
  abbrev pub IsBounded : ℤ → Type 0
  IsBounded w = 100 * pos_part w ≤ (100 + config.jitter_percent) * config.backoff_max_ms

  -- The attempts before the n-th have failed.
  abbrev pub FailedBelow : ℕ → Type 0
  FailedBelow zero = Unit
  FailedBelow (suc n) = FailedBelow n × ((error : Text) × (tries n ≡ raised error))

  -- What an answer says of the attempts.
  abbrev pub Ended : Published → ℕ → Type 0
  Ended (success offset) attempts =
      (k : ℕ) × (attempts ≡ suc k)
      × (attempts ≤ config.max_attempts)
      × FailedBelow k
      × (tries k ≡ sent offset)
  Ended (failure error) attempts =
      (attempts ≡ config.max_attempts)
      × FailedBelow attempts
      × (((attempts ≡ 0) × (error ≡ text "max attempts reached"))
          ⊎ ((k : ℕ) × (attempts ≡ suc k) × (tries k ≡ raised error)))

  pub record IsRun (run : Run) : Type 0 where
    pub ended : Ended run.answer run.attempts
    pub waited : run.waits ≡ delays (run.attempts - 1)
    pub bounded : All IsBounded run.waits

  Ends : Option Run → Type 0
  Ends o = (run : Run) × (o ≡ some run) × IsRun run
