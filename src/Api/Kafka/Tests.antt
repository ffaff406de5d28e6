-- ===== src/Api/Kafka/Tests.antt =====
-- A concrete run of apps/api/src/kafka/publisher.ts: the third attempt succeeds.
use adaptive_financial_os.Common.{
  ℕ, ℤ, pos, negsuc, ◌+ℤ◌, ◌≡◌, refl, text, some, [], ◌∷◌, leb, if◌then◌else◌,
}
use adaptive_financial_os.Api.Kafka.{
  KafkaConfig, Tried, sent, raised, success, publish, publish_loop,
}

abbrev config : KafkaConfig
config = record {
  max_attempts = 5;
  backoff_base_ms = 1000;
  backoff_max_ms = 3000;
  jitter_percent = 20;
}

abbrev tries : ℕ → Tried
tries n = if leb 2 n then sent 77 else raised (text "no broker")

-- A tenth of a second, in turns added and taken away.
abbrev jitter : ℕ → ℤ
jitter n = if leb n 1 then pos 100 else negsuc 99

third :
    publish config tries jitter
    ≡ some (record { answer = success 77; attempts = 3; waits = pos 2100 ∷ pos 2900 ∷ [] })
unfolding publish publish_loop ◌+ℤ◌
third = refl
