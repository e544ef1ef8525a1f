-- ===== src/Routing/Examples.antt =====
-- Concrete runs of the theorems on internal/routing.
use ai_proxy_centranity.Base.{ℕ, ◌≡◌, ◌+◌, refl, [], ◌∷◌, length, computing, arith, if◌then◌else◌}
use ai_proxy_centranity.Base.Int.{pos, leb_ℤ, sub_ℕ, ◌<ℤ◌}
use ai_proxy_centranity.Base.Text.{text, to_lower}
use ai_proxy_centranity.Routing.Circuit
use ai_proxy_centranity.Routing.Circuit.{
  CircuitBreaker, Config, closed, open_circuit, half_open, allow, get_state, record_success,
  record_failure,
}
use ai_proxy_centranity.Routing.Circuit.Tripping.{fail_times, trips_exactly}
use ai_proxy_centranity.Routing.Circuit.Reachable.{
  ask, succeed, fail, run, Reached, run-new-Reached,
}
use ai_proxy_centranity.Routing.Engine.{Engine, resolve}
use ai_proxy_centranity.Routing.Engine.Choice.{healthy, pick, answer, resolve_alias-picks}

abbrev settings : Config
settings = record { failure_threshold = pos 3; cooldown_duration = pos 30 }

-- One target is OPEN since 100, another has failed once.
abbrev breaker : CircuitBreaker
breaker = record {
  cfg = settings;
  targets =
      (text "cc-opus", record { failures = pos 3; last_failure_time = 100; state = open_circuit })
      ∷ (text "cc-haiku", record { failures = pos 1; last_failure_time = 90; state = closed })
      ∷ [];
}

abbrev engine : Engine
engine = record {
  circuit_breaker = breaker;
  aliases = (text "reasoning", text "cc-opus" ∷ text "cc-sonnet" ∷ text "cc-haiku" ∷ []) ∷ [];
}

trips_exactly_example :
    get_state
      (record_failure
        (fail_times (record { cfg = settings; targets = [] }) (text "m") (1 ∷ 2 ∷ []))
        (text "m")
        3)
      (text "m")
      20
    ≡ (if leb_ℤ (pos 3) (pos (length {A = ℕ} (1 ∷ 2 ∷ []) + 1))
        then (if leb_ℤ (pos 30) (sub_ℕ 20 3) then half_open else open_circuit)
        else closed)
unfolding computing
trips_exactly_example =
    trips_exactly (record { cfg = settings; targets = [] }) (text "m") 0 3 20 (1 ∷ 2 ∷ [])
      (omega arith) refl (omega arith)

run-new-Reached_example :
    (pos 0 <ℤ (Circuit.new settings).cfg.failure_threshold)
    × (pos 0 <ℤ (Circuit.new settings).cfg.cooldown_duration)
    × Reached 3 (Circuit.new settings).cfg (
        run (Circuit.new settings) (fail (text "m") 1 ∷ ask (text "m") 2 ∷ succeed (text "m") ∷ []))
run-new-Reached_example =
    run-new-Reached settings (fail (text "m") 1 ∷ ask (text "m") 2 ∷ succeed (text "m") ∷ [])
      (omega arith)

resolve_alias-picks_example :
    (resolve engine (λ i. 110 + i) (text "Reasoning")).1
    ≡ answer (text "Reasoning") (to_lower (text "Reasoning")) (
        pick (
          healthy breaker
            (λ i. 110 + i)
            0
            (text "cc-opus" ∷ text "cc-sonnet" ∷ text "cc-haiku" ∷ [])))
unfolding computing
resolve_alias-picks_example =
    resolve_alias-picks engine (λ i. 110 + i) (text "Reasoning")
      (text "cc-opus" ∷ text "cc-sonnet" ∷ text "cc-haiku" ∷ []) (λ j. omega arith) refl
