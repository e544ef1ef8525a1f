-- ===== src/Routing/Circuit.antt =====
-- internal/routing/circuit.go: one circuit for each target. A call takes the time that it reads
-- (nanoseconds) and runs under the breaker's lock. The failure counter is an int and wraps around.
pub mod Answers
pub mod Tripping
pub mod Reachable
use ai_proxy_centranity.Base.{[], ℕ, Bool, true, false, Option, none, some, if◌then◌else◌}
use ai_proxy_centranity.Base.Int.{ℤ, pos, ◌+ℤ◌, leb_ℤ, sub_ℕ, wrap64}
use ai_proxy_centranity.Base.Text.{Text, text}
use ai_proxy_centranity.Base.Assoc.{Assoc, lookup, insert}

pub data CircuitState : Type 0 where
  closed open_circuit half_open : CircuitState

unfoldable pub string : CircuitState → Text
string closed = text "CLOSED"
string open_circuit = text "OPEN"
string half_open = text "HALF_OPEN"

pub record Config : Type 0 where
  pub failure_threshold : ℤ
  pub cooldown_duration : ℤ

pub record TargetState : Type 0 where
  pub failures : ℤ
  pub last_failure_time : ℕ
  pub state : CircuitState

pub record CircuitBreaker : Type 0 where
  pub cfg : Config
  pub targets : Assoc TargetState

-- `NewCircuitBreaker`, which replaces settings that are not positive.
unfoldable pub new : Config → CircuitBreaker
new cfg = record {
  cfg = record {
    failure_threshold =
        if leb_ℤ cfg.failure_threshold (pos 0) then pos 5 else cfg.failure_threshold;
    cooldown_duration =
        if leb_ℤ cfg.cooldown_duration (pos 0) then pos 30000000000 else cfg.cooldown_duration;
  };
  targets = [];
}

-- `now.Sub(ts.lastFailureTime) >= cb.cfg.CooldownDuration`
abbrev pub cooled : Config → TargetState → ℕ → Bool
cooled cfg ts now = leb_ℤ cfg.cooldown_duration (sub_ℕ now ts.last_failure_time)

-- `Allow` on a target that the map has: its new state, and the answer.
unfoldable pub allow_state : Config → CircuitState → TargetState → ℕ → TargetState × Bool
allow_state cfg closed ts now = (ts, true)
allow_state cfg half_open ts now = (ts, true)
allow_state cfg open_circuit ts now =
    if cooled cfg ts now then (record ts { state = half_open }, true) else (ts, false)

abbrev allow_found : CircuitBreaker → Text → Option TargetState → ℕ → CircuitBreaker × Bool
allow_found cb target none now = (cb, true)
allow_found cb target (some ts) now =
    let (ts', allowed) = allow_state cb.cfg ts.state ts now in
    (record cb { targets = insert target ts' cb.targets }, allowed)

unfoldable pub allow : CircuitBreaker → Text → ℕ → CircuitBreaker × Bool
unfolding allow_state
allow cb target now = allow_found cb target (lookup target cb.targets) now

abbrev close_found : CircuitBreaker → Text → Option TargetState → CircuitBreaker
close_found cb target none = cb
close_found cb target (some ts) = record cb {
  targets = insert target (record ts { failures = pos 0; state = closed }) cb.targets;
}

unfoldable pub record_success : CircuitBreaker → Text → CircuitBreaker
record_success cb target = close_found cb target (lookup target cb.targets)

abbrev pub or_fresh : Option TargetState → TargetState
or_fresh none = record { failures = pos 0; last_failure_time = 0; state = closed }
or_fresh (some ts) = ts

unfoldable pub fail_state : Config → TargetState → ℕ → TargetState
fail_state cfg ts now =
    let failures = wrap64 (ts.failures +ℤ pos 1) in
    record {
      failures = failures;
      last_failure_time = now;
      state = if leb_ℤ cfg.failure_threshold failures then open_circuit else ts.state;
    }

unfoldable pub record_failure : CircuitBreaker → Text → ℕ → CircuitBreaker
record_failure cb target now = record cb {
  targets = insert target (fail_state cb.cfg (or_fresh (lookup target cb.targets)) now) cb.targets;
}

-- `ts.state`, or HALF_OPEN for an open circuit that has cooled.
abbrev pub shown : Config → CircuitState → TargetState → ℕ → CircuitState
shown cfg open_circuit ts now = if cooled cfg ts now then half_open else open_circuit
shown cfg closed ts now = closed
shown cfg half_open ts now = half_open

abbrev shown_found : Config → Option TargetState → ℕ → CircuitState
shown_found cfg none now = closed
shown_found cfg (some ts) now = shown cfg ts.state ts now

unfoldable pub get_state : CircuitBreaker → Text → ℕ → CircuitState
get_state cb target now = shown_found cb.cfg (lookup target cb.targets) now
