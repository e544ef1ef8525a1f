-- ===== src/Routing/Circuit/Tripping.antt =====
-- How many failures trip a circuit of internal/routing/circuit.go, and for how long.
use native.Mathlib.Nat.{add-zero}
use ai_proxy_centranity.Base.{
  inr, inl, Option-cases, ℕ, suc, ◌+◌, ◌<◌, ◌≡◌, refl, List, [], ◌∷◌, length, arith, if◌then◌else◌,
}
use ai_proxy_centranity.Base.Int.{pos, ◌+ℤ◌, ◌<ℤ◌, leb_ℤ, sub_ℕ, wrap64, wrap64_id}
use ai_proxy_centranity.Base.Text.{Text}
use ai_proxy_centranity.Base.Assoc.{lookup, lookup-insert_self}
use ai_proxy_centranity.Routing.Circuit.{
  CircuitBreaker, Config, TargetState, closed, open_circuit, half_open, record_failure, fail_state,
  get_state, or_fresh, shown,
}

-- Failures of one target, one after another.
unfoldable pub fail_times : CircuitBreaker → Text → List ℕ → CircuitBreaker
fail_times cb target [] = cb
fail_times cb target (t ∷ ts) = fail_times (record_failure cb target t) target ts

-- The state of a target after `n` failures in a row, the last at `last`.
abbrev pub after : Config → ℕ → ℕ → TargetState
after cfg n last = record {
  failures = pos n;
  last_failure_time = last;
  state = if leb_ℤ cfg.failure_threshold (pos n) then open_circuit else closed;
}

pos-suc : (n : ℕ) → pos n +ℤ pos 1 ≡ pos (suc n)
unfolding ◌+ℤ◌
pos-suc n = ground arith

pub inc_exact : (n : ℕ) → suc n < 9223372036854775808 → wrap64 (pos n +ℤ pos 1) ≡ pos (suc n)
inc_exact n h = rw (pos-suc n) (wrap64_id (pos (suc n)) (omega arith))

fail-after :
    (cfg : Config) (n last now : ℕ)
    → suc n < 9223372036854775808
    → fail_state cfg (after cfg n last) now ≡ after cfg (suc n) now
unfolding fail_state
fail-after cfg n last now h = ground (arith, inc_exact n)

-- A breaker with these settings, of which the target has failed `n` times in a row.
pub record HasFailed (cfg : Config) (target : Text) (n last : ℕ) (cb : CircuitBreaker)
    : Type 0 where
  pub settings : cb.cfg ≡ cfg
  pub found : or_fresh (lookup target cb.targets) ≡ after cfg n last

record_failure-HasFailed :
    (cfg : Config) (target : Text) (n last now : ℕ) (cb : CircuitBreaker)
    → suc n < 9223372036854775808
    → HasFailed cfg target n last cb
    → HasFailed cfg target (suc n) now (record_failure cb target now)
unfolding record_failure
record_failure-HasFailed cfg target n last now cb h f = record {
  settings = f.settings;
  found = rw (lookup-insert_self, f.settings, f.found) (fail-after cfg n last now h);
}

fail_times-HasFailed :
    (cfg : Config) (target : Text) (n last : ℕ) (ts : List ℕ) (cb : CircuitBreaker)
    → n + length ts < 9223372036854775808
    → HasFailed cfg target n last cb
    → (final : ℕ) × HasFailed cfg target (n + length ts) final (fail_times cb target ts)
unfolding fail_times
fail_times-HasFailed cfg target n last [] cb h f = (last, rw (add-zero n) f)
fail_times-HasFailed cfg target n last (t ∷ ts) cb h f =
    let (final, g) =
      fail_times-HasFailed cfg target (suc n) t ts (record_failure cb target t) (omega arith)
        (record_failure-HasFailed cfg target n last t cb (omega arith) f) in
    let same : suc n + length ts ≡ n + suc (length ts) = omega arith in (final, rw same at g)

get_state-or_fresh :
    (cb : CircuitBreaker) (target : Text) (now : ℕ)
    → get_state cb target now
      ≡ shown cb.cfg
          (or_fresh (lookup target cb.targets)).state
          (or_fresh (lookup target cb.targets))
          now
unfolding get_state
get_state-or_fresh cb target now = elim (Option-cases (lookup target cb.targets)) [
  | inl e ↦ rw (e, get_state)
  | inr (ts, e) ↦ rw (e, get_state)
]

get_state-HasFailed :
    (cfg : Config) (target : Text) (n last now : ℕ) (cb : CircuitBreaker)
    → HasFailed cfg target n last cb
    → get_state cb target now ≡ (
        if leb_ℤ cfg.failure_threshold (pos n)
        then (if leb_ℤ cfg.cooldown_duration (sub_ℕ now last) then half_open else open_circuit)
        else closed)
get_state-HasFailed cfg target n last now cb f =
    rw (get_state-or_fresh, f.settings, f.found) (ground arith)

-- From a target with no failures on record and a CLOSED circuit, any number of failures (below
-- 2^63) in a row, of which the last is at `t`, leaves the circuit CLOSED while they are fewer than
-- the threshold; from then on it shows as OPEN until the cooldown has passed since `t`, and as
-- HALF_OPEN after that.
pub trips_exactly :
    (cb : CircuitBreaker) (target : Text) (last t now : ℕ) (ts : List ℕ)
    → pos 0 <ℤ cb.cfg.failure_threshold
    → or_fresh (lookup target cb.targets)
      ≡ record { failures = pos 0; last_failure_time = last; state = closed }
    → length ts + 1 < 9223372036854775808
    → get_state (record_failure (fail_times cb target ts) target t) target now ≡ (
        if leb_ℤ cb.cfg.failure_threshold (pos (length ts + 1))
        then (if leb_ℤ cb.cfg.cooldown_duration (sub_ℕ now t) then half_open else open_circuit)
        else closed)
trips_exactly cb target last t now ts pt e h =
    let start : HasFailed cb.cfg target 0 last cb = record {
      settings = refl;
      found = ground (arith, e);
    } in
    let (final, f) = fail_times-HasFailed cb.cfg target 0 last ts cb (omega arith) start in
    let same : suc (0 + length ts) ≡ length ts + 1 = omega arith in
    rw same at (
      get_state-HasFailed cb.cfg target (suc (0 + length ts)) t now _
        (record_failure-HasFailed cb.cfg target (0 + length ts) final t _ (omega arith) f))
