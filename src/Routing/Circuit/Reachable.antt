-- ===== src/Routing/Circuit/Reachable.antt =====
-- The states of internal/routing/circuit.go that a breaker can reach: any calls, on any targets, in
-- any order.
use mathlib.Core.Option.{some-injective}
use native.Mathlib.Nat.{add-zero}
use ai_proxy_centranity.Base.{
  subst, Bool-cases, ℕ, suc, ◌+◌, ◌<◌, ◌≤◌, ◌≡◌, ◌↔◌, refl, List, [], ◌∷◌, length, none, some,
  false, arith, Option-cases, inl, inr,
}
use ai_proxy_centranity.Base.Int.{pos, ◌<ℤ◌, leb_ℤ}
use ai_proxy_centranity.Base.Text.{Text, ◌==◌}
use ai_proxy_centranity.Base.Assoc.{lookup, insert, lookup-insert}
use ai_proxy_centranity.Routing.Circuit.{
  CircuitBreaker, Config, TargetState, closed, new, allow, allow_state, record_success,
  record_failure, fail_state, or_fresh,
}
use ai_proxy_centranity.Routing.Circuit.Tripping.{inc_exact}

pub data Event : Type 0 where
  ask : Text → ℕ → Event
  succeed : Text → Event
  fail : Text → ℕ → Event

unfoldable pub step : CircuitBreaker → Event → CircuitBreaker
step cb (ask target now) = (allow cb target now).0
step cb (succeed target) = record_success cb target
step cb (fail target now) = record_failure cb target now

unfoldable pub run : CircuitBreaker → List Event → CircuitBreaker
run cb [] = cb
run cb (e ∷ es) = run (step cb e) es

-- A counter of at most `k`, and a circuit that is CLOSED exactly below the threshold.
pub record IsSound (k : ℕ) (cfg : Config) (ts : TargetState) : Type 0 where
  pub count : ℕ
  pub counted : ts.failures ≡ pos count
  pub bounded : count ≤ k
  pub closed_iff : (ts.state ≡ closed) ↔ (leb_ℤ cfg.failure_threshold ts.failures ≡ false)

-- The settings are those of `cfg`, and every target that the map has is sound.
pub record Reached (k : ℕ) (cfg : Config) (cb : CircuitBreaker) : Type 0 where
  pub settings : cb.cfg ≡ cfg
  pub sound :
      (target : Text) (ts : TargetState) → lookup target cb.targets ≡ some ts → IsSound k cfg ts

module _ (k : ℕ) (cfg : Config) (ts : TargetState) where
  later-IsSound : IsSound k cfg ts → IsSound (suc k) cfg ts
  later-IsSound s = record {
    count = s.count;
    counted = s.counted;
    bounded = omega arith;
    closed_iff = s.closed_iff;
  }

  allow_state-IsSound :
      (now : ℕ) → IsSound k cfg ts → IsSound (suc k) cfg (allow_state cfg ts.state ts now).0
  unfolding allow_state
  allow_state-IsSound now s = record {
    count = s.count;
    counted = ground (arith, s.counted);
    bounded = omega arith;
    closed_iff = ground (arith, s.closed_iff);
  }

  success-IsSound :
      pos 0 <ℤ cfg.failure_threshold
      → IsSound (suc k) cfg (record ts { failures = pos 0; state = closed })
  success-IsSound p = record {
    count = 0;
    counted = refl;
    bounded = omega arith;
    closed_iff = ground arith;
  }

  fail_state-IsSound :
      (now : ℕ)
      → suc k < 9223372036854775808
      → IsSound k cfg ts
      → IsSound (suc k) cfg (fail_state cfg ts now)
  unfolding fail_state
  fail_state-IsSound now h s = record {
    count = suc s.count;
    counted = rw (s.counted, inc_exact s.count (omega arith));
    bounded = omega arith;
    closed_iff =
        rw (s.counted, inc_exact s.count (omega arith))
          (let old : leb_ℤ cfg.failure_threshold (pos s.count) ≡ false → ts.state ≡ closed =
              λ e. s.closed_iff.1 (rw s.counted e) in
            ground (arith, old));
  }

fresh-IsSound :
    (k : ℕ) (cfg : Config) → pos 0 <ℤ cfg.failure_threshold → IsSound k cfg (or_fresh none)
fresh-IsSound k cfg p = record {
  count = 0;
  counted = refl;
  bounded = omega arith;
  closed_iff = ground arith;
}

-- What a map with one sound entry more holds.
insert-IsSound :
    (k : ℕ) (cfg : Config) (cb : CircuitBreaker) (target : Text) (new_state : TargetState)
    → Reached k cfg cb
    → IsSound (suc k) cfg new_state
    → (other : Text) (ts : TargetState)
    → lookup other (insert target new_state cb.targets) ≡ some ts
    → IsSound (suc k) cfg ts
insert-IsSound k cfg cb target new_state r s other ts e = elim (Bool-cases (target == other)) [
  | inl same ↦ subst (IsSound (suc k) cfg) (some-injective _ _ (rw (lookup-insert, same) at e)) s
  | inr other_one ↦ later-IsSound k cfg ts (r.sound other ts (rw (lookup-insert, other_one) at e))
]

later-Reached :
    (k : ℕ) (cfg : Config) (cb : CircuitBreaker) → Reached k cfg cb → Reached (suc k) cfg cb
later-Reached k cfg cb r = record {
  settings = r.settings;
  sound = λ target ts e. later-IsSound k cfg ts (r.sound target ts e);
}

insert-Reached :
    (k : ℕ) (cfg : Config) (cb : CircuitBreaker) (target : Text) (ts : TargetState)
    → Reached k cfg cb
    → IsSound (suc k) cfg ts
    → Reached (suc k) cfg (record cb { targets = insert target ts cb.targets })
insert-Reached k cfg cb target ts r s = record {
  settings = r.settings;
  sound = insert-IsSound k cfg cb target ts r s;
}

module _ (k : ℕ) (cfg : Config) (cb : CircuitBreaker) (target : Text) (r : Reached k cfg cb) where
  allow-Reached : (now : ℕ) → Reached (suc k) cfg (allow cb target now).0
  unfolding allow
  allow-Reached now = elim (Option-cases (lookup target cb.targets)) [
    | inl e ↦ rw (e, allow) (later-Reached k cfg cb r)
    | inr (ts, e) ↦
        rw (e, allow)
          (insert-Reached k cfg cb target _ r
            (rw r.settings (allow_state-IsSound k cfg ts now (r.sound target ts e))))
  ]

  success-Reached : pos 0 <ℤ cfg.failure_threshold → Reached (suc k) cfg (record_success cb target)
  unfolding record_success
  success-Reached p = elim (Option-cases (lookup target cb.targets)) [
    | inl e ↦ rw (e, record_success) (later-Reached k cfg cb r)
    | inr (ts, e) ↦
        rw (e, record_success) (insert-Reached k cfg cb target _ r (success-IsSound k cfg ts p))
  ]

  fresh_or_found :
      pos 0 <ℤ cfg.failure_threshold → IsSound k cfg (or_fresh (lookup target cb.targets))
  fresh_or_found p = elim (Option-cases (lookup target cb.targets)) [
    | inl e ↦ rw e (fresh-IsSound k cfg p)
    | inr (ts, e) ↦ rw e (r.sound target ts e)
  ]

  failure-Reached :
      (now : ℕ)
      → pos 0 <ℤ cfg.failure_threshold
      → suc k < 9223372036854775808
      → Reached (suc k) cfg (record_failure cb target now)
  unfolding record_failure
  failure-Reached now p h =
      insert-Reached k cfg cb target _ r
        (rw r.settings (fail_state-IsSound k cfg _ now h (fresh_or_found p)))

step-Reached :
    (k : ℕ) (cfg : Config) (cb : CircuitBreaker) (e : Event)
    → pos 0 <ℤ cfg.failure_threshold
    → suc k < 9223372036854775808
    → Reached k cfg cb
    → Reached (suc k) cfg (step cb e)
unfolding step
step-Reached k cfg cb (ask target now) p h r = allow-Reached k cfg cb target r now
step-Reached k cfg cb (succeed target) p h r = success-Reached k cfg cb target r p
step-Reached k cfg cb (fail target now) p h r = failure-Reached k cfg cb target r now p h

run-Reached :
    (k : ℕ) (cfg : Config) (cb : CircuitBreaker) (es : List Event)
    → pos 0 <ℤ cfg.failure_threshold
    → k + length es < 9223372036854775808
    → Reached k cfg cb
    → Reached (k + length es) cfg (run cb es)
unfolding run
run-Reached k cfg cb [] p h r = rw (add-zero k) r
run-Reached k cfg cb (e ∷ es) p h r =
    let next =
      run-Reached (suc k) cfg (step cb e) es p (omega arith)
        (step-Reached k cfg cb e p (omega arith) r) in
    let same : suc k + length es ≡ k + suc (length es) = omega arith in rw same at next

-- Whatever settings a breaker is made with and whatever fewer than 2^63 calls it has had, the
-- settings in force are positive, and every target that it knows has counted at most as many
-- failures as there were calls and is CLOSED exactly while its count is below the threshold.
pub run-new-Reached :
    (cfg : Config) (es : List Event)
    → length es < 9223372036854775808
    → (pos 0 <ℤ (new cfg).cfg.failure_threshold)
      × (pos 0 <ℤ (new cfg).cfg.cooldown_duration)
      × Reached (length es) (new cfg).cfg (run (new cfg) es)
unfolding new lookup
run-new-Reached cfg es h =
    let p : pos 0 <ℤ (new cfg).cfg.failure_threshold = ground arith in
    let start : Reached 0 (new cfg).cfg (new cfg) = record {
      settings = refl;
      sound = λ target ts e. ground arith;
    } in
    let same : 0 + length es ≡ length es = omega arith in
    (p, ground arith, rw same at (run-Reached 0 (new cfg).cfg (new cfg) es p (omega arith) start))
