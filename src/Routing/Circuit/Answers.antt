-- ===== src/Routing/Circuit/Answers.antt =====
-- What the breaker of internal/routing/circuit.go answers, and what its calls leave alone.
use ai_proxy_centranity.Base.{
  ℕ, ◌≤◌, ◌≡◌, ◌≢◌, ◌↔◌, true, arith, Option-cases, inl, inr, if◌then◌else◌,
}
use ai_proxy_centranity.Base.Text.{Text, ◌==◌, eq_iff}
use ai_proxy_centranity.Base.Assoc.{lookup, lookup-insert}
use ai_proxy_centranity.Routing.Circuit.{
  pos, CircuitBreaker, closed, open_circuit, allow, allow_state, record_success, record_failure,
  fail_state, get_state, or_fresh,
}

-- A target may be called exactly when its circuit does not show as OPEN at that time.
pub allow-get_state :
    (cb : CircuitBreaker) (target : Text) (now : ℕ)
    → ((allow cb target now).1 ≡ true) ↔ (get_state cb target now ≢ open_circuit)
unfolding allow get_state
allow-get_state cb target now = elim (Option-cases (lookup target cb.targets)) [
  | inl e ↦ rw (e, allow, get_state) (ground arith)
  | inr (ts, e) ↦ rw (e, allow, get_state) (ground arith)
]

-- Asking about one target at one time changes no answer that a later question would get, about
-- whatever target.
pub allow-allow :
    (cb : CircuitBreaker) (target other : Text) (now later : ℕ)
    → now ≤ later
    → (allow (allow cb target now).0 other later).1 ≡ (allow cb other later).1
unfolding allow
allow-allow cb target other now later h = elim (Option-cases (lookup target cb.targets)) [
  | inl e ↦ rw (e, allow)
  | inr (ts, e) ↦
      rw (e, allow)
        (ground (
          arith,
          e,
          eq_iff target other,
          lookup-insert target other (allow_state cb.cfg ts.state ts now).0 cb.targets,
        ))
]

-- A success shows as CLOSED at every time, and leaves every other target as it was.
pub get_state-record_success :
    (cb : CircuitBreaker) (target other : Text) (now : ℕ)
    → get_state (record_success cb target) other now
      ≡ (if target == other then closed else get_state cb other now)
unfolding get_state record_success
get_state-record_success cb target other now = elim (Option-cases (lookup target cb.targets)) [
  | inl e ↦ rw (e, record_success) (ground (arith, e, eq_iff target other))
  | inr (ts, e) ↦
      rw (e, record_success)
        (ground (
          arith,
          e,
          eq_iff target other,
          lookup-insert target other (record ts { failures = pos 0; state = closed }) cb.targets,
        ))
]

-- A failure of one target leaves every other target as it was.
pub get_state-record_failure_ne :
    (cb : CircuitBreaker) (target other : Text) (now later : ℕ)
    → target ≢ other
    → get_state (record_failure cb target now) other later ≡ get_state cb other later
unfolding get_state record_failure
get_state-record_failure_ne cb target other now later h = ground (
  arith,
  eq_iff target other,
  lookup-insert target other (fail_state cb.cfg (or_fresh (lookup target cb.targets)) now)
      cb.targets,
)
