-- ===== src/Limiter/Examples.antt =====
-- Concrete runs of the theorems on internal/limiter/limiter.go.
use ai_proxy_centranity.Base.{
  none, ◌≡◌, ◌≤◌, ◌<◌, ◌+◌, ◌-◌, ℕ, refl, true, some, List, [], ◌∷◌, computing, arith,
}
use ai_proxy_centranity.Base.Int.{pos}
use ai_proxy_centranity.Base.Text.{Text, text}
use ai_proxy_centranity.Limiter.{oldest_of, Limiter, allow, minute, refuse, purge}
use ai_proxy_centranity.Limiter.Sliding.{
  Call, run, spec_run, verdict, run-eq-spec_run, Refines-empty,
}
use ai_proxy_centranity.Limiter.Windows.{admitted, between, window_bound}
use ai_proxy_centranity.Limiter.Retry.{retry_admits, found}
use ai_proxy_centranity.Base.Memory.{can_make}

abbrev call : Text → ℕ → Call
call key now = record { key = key; limit = pos 2; now = now }

-- A limit that no slice has room for.
abbrev huge_call : Text → ℕ → Call
huge_call key now = record { key = key; limit = pos 20000000000000; now = now }

-- The third call is refused, the last finds the first gone.
abbrev calls : List Call
calls =
    call (text "a") 0
    ∷ call (text "a") 1
    ∷ call (text "a") 2
    ∷ call (text "b") 3
    ∷ call (text "a") 60000000000
    ∷ []

abbrev busy : Limiter
busy = (text "a", 7 ∷ 9 ∷ []) ∷ []

-- A new key with such a limit panics; one with an entry does not.
abbrev mixed : List Call
mixed = huge_call (text "c") 0 ∷ call (text "a") 1 ∷ huge_call (text "a") 2 ∷ []

mixed_answers : run [] mixed ≡ none ∷ some true ∷ some true ∷ []
unfolding computing run allow purge oldest_of can_make
mixed_answers = refl

run-eq-spec_run_example : run [] mixed ≡ spec_run (λ k. none) mixed
run-eq-spec_run_example =
    run-eq-spec_run 0 [] (λ k. none) mixed Refines-empty
      (omega arith, (omega arith, (omega arith, tt)))

window_bound_example : between 30000000000 (admitted (text "a") [] calls) ≤ 2
window_bound_example =
    window_bound (text "a") 2 calls 30000000000
      (omega arith, (omega arith, (omega arith, (omega arith, (omega arith, tt)))))
      (
        (λ e. (refl, refl)),
        (
          (λ e. (refl, refl)),
          ((λ e. (refl, refl)), ((λ e. (refl, refl)), ((λ e. (refl, refl)), tt))),
        ),
      )

retry_admits_example :
    let wait : ℕ = 7 + minute - 20 in
    ((allow (text "a") (pos 2) 20 busy).1 ≡ some (refuse (pos wait)))
    × (0 < wait)
    × (wait ≤ minute)
    × (verdict (allow (text "a") (pos 2) (20 + wait) (allow (text "a") (pos 2) 20 busy).0).1
        ≡ some true)
unfolding computing found purge
retry_admits_example = retry_admits (text "a") (pos 2) 20 7 (9 ∷ []) busy refl refl (omega arith)
