-- ===== src/Routing/Engine/Choice.antt =====
-- Which target internal/routing/engine.go chooses for an alias: the first one that has a name and
-- whose circuit lets it through, with the later ones as the fallback chain.
use mathlib.Core.List.{append_assoc, append-nil}
use ai_proxy_centranity.Base.{
  ℕ, suc, ◌≤◌, ◌≡◌, refl, ◌∙◌, ap, Bool, true, false, List, [], ◌∷◌, ◌++◌, none, some, Option,
  arith, if◌then◌else◌, inl, inr, Option-cases,
}
use ai_proxy_centranity.Base.Text.{Text, text, to_lower, to_upper, is_empty}
use ai_proxy_centranity.Base.Assoc.{lookup}
use ai_proxy_centranity.Routing.Circuit.{CircuitBreaker, allow}
use ai_proxy_centranity.Routing.Circuit.Answers.{allow-allow}
use ai_proxy_centranity.Routing.Engine.{
  Engine, Scan, visit, scan, Resolution, routed, failed, resolve,
}

-- The targets that the breaker, as it is before the call, lets through at the times of their turns.
unfoldable pub healthy : CircuitBreaker → (ℕ → ℕ) → ℕ → List Text → List Text
healthy cb now i [] = []
healthy cb now i (t ∷ ts) =
    let rest = healthy cb now (suc i) ts in if (allow cb t (now i)).1 then t ∷ rest else rest

-- The first target with a name, and the targets behind it.
unfoldable pub pick : List Text → Option (Text × List Text)
pick [] = none
pick (t ∷ ts) = let rest = pick ts in if is_empty t then rest else some (t, ts)

-- The loop's two results, as a function of the targets that are let through.
sorted_out : Text → List Text → List Text → Text × List Text
sorted_out chosen chain [] = (chosen, chain)
sorted_out chosen chain (h ∷ hs) =
    if is_empty chosen then sorted_out h chain hs else sorted_out chosen (chain ++ h ∷ []) hs

-- From a round's time on, the breaker in the loop answers as the one before the call.
record Agrees (cb : CircuitBreaker) (from : ℕ) (s : Scan) : Type 0 where
  same : (u : Text) (m : ℕ) → from ≤ m → (allow s.breaker u m).1 ≡ (allow cb u m).1

visit-Agrees :
    (cb : CircuitBreaker) (t : Text) (now next : ℕ) (s : Scan)
    → now ≤ next
    → Agrees cb now s
    → Agrees cb next (visit s t (allow s.breaker t now))
visit-Agrees cb t now next s h a = record {
  same = λ u m later. ground (arith, allow-allow s.breaker t u now m, a.same u m);
}

visit-sorted_out :
    (s : Scan) (t : Text) (b : CircuitBreaker × Bool) (hs : List Text)
    → sorted_out (visit s t b).chosen (visit s t b).chain hs
      ≡ sorted_out s.chosen s.chain (if b.1 then t ∷ hs else hs)
unfolding sorted_out
visit-sorted_out s t (cb, true) hs = ground arith
visit-sorted_out s t (cb, false) hs = refl

scan-results :
    (cb : CircuitBreaker) (now : ℕ → ℕ) (i : ℕ) (ts : List Text) (s : Scan)
    → ((j : ℕ) → now j ≤ now (suc j))
    → Agrees cb (now i) s
    → let r = scan now i ts s in
      ◌≡◌ {A = Text × List Text}
        (r.chosen, r.chain)
        (sorted_out s.chosen s.chain (healthy cb now i ts))
unfolding scan healthy sorted_out
scan-results cb now i [] s up a = refl
scan-results cb now i (t ∷ ts) s up a =
    let b = allow s.breaker t (now i) in
    let hs = healthy cb now (suc i) ts in
    scan-results cb now (suc i) ts (visit s t b) up
      (visit-Agrees cb t (now i) (now (suc i)) s (up i) a)
    ∙ visit-sorted_out s t b hs
    ∙ ap (λ c. sorted_out s.chosen s.chain (if c then t ∷ hs else hs))
        (a.same t (now i) (omega arith))

abbrev or_nothing : Option (Text × List Text) → Text × List Text
or_nothing none = ([], [])
or_nothing (some p) = p

sorted_out-chosen :
    (c : ℕ) (t : Text) (chain hs : List Text) → sorted_out (c ∷ t) chain hs ≡ (c ∷ t, chain ++ hs)
unfolding sorted_out is_empty
sorted_out-chosen c t chain [] = rw append-nil
sorted_out-chosen c t chain (h ∷ hs) =
    sorted_out-chosen c t (chain ++ h ∷ []) hs ∙ rw (append_assoc chain (h ∷ []) hs)

sorted_out-pick : (hs : List Text) → sorted_out [] [] hs ≡ or_nothing (pick hs)
unfolding sorted_out is_empty pick
sorted_out-pick [] = refl
sorted_out-pick ([] ∷ hs) = sorted_out-pick hs
sorted_out-pick ((c ∷ t) ∷ hs) = sorted_out-chosen c t [] hs

-- What is picked has a name.
pick-ne-nil :
    (hs : List Text) (t : Text) (rest : List Text) → pick hs ≡ some (t, rest) → is_empty t ≡ false
unfolding pick
pick-ne-nil [] t rest e = ground arith
pick-ne-nil (h ∷ hs) t rest e = ground (arith, pick-ne-nil hs t rest)

-- What the choice comes to: a decision on the picked target, or the error of the alias.
abbrev pub answer : Text → Text → Option (Text × List Text) → Resolution
answer requested key none = failed (
    text "all upstream targets for alias '"
    ++ requested
    ++ text "' are currently unavailable (circuit open)")
answer requested key (some (t, rest)) = routed (record {
  target_model = t;
  fallback_chain = rest;
  is_alias = true;
  reason = text "RESOLVED_ALIAS_" ++ to_upper key;
})

abbrev from_results : Text → Text → Text × List Text → Resolution
from_results requested key (chosen, chain) =
    if is_empty chosen
    then answer requested key none
    else answer requested key (some (chosen, chain))

from_results-pick :
    (requested key : Text) (hs : List Text)
    → from_results requested key (or_nothing (pick hs)) ≡ answer requested key (pick hs)
unfolding is_empty
from_results-pick requested key hs = elim (Option-cases (pick hs)) [
  | inl e ↦ rw e
  | inr ((t, rest), e) ↦ rw (e, pick-ne-nil hs t rest e)
]

scan-pick :
    (cb : CircuitBreaker) (now : ℕ → ℕ) (ts : List Text)
    → ((j : ℕ) → now j ≤ now (suc j))
    → let r = scan now 0 ts (record { breaker = cb; chosen = []; chain = [] }) in
      ◌≡◌ {A = Text × List Text} (r.chosen, r.chain) (or_nothing (pick (healthy cb now 0 ts)))
scan-pick cb now ts up =
    scan-results cb now 0 ts (record { breaker = cb; chosen = []; chain = [] }) up
      (record { same = λ u m h. refl })
    ∙ sorted_out-pick (healthy cb now 0 ts)

-- With times that do not fall, an alias resolves to the first of its targets that has a name and
-- whose circuit, as it stands before the call, lets it through; the targets behind it that are let
-- through form the fallback chain, in order; and where there is no such target the call fails.
pub resolve_alias-picks :
    (e : Engine) (now : ℕ → ℕ) (requested : Text) (targets : List Text)
    → ((j : ℕ) → now j ≤ now (suc j))
    → lookup (to_lower requested) e.aliases ≡ some targets
    → (resolve e now requested).1
      ≡ answer requested (to_lower requested) (pick (healthy e.circuit_breaker now 0 targets))
unfolding resolve
resolve_alias-picks e now requested targets up found = rw found (
    ap (from_results requested (to_lower requested)) (scan-pick e.circuit_breaker now targets up)
    ∙ from_results-pick requested (to_lower requested) (healthy e.circuit_breaker now 0 targets))
