-- ===== src/Routing/Engine.antt =====
-- internal/routing/engine.go: the aliases, and the choice of a target by the health of the circuits.
pub mod Aliases
pub mod Choice
use ai_proxy_centranity.Base.{
  ℕ, suc, Bool, true, false, Option, none, some, List, [], ◌∷◌, ◌++◌, if◌then◌else◌,
}
use ai_proxy_centranity.Base.Int.{pos}
use ai_proxy_centranity.Base.Text.{Text, text, to_lower, to_upper, is_empty}
use ai_proxy_centranity.Base.Assoc.{Assoc, lookup, insert, remove, exists}
use ai_proxy_centranity.Routing.Circuit
use ai_proxy_centranity.Routing.Circuit.{CircuitBreaker, allow, record_success, record_failure}

pub record RouteDecision : Type 0 where
  pub target_model : Text
  pub fallback_chain : List Text
  pub is_alias : Bool
  pub reason : Text

pub record Engine : Type 0 where
  pub circuit_breaker : CircuitBreaker
  pub aliases : Assoc (List Text)

-- The aliases that `NewEngine` registers, in its order.
abbrev pub built_in : Assoc (List Text)
built_in =
    (text "coding", text "cc-sonnet" ∷ text "cc-haiku" ∷ [])
    ∷ (text "fast", text "cc-haiku" ∷ text "gemini-flash" ∷ [])
    ∷ (text "reasoning", text "cc-opus" ∷ text "cc-sonnet" ∷ [])
    ∷ (text "cheap", text "cc-haiku" ∷ [])
    ∷ (text "free", text "cc-haiku" ∷ [])
    ∷ []

abbrev or_default : Option CircuitBreaker → CircuitBreaker
or_default none = Circuit.new (record { failure_threshold = pos 0; cooldown_duration = pos 0 })
or_default (some cb) = cb

unfoldable pub new : Option CircuitBreaker → Engine
new cb = record { circuit_breaker = or_default cb; aliases = built_in }

unfoldable pub set_alias : Engine → Text → List Text → Engine
set_alias e alias targets = record e { aliases = insert (to_lower alias) targets e.aliases }

unfoldable pub get_aliases : Engine → Assoc (List Text)
get_aliases e = e.aliases

-- `none` is the error "alias not found".
unfoldable pub delete_alias : Engine → Text → Option Engine
delete_alias e name =
    let key = to_lower name in
    if exists (lookup key e.aliases)
    then some (record e { aliases = remove key e.aliases })
    else none

pub data Resolution : Type 0 where
  routed : RouteDecision → Resolution
  failed : Text → Resolution

-- The variables of the loop over an alias's targets.
pub record Scan : Type 0 where
  pub breaker : CircuitBreaker
  pub chosen : Text
  pub chain : List Text

abbrev visit : Scan → Text → CircuitBreaker × Bool → Scan
visit s target (cb, allowed) =
    if allowed
    then (if is_empty s.chosen
        then record { breaker = cb; chosen = target; chain = s.chain }
        else record { breaker = cb; chosen = s.chosen; chain = s.chain ++ target ∷ [] })
    else record s { breaker = cb }

-- The loop; round `i` reads the time `now i`.
unfoldable pub scan : (ℕ → ℕ) → ℕ → List Text → Scan → Scan
scan now i [] s = s
scan now i (t ∷ ts) s = scan now (suc i) ts (visit s t (allow s.breaker t (now i)))

unfoldable pub resolve_direct : Engine → ℕ → Text → Engine × Resolution
resolve_direct e now requested =
    let (cb, allowed) = allow e.circuit_breaker requested now in
    (
      record e { circuit_breaker = cb },
      if allowed
          then routed (record {
            target_model = requested;
            fallback_chain = [];
            is_alias = false;
            reason = text "DIRECT_MODEL";
          })
          else failed (text "circuit breaker OPEN for requested model '" ++ requested ++ text "'"),
    )

unfoldable pub resolve_alias : Engine → (ℕ → ℕ) → Text → Text → List Text → Engine × Resolution
resolve_alias e now requested alias_key targets =
    let s = scan now 0 targets (record { breaker = e.circuit_breaker; chosen = []; chain = [] }) in
    (
      record e { circuit_breaker = s.breaker },
      if is_empty s.chosen
          then failed (
              text "all upstream targets for alias '"
              ++ requested
              ++ text "' are currently unavailable (circuit open)")
          else routed (record {
            target_model = s.chosen;
            fallback_chain = s.chain;
            is_alias = true;
            reason = text "RESOLVED_ALIAS_" ++ to_upper alias_key;
          }),
    )

abbrev resolve_found : Engine → (ℕ → ℕ) → Text → Text → Option (List Text) → Engine × Resolution
resolve_found e now requested key none = resolve_direct e (now 0) requested
resolve_found e now requested key (some targets) = resolve_alias e now requested key targets

unfoldable pub resolve : Engine → (ℕ → ℕ) → Text → Engine × Resolution
unfolding resolve_direct resolve_alias
resolve e now requested =
    let alias_key = to_lower requested in
    resolve_found e now requested alias_key (lookup alias_key e.aliases)

unfoldable pub record_result : Engine → Text → Bool → ℕ → Engine
record_result e target success now = record e {
  circuit_breaker =
      if success
      then record_success e.circuit_breaker target
      else record_failure e.circuit_breaker target now;
}
