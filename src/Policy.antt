-- ===== src/Policy.antt =====
-- internal/policy/engine.go: the global denylist and the evaluation of a model or a provider
-- against a key's lists. Each method runs under the engine's lock.
mod Examples
pub mod Precedence
use ai_proxy_centranity.Base.{
  Bool, true, false, not, ◌||◌, ◌&&◌, Option, none, some, List, [], ◌∷◌, any, if◌then◌else◌,
}
use ai_proxy_centranity.Base.Text.{Text, text, ◌==◌, equal_fold}
use ai_proxy_centranity.Auth.{ApiKey}

pub record Decision : Type 0 where
  pub allowed : Bool
  pub reason : Text

pub record Engine : Type 0 where
  pub models : List Text
  pub providers : List Text

-- `NewEngine`
abbrev pub new : Engine
new = record { models = []; providers = [] }

-- `SetGlobalDeny`, which copies both lists.
unfoldable pub set_global_deny : Engine → List Text → List Text → Engine
set_global_deny e models providers = record { models = models; providers = providers }

-- `GetGlobalDeny`, which returns copies.
unfoldable pub get_global_deny : Engine → List Text × List Text
get_global_deny e = (e.models, e.providers)

-- `strings.EqualFold(pattern, id) || pattern == "*"`
unfoldable pub matches : Text → Text → Bool
matches id pattern = equal_fold pattern id || pattern == text "*"

abbrev is_nil : List Text → Bool
is_nil [] = true
is_nil (x ∷ xs) = false

abbrev deny : Text → Decision
deny reason = record { allowed = false; reason = reason }

-- The steps that `EvaluateModel` and `EvaluateProvider` share, over their lists and reasons.
unfoldable pub decide_by : List Text → List Text → List Text → Text → Text → Text → Text → Decision
decide_by global denied allowed globally key_denied not_allowed id =
    if any (matches id) global
    then deny globally
    else if any (matches id) denied
    then deny key_denied
    else if not (is_nil allowed) && not (any (matches id) allowed)
    then deny not_allowed
    else record { allowed = true; reason = text "ALLOWED" }

unfoldable pub evaluate_model : Engine → Option ApiKey → Text → Decision
unfolding decide_by
evaluate_model e none model_id = deny (text "UNAUTHENTICATED")
evaluate_model e (some key) model_id =
    decide_by e.models key.denied_models key.allowed_models (text "GLOBAL_MODEL_DENIED")
      (text "MODEL_DENIED") (text "MODEL_NOT_ALLOWED") model_id

unfoldable pub evaluate_provider : Engine → Option ApiKey → Text → Decision
unfolding decide_by
evaluate_provider e none provider_id = deny (text "UNAUTHENTICATED")
evaluate_provider e (some key) provider_id =
    decide_by e.providers key.denied_providers key.allowed_providers (text "GLOBAL_PROVIDER_DENIED")
      (text "PROVIDER_DENIED") (text "PROVIDER_NOT_ALLOWED") provider_id
