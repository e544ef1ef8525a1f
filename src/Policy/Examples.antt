-- ===== src/Policy/Examples.antt =====
-- Concrete runs of the theorems on internal/policy/engine.go.
use ai_proxy_centranity.Base.{◌≡◌, ◌↔◌, true, some, none, [], ◌∷◌}
use ai_proxy_centranity.Base.Int.{pos}
use ai_proxy_centranity.Base.Text.{text}
use ai_proxy_centranity.Auth.{ApiKey}
use ai_proxy_centranity.Policy.{Engine, evaluate_model}
use ai_proxy_centranity.Policy.Precedence.{Permits, evaluate_model_iff}

abbrev banned : Engine
banned = record { models = text "gpt-4" ∷ []; providers = text "*" ∷ [] }

abbrev a_key : ApiKey
a_key = record {
  id = text "key_1";
  name = text "ci";
  prefix = text "k1";
  hash = text "hk1";
  enabled = true;
  expires_at = none;
  allowed_models = text "cc-opus" ∷ text "GPT-4" ∷ [];
  denied_models = text "cc-haiku" ∷ [];
  allowed_providers = [];
  denied_providers = [];
  rpm_limit = pos 60;
  rps_limit = pos 10;
  tpm_limit = pos 100000;
  daily_token_quota = pos 1000000;
  monthly_token_quota = pos 30000000;
  budget_limit = pos 0;
  created_at = 5;
  updated_at = 5;
}

evaluate_model_iff_example :
    ((evaluate_model banned (some a_key) (text "CC-Opus")).allowed ≡ true)
    ↔ Permits banned.models a_key.denied_models a_key.allowed_models (text "CC-Opus")
evaluate_model_iff_example = evaluate_model_iff banned a_key (text "CC-Opus")
