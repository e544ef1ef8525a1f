-- ===== src/Auth/Examples.antt =====
-- Concrete runs of the theorems on internal/auth/auth.go.
use ai_proxy_centranity.Base.{◌≡◌, ◌≢◌, ◌↔◌, ℕ, true, some, none, List, [], ◌∷◌, ◌++◌}
use ai_proxy_centranity.Base.Int.{pos}
use ai_proxy_centranity.Base.Text.{Text, text, has_prefix}
use ai_proxy_centranity.Auth.{ApiKey, KeyStore, get_by_hash, accepted, authenticate, bearer}
use ai_proxy_centranity.Auth.Access.{token_of, IsLive, authenticate_iff}

-- A hash for the examples.
abbrev tag : Text → Text
tag s = text "h" ++ s

abbrev some_key : ApiKey
some_key = record {
  id = text "key_1";
  name = text "ci";
  prefix = text "k1";
  hash = text "hk1";
  enabled = true;
  expires_at = some 20;
  allowed_models = [];
  denied_models = [];
  allowed_providers = [];
  denied_providers = [];
  rpm_limit = pos 60;
  rps_limit = pos 10;
  tpm_limit = pos 100000;
  daily_token_quota = pos 1000000;
  monthly_token_quota = pos 30000000;
  budget_limit = pos 0;
  created_at = 5;
  updated_at = 5;
}

abbrev other_key : ApiKey
other_key = record {
  id = text "key_2";
  name = text "ci";
  prefix = text "k2";
  hash = text "hk2";
  enabled = true;
  expires_at = none;
  allowed_models = [];
  denied_models = [];
  allowed_providers = [];
  denied_providers = [];
  rpm_limit = pos 60;
  rps_limit = pos 10;
  tpm_limit = pos 100000;
  daily_token_quota = pos 1000000;
  monthly_token_quota = pos 30000000;
  budget_limit = pos 0;
  created_at = 5;
  updated_at = 5;
}

-- What GenerateAPIKey makes of two random bytes.
abbrev new_key : ApiKey
new_key = record {
  id = text "key_0aff";
  name = text "ci";
  prefix = text "sk-pg-0aff";
  hash = text "hsk-pg-0aff";
  enabled = true;
  expires_at = none;
  allowed_models = [];
  denied_models = [];
  allowed_providers = [];
  denied_providers = [];
  rpm_limit = pos 60;
  rps_limit = pos 10;
  tpm_limit = pos 100000;
  daily_token_quota = pos 1000000;
  monthly_token_quota = pos 30000000;
  budget_limit = pos 0;
  created_at = 5;
  updated_at = 5;
}

abbrev random : List ℕ
random = 10 ∷ 255 ∷ []

abbrev stored : KeyStore
stored = (text "hk1", some_key) ∷ []

authenticate_iff_example : (authenticate tag stored 9 (text "Bearer k1") ≡ accepted some_key) ↔ (
    (has_prefix (text "Bearer k1") bearer ≡ true)
    × (token_of (text "Bearer k1") ≢ [])
    × (get_by_hash stored (tag (token_of (text "Bearer k1"))) ≡ some some_key)
    × IsLive some_key 9)
authenticate_iff_example = authenticate_iff tag stored 9 (text "Bearer k1") some_key
