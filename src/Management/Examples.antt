-- ===== src/Management/Examples.antt =====
-- Concrete runs of the theorems on internal/api/management.go.
use ai_proxy_centranity.Base.{
  ◌+◌, arith, ◌≡◌, refl, true, false, some, none, [], ◌∷◌, ◌++◌, computing,
}
use ai_proxy_centranity.Base.Int.{pos}
use ai_proxy_centranity.Base.Text.{Text, text, is_empty}
use ai_proxy_centranity.Audit
use ai_proxy_centranity.Auth.{
  ApiKey, KeyStore, authenticate, accepted, bearer, generate_api_key, hex_encode, hex_digit,
}
use ai_proxy_centranity.Http.{fresh, decoded}
use ai_proxy_centranity.Policy
use ai_proxy_centranity.Proxy
use ai_proxy_centranity.Proxy.{Profile}
use ai_proxy_centranity.Routing.Engine
use ai_proxy_centranity.Management.State.{Console, Visit}
use ai_proxy_centranity.Management.Keys
use ai_proxy_centranity.Management.Keys.{KeyRequest, find_key}
use ai_proxy_centranity.Management.Proxies.{ProxyRequest}
use ai_proxy_centranity.Management.Operations
use ai_proxy_centranity.Management.Operations.{Operation, perform}
use ai_proxy_centranity.Management.Filing.{IsFiled}
use ai_proxy_centranity.Management.Outcomes.{Outcome}
use ai_proxy_centranity.Management.Refinement.{perform-Outcome}
use ai_proxy_centranity.Management.Invariant.{perform-IsFiled}
use ai_proxy_centranity.Management.Effects.{
  ShowsKey, IsLockedOut, update_key-IsLockedOut, create_key-authenticate,
}
use ai_proxy_centranity.Management.Secrecy.{blank_credentials, perform-blank_credentials}

-- A hash for the examples.
abbrev pub tag : Text → Text
tag s = text "h" ++ s

abbrev pub stored_key : ApiKey
stored_key = record {
  id = text "key_1";
  name = text "ci";
  prefix = text "k1";
  hash = text "hk1";
  enabled = true;
  expires_at = none;
  allowed_models = [];
  denied_models = [];
  allowed_providers = [];
  denied_providers = [];
  rpm_limit = pos 60;
  rps_limit = pos 10;
  tpm_limit = pos 100000;
  daily_token_quota = pos 1000000;
  monthly_token_quota = pos 30000000;
  budget_limit = pos 0;
  created_at = 5;
  updated_at = 5;
}

abbrev pub stored_profile : Profile
stored_profile = record {
  id = text "proxy_1";
  name = text "office";
  kind = text "HTTP";
  host = text "10.0.0.1";
  port = pos 8080;
  username = text "user";
  password = text "secret";
  enabled = true;
  created_at = 5;
  updated_at = 5;
}

abbrev pub keys : KeyStore
keys = (text "hk1", stored_key) ∷ []

abbrev pub profiles : Proxy.Store
profiles = (text "proxy_1", stored_profile) ∷ []

abbrev console : Console
console = record {
  key_store = some keys;
  route_engine = Engine.new none;
  policy_engine = some Policy.new;
  proxy_store = some profiles;
  audit_store = some Audit.new;
}

filed : IsFiled console
filed = ((refl, tt), (refl, tt))

abbrev pub visit : Visit
visit = record {
  path = text "/api/v1/keys/key_1";
  path_value = text "key_1";
  now = λ i. 40 + i;
  audit_id = text "evt";
  audit_now = 50;
  show_time = λ t. text "then";
}

-- A request that switches a key off.
abbrev pub switch_off : KeyRequest
switch_off = record {
  name = [];
  enabled = some false;
  rpm_limit = pos 0;
  rps_limit = pos 0;
  allowed_models = none;
  denied_models = none;
  allowed_providers = none;
  denied_providers = none;
  daily_token_quota = pos 0;
  monthly_token_quota = pos 0;
}

abbrev pub new_key : KeyRequest
new_key = record switch_off { name = text "second"; enabled = none }

abbrev profile_change : ProxyRequest
profile_change = record {
  name = text "home";
  kind = [];
  host = [];
  port = pos 0;
  username = [];
  password = [];
  enabled = none;
}

abbrev proxy_visit : Visit
proxy_visit = record visit { path = text "/api/v1/proxies/proxy_1"; path_value = text "proxy_1" }

found : find_key (text "key_1") keys ≡ some (text "hk1", stored_key)
unfolding computing find_key
found = refl

not_empty : is_empty (text "hk1") ≡ false
unfolding computing
not_empty = refl

named : is_empty (text "second") ≡ false
unfolding computing
named = refl

-- The raw key and the record that two random bytes give.
abbrev made : Text × ApiKey
made = (
  text "sk-pg-0102",
  record {
    id = text "key_0102";
    name = text "second";
    prefix = text "sk-pg-0102";
    hash = text "hsk-pg-0102";
    enabled = true;
    expires_at = none;
    allowed_models = [];
    denied_models = [];
    allowed_providers = [];
    denied_providers = [];
    rpm_limit = pos 60;
    rps_limit = pos 10;
    tpm_limit = pos 100000;
    daily_token_quota = pos 1000000;
    monthly_token_quota = pos 30000000;
    budget_limit = pos 0;
    created_at = 40;
    updated_at = 40;
  },
)

generated : generate_api_key tag (some (1 ∷ 2 ∷ [])) 40 (text "second") ≡ some made
unfolding computing generate_api_key hex_encode hex_digit
generated = refl

perform-Outcome_example :
    Outcome visit console
      (Operations.update_key (decoded switch_off))
      (perform tag (Operations.update_key (decoded switch_off)) visit console fresh)
perform-Outcome_example =
    perform-Outcome visit console fresh refl tag (Operations.update_key (decoded switch_off)) filed

perform-IsFiled_example :
    IsFiled ((perform tag (Operations.update_key (decoded switch_off)) visit console fresh).0)
perform-IsFiled_example =
    perform-IsFiled tag (Operations.update_key (decoded switch_off)) visit console fresh refl filed

update_key-IsLockedOut_example :
    (after : KeyStore) × (((Keys.update_key visit (decoded switch_off) console fresh).0.key_store
        ≡ some after)
      × IsLockedOut tag (text "hk1") keys after (text "Bearer k1") 60)
update_key-IsLockedOut_example =
    update_key-IsLockedOut tag visit switch_off console fresh keys (text "hk1") stored_key
      (text "Bearer k1") 60 refl (refl, tt) found refl

create_key-authenticate_example :
    (after : KeyStore) × (((Keys.create_key tag visit
          (some (1 ∷ 2 ∷ []))
          (decoded new_key)
          console
          fresh).0.key_store
        ≡ some after)
      × (ShowsKey
            (made.0)
            fresh
            (Keys.create_key tag visit (some (1 ∷ 2 ∷ [])) (decoded new_key) console fresh).1
          × (authenticate tag after 60 (bearer ++ made.0)
              ≡ accepted (Keys.apply_limits new_key made.1))))
create_key-authenticate_example =
    create_key-authenticate tag visit (1 ∷ 2 ∷ []) new_key console fresh keys (made.0) (made.1) 60
      refl named (λ e. ground (arith, e)) generated

perform-blank_credentials_example :
    (perform tag
      (Operations.update_proxy (decoded profile_change))
      proxy_visit
      (blank_credentials console)
      fresh).1
    ≡ (perform tag (Operations.update_proxy (decoded profile_change)) proxy_visit console fresh).1
perform-blank_credentials_example =
    perform-blank_credentials tag (Operations.update_proxy (decoded profile_change)) proxy_visit
      console fresh
