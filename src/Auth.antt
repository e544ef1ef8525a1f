-- ===== src/Auth.antt =====
-- internal/auth/auth.go: the key record, the creation of a key, the in-memory key store and the
-- check that the authentication middleware makes. SHA-256 is the parameter `hash_key`, and the
-- bytes that crypto/rand delivers are an argument (`none` where reading them fails).
mod Examples
pub mod Access
pub mod Generated
use ai_proxy_centranity.Base.{
  ℕ, ◌+◌, ◌/◌, ◌%◌, Bool, true, false, not, ◌||◌, Option, none, some, List, [], ◌∷◌, ◌++◌, take,
  ltb, if◌then◌else◌,
}
use ai_proxy_centranity.Base.Int.{ℤ, pos}
use ai_proxy_centranity.Base.Text.{Text, text, has_prefix, trim_prefix, trim_space, is_empty}
use ai_proxy_centranity.Base.Assoc.{Assoc, lookup, insert, remove, values, exists}

-- Times are nanoseconds since a fixed origin. The budget is the float 0.0 wherever the program
-- sets it, and is kept as a whole number.
pub record ApiKey : Type 0 where
  pub id : Text
  pub name : Text
  pub prefix : Text
  pub hash : Text
  pub enabled : Bool
  pub expires_at : Option ℕ
  pub allowed_models : List Text
  pub denied_models : List Text
  pub allowed_providers : List Text
  pub denied_providers : List Text
  pub rpm_limit : ℤ
  pub rps_limit : ℤ
  pub tpm_limit : ℤ
  pub daily_token_quota : ℤ
  pub monthly_token_quota : ℤ
  pub budget_limit : ℤ
  pub created_at : ℕ
  pub updated_at : ℕ

unfoldable pub hex_digit : ℕ → ℕ
hex_digit d = if ltb d 10 then b'0' + d else 87 + d

-- `hex.EncodeToString`
unfoldable pub hex_encode : List ℕ → Text
unfolding hex_digit
hex_encode [] = []
hex_encode (b ∷ bs) = hex_digit (b / 16) ∷ hex_digit (b % 16) ∷ hex_encode bs

-- `GenerateAPIKey`: the raw key and its record, or nothing where crypto/rand fails.
unfoldable pub generate_api_key :
    (Text → Text) → Option (List ℕ) → ℕ → Text → Option (Text × ApiKey)
generate_api_key hash_key none now name = none
generate_api_key hash_key (some random_bytes) now name =
    let raw_suffix = hex_encode random_bytes in
    let raw_key = text "sk-pg-" ++ raw_suffix in
    some (
      raw_key,
      record {
        id = text "key_" ++ take 12 raw_suffix;
        name = name;
        prefix = take 10 raw_key;
        hash = hash_key raw_key;
        enabled = true;
        expires_at = none;
        allowed_models = [];
        denied_models = [];
        allowed_providers = [];
        denied_providers = [];
        rpm_limit = pos 60;
        rps_limit = pos 10;
        tpm_limit = pos 100000;
        daily_token_quota = pos 1000000;
        monthly_token_quota = pos 30000000;
        budget_limit = pos 0;
        created_at = now;
        updated_at = now;
      },
    )

-- `MemoryKeyStore`: the map from hashes to keys. Each method runs under the store's lock.
abbrev pub KeyStore : Type 0
KeyStore = Assoc ApiKey

unfoldable pub get_by_hash : KeyStore → Text → Option ApiKey
get_by_hash s hash = lookup hash s

unfoldable pub create : KeyStore → ApiKey → KeyStore
create s key = insert key.hash key s

unfoldable pub list : KeyStore → List ApiKey
list s = values s

-- `none` is the error "api key not found".
unfoldable pub update : KeyStore → ApiKey → Option KeyStore
update s key = if exists (lookup key.hash s) then some (insert key.hash key s) else none

unfoldable pub delete : KeyStore → Text → Option KeyStore
delete s hash = if exists (lookup hash s) then some (remove hash s) else none

-- The three fields of the JSON error object; the status is 401 for each.
pub record AuthError : Type 0 where
  pub message : Text
  pub error_type : Text
  pub code : Text

pub data Verdict : Type 0 where
  rejected : AuthError → Verdict
  accepted : ApiKey → Verdict

abbrev pub missing_token : AuthError
missing_token = record {
  message = text "Missing or malformed Authorization header";
  error_type = text "auth_error";
  code = text "missing_token";
}

abbrev pub empty_key : AuthError
empty_key = record {
  message = text "Empty API key provided";
  error_type = text "auth_error";
  code = text "invalid_api_key";
}

abbrev pub invalid_key : AuthError
invalid_key = record {
  message = text "Invalid or disabled API key";
  error_type = text "auth_error";
  code = text "invalid_api_key";
}

abbrev pub expired_key : AuthError
expired_key = record {
  message = text "API key has expired";
  error_type = text "auth_error";
  code = text "key_expired";
}

-- `apiKey.ExpiresAt != nil && time.Now().UTC().After(*apiKey.ExpiresAt)`
abbrev pub is_expired : Option ℕ → ℕ → Bool
is_expired none now = false
is_expired (some at) now = ltb at now

unfoldable pub check_found : Option ApiKey → ℕ → Verdict
check_found none now = rejected invalid_key
check_found (some key) now =
    if not key.enabled
    then rejected invalid_key
    else if is_expired key.expires_at now
    then rejected expired_key
    else accepted key

abbrev pub bearer : Text
bearer = text "Bearer "

-- What `AuthMiddleware` makes of the Authorization header (empty if absent).
unfoldable pub authenticate : (Text → Text) → KeyStore → ℕ → Text → Verdict
authenticate hash_key store now auth_header =
    if is_empty auth_header || not (has_prefix auth_header bearer)
    then rejected missing_token
    else (let raw_key = trim_space (trim_prefix auth_header bearer) in
        if is_empty raw_key
        then rejected empty_key
        else check_found (get_by_hash store (hash_key raw_key)) now)
