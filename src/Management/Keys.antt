-- ===== src/Management/Keys.antt =====
-- The handlers of /api/v1/keys in internal/api/management.go. The store's List gives copies of its
-- keys, so UpdateKey changes a copy, and only Update puts it into the store.
use ai_proxy_centranity.Base.{
  ℕ, Bool, true, false, Option, none, some, List, [], ◌∷◌, ◌++◌, if◌then◌else◌,
}
use ai_proxy_centranity.Base.Int.{ℤ, pos, ltb_ℤ}
use ai_proxy_centranity.Base.Text.{Text, text, ◌==◌, is_empty}
use ai_proxy_centranity.Auth
use ai_proxy_centranity.Auth.{ApiKey, KeyStore, generate_api_key}
use ai_proxy_centranity.Http.{
  Items, Fields, str, num, bool, arr, obj, field, end, nil, cons, Writer, write_header, write_json,
  Decoded, decoded, malformed,
}
use ai_proxy_centranity.Management.State.{
  Console, Visit, log_change, write_json_error, write_doc, text_list,
}
use ai_proxy_centranity.Management.Proxies.{or_text, or_bool}

-- A list that the request does not give is `none`.
pub record KeyRequest : Type 0 where
  pub name : Text
  pub enabled : Option Bool
  pub rpm_limit : ℤ
  pub rps_limit : ℤ
  pub allowed_models : Option (List Text)
  pub denied_models : Option (List Text)
  pub allowed_providers : Option (List Text)
  pub denied_providers : Option (List Text)
  pub daily_token_quota : ℤ
  pub monthly_token_quota : ℤ

abbrev expiry : (ℕ → Text) → Option ℕ → Fields → Fields
expiry show_time none rest = rest
expiry show_time (some t) rest = field (text "expires_at") (str (show_time t)) rest

-- `APIKey` as encoding/json writes it: without the hash, and without an expiry that is not set.
unfoldable pub key_fields : (ℕ → Text) → ApiKey → Fields
key_fields show_time k = field (text "id") (str k.id) (
    field (text "name") (str k.name) (
      field (text "prefix") (str k.prefix) (
        field (text "enabled") (bool k.enabled) (
          expiry show_time k.expires_at (
            field (text "allowed_models") (text_list k.allowed_models) (
              field (text "denied_models") (text_list k.denied_models) (
                field (text "allowed_providers") (text_list k.allowed_providers) (
                  field (text "denied_providers") (text_list k.denied_providers) (
                    field (text "rpm_limit") (num k.rpm_limit) (
                      field (text "rps_limit") (num k.rps_limit) (
                        field (text "tpm_limit") (num k.tpm_limit) (
                          field (text "daily_token_quota") (num k.daily_token_quota) (
                            field (text "monthly_token_quota") (num k.monthly_token_quota) (
                              field (text "budget_limit") (num k.budget_limit) (
                                field (text "created_at") (str (show_time k.created_at)) (
                                  field (text "updated_at") (str (show_time k.updated_at))
                                    end))))))))))))))))

unfoldable pub key_docs : (ℕ → Text) → List ApiKey → Items
key_docs show_time [] = nil
key_docs show_time (k ∷ ks) = cons (obj (key_fields show_time k)) (key_docs show_time ks)

abbrev no_store : Console → Writer → Console × Writer
no_store c w = (c, write_json_error 500 (text "key store unavailable") w)

abbrev invalid_json : Text → Console → Writer → Console × Writer
invalid_json e c w = (c, write_json_error 400 (text "invalid JSON: " ++ e) w)

abbrev pub list_in : Visit → Option KeyStore → Console → Writer → Console × Writer
list_in v none c w = no_store c w
list_in v (some s) c w =
    (c, write_doc (obj (field (text "keys") (arr (key_docs v.show_time (Auth.list s))) end)) w)

-- `ListKeys`; the memory store's List does not fail.
unfoldable pub list_keys : Visit → Console → Writer → Console × Writer
list_keys v c w = list_in v c.key_store c w

abbrev or_limit : ℤ → ℤ → ℤ
or_limit given old = if ltb_ℤ (pos 0) given then given else old

abbrev or_list : Option (List Text) → List Text → List Text
or_list none old = old
or_list (some given) old = given

-- The fields that CreateKey and UpdateKey both take over.
unfoldable pub apply_limits : KeyRequest → ApiKey → ApiKey
apply_limits r k = record k {
  enabled = or_bool r.enabled k.enabled;
  rpm_limit = or_limit r.rpm_limit k.rpm_limit;
  rps_limit = or_limit r.rps_limit k.rps_limit;
  allowed_models = or_list r.allowed_models k.allowed_models;
  denied_models = or_list r.denied_models k.denied_models;
  allowed_providers = or_list r.allowed_providers k.allowed_providers;
  denied_providers = or_list r.denied_providers k.denied_providers;
  daily_token_quota = or_limit r.daily_token_quota k.daily_token_quota;
  monthly_token_quota = or_limit r.monthly_token_quota k.monthly_token_quota;
}

-- What GenerateAPIKey gives, with the request's fields; the memory store's Create does not fail.
abbrev pub create_generated :
    Visit → KeyRequest → Option (Text × ApiKey) → KeyStore → Console → Writer → Console × Writer
create_generated v r none s c w =
    (c, write_json_error 500 (text "failed to generate random bytes") w)
create_generated v r (some (raw_key, generated)) s c w =
    let key = apply_limits r generated in
    (
      log_change v (text "keys") (record c { key_store = some (Auth.create s key) }),
      write_json 201 (obj (field (text "key") (str raw_key) (key_fields v.show_time key))) w,
    )

abbrev pub create_in :
    (Text → Text)
    → Visit
    → Option (List ℕ)
    → Decoded KeyRequest
    → Option KeyStore
    → Console
    → Writer
    → Console × Writer
create_in hash_key v random_bytes request none c w = no_store c w
create_in hash_key v random_bytes (malformed e) (some s) c w = invalid_json e c w
create_in hash_key v random_bytes (decoded r) (some s) c w =
    if is_empty r.name
    then (c, write_json_error 400 (text "name required") w)
    else create_generated v r (generate_api_key hash_key random_bytes (v.now 0) r.name) s c w

-- `CreateKey`; the error of crypto/rand is not part of the text.
unfoldable pub create_key :
    (Text → Text)
    → Visit
    → Option (List ℕ)
    → Decoded KeyRequest
    → Console
    → Writer
    → Console × Writer
create_key hash_key v random_bytes request c w =
    create_in hash_key v random_bytes request c.key_store c w

-- The loop over the list: the first entry with this identifier, with its name in the map.
unfoldable pub find_key : Text → KeyStore → Option (Text × ApiKey)
find_key id [] = none
find_key id ((h, k) ∷ s) =
    let later = find_key id s in elim (k.id == id) [ true ↦ some (h, k) | false ↦ later ]

unfoldable pub apply_update : KeyRequest → ℕ → ApiKey → ApiKey
unfolding apply_limits
apply_update r now k = record (apply_limits r k) { name = or_text r.name k.name; updated_at = now }

abbrev pub not_found : Console → Writer → Console × Writer
not_found c w = (c, write_json_error 404 (text "key not found") w)

-- What Update makes of the store, or its error.
abbrev pub store_updated : Visit → ApiKey → Option KeyStore → Console → Writer → Console × Writer
store_updated v key none c w = (c, write_json_error 500 (text "api key not found") w)
store_updated v key (some s') c w = (
  log_change v (text "keys") (record c { key_store = some s' }),
  write_doc (obj (key_fields v.show_time key)) w,
)

abbrev pub update_found :
    Visit → KeyRequest → KeyStore → Option (Text × ApiKey) → Console → Writer → Console × Writer
update_found v r s none c w = not_found c w
update_found v r s (some (h, k)) c w =
    let key = apply_update r (v.now 0) k in store_updated v key (Auth.update s key) c w

abbrev pub update_in :
    Visit → Decoded KeyRequest → Option KeyStore → Console → Writer → Console × Writer
update_in v request none c w = no_store c w
update_in v (malformed e) (some s) c w = invalid_json e c w
update_in v (decoded r) (some s) c w = update_found v r s (find_key v.path_value s) c w

-- `UpdateKey`
unfoldable pub update_key : Visit → Decoded KeyRequest → Console → Writer → Console × Writer
update_key v request c w = update_in v request c.key_store c w

-- The hash of the first key with this identifier, or the empty text.
abbrev pub hash_of : Option (Text × ApiKey) → Text
hash_of none = []
hash_of (some (h, k)) = k.hash

abbrev pub delete_stored : Visit → Option KeyStore → Console → Writer → Console × Writer
delete_stored v none c w = (c, write_json_error 500 (text "api key not found") w)
delete_stored v (some s) c w =
    (log_change v (text "keys") (record c { key_store = some s }), write_header 204 w)

abbrev pub delete_in : Visit → Option KeyStore → Console → Writer → Console × Writer
delete_in v none c w = no_store c w
delete_in v (some s) c w =
    let hash = hash_of (find_key v.path_value s) in
    if is_empty hash then not_found c w else delete_stored v (Auth.delete s hash) c w

-- `DeleteKey`
unfoldable pub delete_key : Visit → Console → Writer → Console × Writer
delete_key v c w = delete_in v c.key_store c w
