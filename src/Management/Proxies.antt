-- ===== src/Management/Proxies.antt =====
-- The handlers of /api/v1/proxies in internal/api/management.go.
use ai_proxy_centranity.Base.{
  ℕ, Bool, true, ◌||◌, Option, none, some, List, [], ◌∷◌, ◌++◌, if◌then◌else◌,
}
use ai_proxy_centranity.Base.Int.{ℤ, pos, leb_ℤ, ltb_ℤ}
use ai_proxy_centranity.Base.Text.{Text, text, is_empty}
use ai_proxy_centranity.Base.Assoc.{insert}
use ai_proxy_centranity.Http.{
  null, Json, Items, str, num, bool, arr, obj, field, end, nil, cons, Writer, write_header,
  write_json, Decoded, decoded, malformed,
}
use ai_proxy_centranity.Middleware.{generate_id}
use ai_proxy_centranity.Proxy
use ai_proxy_centranity.Proxy.{Profile}
use ai_proxy_centranity.Management.State.{Console, Visit, log_change, write_json_error}

pub record ProxyRequest : Type 0 where
  pub name : Text
  pub kind : Text
  pub host : Text
  pub port : ℤ
  pub username : Text
  pub password : Text
  pub enabled : Option Bool

-- `Profile` as encoding/json writes it: the credentials are left out.
unfoldable pub profile_doc : (ℕ → Text) → Profile → Json
profile_doc show_time p = obj (
    field (text "id") (str p.id) (
      field (text "name") (str p.name) (
        field (text "type") (str p.kind) (
          field (text "host") (str p.host) (
            field (text "port") (num p.port) (
              field (text "enabled") (bool p.enabled) (
                field (text "created_at") (str (show_time p.created_at))
                  (field (text "updated_at") (str (show_time p.updated_at)) end))))))))

unfoldable pub profile_docs : (ℕ → Text) → List Profile → Items
profile_docs show_time [] = nil
profile_docs show_time (p ∷ ps) = cons (profile_doc show_time p) (profile_docs show_time ps)

-- The list is nil, which is written null, where there is no store.
abbrev pub list_doc : (ℕ → Text) → Option Proxy.Store → Json
list_doc show_time none = null
list_doc show_time (some s) = arr (profile_docs show_time (Proxy.list s))

-- `GetProxies`; the memory store's List does not fail.
unfoldable pub get_proxies : Visit → Console → Writer → Console × Writer
get_proxies v c w =
    (c, write_json 200 (obj (field (text "proxies") (list_doc v.show_time c.proxy_store) end)) w)

-- The test that makes `CreateProxy` answer 400.
abbrev pub lacks_field : ProxyRequest → Bool
lacks_field r = is_empty r.name || is_empty r.kind || is_empty r.host || leb_ℤ r.port (pos 0)

abbrev or_true : Option Bool → Bool
or_true none = true
or_true (some b) = b

abbrev pub new_profile : Visit → List ℕ → ProxyRequest → Profile
new_profile v random_bytes r = record {
  id = text "proxy_" ++ generate_id random_bytes;
  name = r.name;
  kind = r.kind;
  host = r.host;
  port = r.port;
  username = r.username;
  password = r.password;
  enabled = or_true r.enabled;
  created_at = v.now 0;
  updated_at = v.now 1;
}

abbrev no_store : Console → Writer → Console × Writer
no_store c w = (c, write_json_error 500 (text "proxy store unavailable") w)

-- Save, the audit event and the response; the memory store's Save does not fail.
abbrev pub create_in : Visit → Profile → Option Proxy.Store → Console → Writer → Console × Writer
create_in v p none c w = no_store c w
create_in v p (some s) c w = (
  log_change v (text "proxies") (record c { proxy_store = some (Proxy.save s p) }),
  write_json 201 (profile_doc v.show_time p) w,
)

-- `CreateProxy`
unfoldable pub create_proxy :
    Visit → List ℕ → Decoded ProxyRequest → Console → Writer → Console × Writer
create_proxy v random_bytes (malformed e) c w =
    (c, write_json_error 400 (text "invalid JSON: " ++ e) w)
create_proxy v random_bytes (decoded r) c w =
    if lacks_field r
    then (c, write_json_error 400 (text "name, type, host, port required") w)
    else create_in v (new_profile v random_bytes r) c.proxy_store c w

abbrev not_found : Console → Writer → Console × Writer
not_found c w = (c, write_json_error 404 (text "proxy not found") w)

abbrev pub show_found : Visit → Option Profile → Console → Writer → Console × Writer
show_found v none c w = not_found c w
show_found v (some p) c w = (c, write_json 200 (profile_doc v.show_time p) w)

abbrev pub get_in : Visit → Option Proxy.Store → Console → Writer → Console × Writer
get_in v none c w = no_store c w
get_in v (some s) c w = show_found v (Proxy.get s v.path_value) c w

-- `GetProxy`
unfoldable pub get_proxy : Visit → Console → Writer → Console × Writer
get_proxy v c w = get_in v c.proxy_store c w

abbrev pub or_text : Text → Text → Text
or_text given old = if is_empty given then old else given

abbrev pub or_bool : Option Bool → Bool → Bool
or_bool none old = old
or_bool (some b) old = b

-- The request's fields that are not empty, over the old ones.
unfoldable pub apply_fields : ProxyRequest → ℕ → Profile → Profile
apply_fields r now p = record p {
  name = or_text r.name p.name;
  kind = or_text r.kind p.kind;
  host = or_text r.host p.host;
  port = if ltb_ℤ (pos 0) r.port then r.port else p.port;
  username = or_text r.username p.username;
  password = or_text r.password p.password;
  enabled = or_bool r.enabled p.enabled;
  updated_at = now;
}

-- The profile is changed in place, where the store holds it, and then saved.
abbrev pub update_found :
    Visit
    → Decoded ProxyRequest
    → Proxy.Store
    → Option Profile
    → Console
    → Writer
    → Console × Writer
update_found v request s none c w = not_found c w
update_found v (malformed e) s (some p) c w =
    (c, write_json_error 400 (text "invalid JSON: " ++ e) w)
update_found v (decoded r) s (some p) c w =
    let p' = apply_fields r (v.now 0) p in
    (
      log_change v (text "proxies")
          (record c { proxy_store = some (Proxy.save (insert v.path_value p' s) p') }),
      write_json 200 (profile_doc v.show_time p') w,
    )

abbrev pub update_in :
    Visit → Decoded ProxyRequest → Option Proxy.Store → Console → Writer → Console × Writer
update_in v request none c w = no_store c w
update_in v request (some s) c w = update_found v request s (Proxy.get s v.path_value) c w

-- `UpdateProxy`
unfoldable pub update_proxy : Visit → Decoded ProxyRequest → Console → Writer → Console × Writer
update_proxy v request c w = update_in v request c.proxy_store c w

abbrev pub delete_found : Visit → Option Proxy.Store → Console → Writer → Console × Writer
delete_found v none c w = not_found c w
delete_found v (some s) c w =
    (log_change v (text "proxies") (record c { proxy_store = some s }), write_header 204 w)

abbrev pub delete_in : Visit → Option Proxy.Store → Console → Writer → Console × Writer
delete_in v none c w = no_store c w
delete_in v (some s) c w = delete_found v (Proxy.delete s v.path_value) c w

-- `DeleteProxy`
unfoldable pub delete_proxy : Visit → Console → Writer → Console × Writer
delete_proxy v c w = delete_in v c.proxy_store c w
