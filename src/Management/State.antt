-- ===== src/Management/State.antt =====
-- The state that the handlers of internal/api/management.go share, and what a request brings.
use ai_proxy_centranity.Base.{ℕ, Option, List, [], ◌∷◌}
use ai_proxy_centranity.Base.Text.{Text, text}
use ai_proxy_centranity.Audit
use ai_proxy_centranity.Audit.{event_config_changed}
use ai_proxy_centranity.Auth.{KeyStore}
use ai_proxy_centranity.Http.{
  Json, Items, str, arr, obj, field, end, nil, cons, Writer, set, write, write_json, json,
}
use ai_proxy_centranity.Policy
use ai_proxy_centranity.Proxy
use ai_proxy_centranity.Routing.Engine
use ai_proxy_centranity.Dataplane.State.{emit}

-- `ManagementHandler`, less the adapter. The routing engine is always set.
pub record Console : Type 0 where
  pub key_store : Option KeyStore
  pub route_engine : Engine.Engine
  pub policy_engine : Option Policy.Engine
  pub proxy_store : Option Proxy.Store
  pub audit_store : Option Audit.Store

-- A request: its path, the `{id}` or `{alias}` of the pattern, the times that are read in turn, the
-- identifier and the time of its audit event, and how encoding/json writes a time.
pub record Visit : Type 0 where
  pub path : Text
  pub path_value : Text
  pub now : ℕ → ℕ
  pub audit_id : Text
  pub audit_now : ℕ
  pub show_time : ℕ → Text

-- `h.logAudit(..., audit.EventConfigChanged, "admin", r.URL.Path, "changed", ...)`
unfoldable pub changed : Visit → Text → Option Audit.Store → Option Audit.Store
changed v resource =
    emit v.audit_id v.audit_now event_config_changed (text "admin") v.path (text "changed")
      ((text "resource", resource) ∷ [])

unfoldable pub log_change : Visit → Text → Console → Console
log_change v resource c = record c { audit_store = changed v resource c.audit_store }

-- `writeJSONError`
unfoldable pub write_json_error : ℕ → Text → Writer → Writer
write_json_error status message w =
    write_json status (obj (field (text "error") (str message) end)) w

-- The content type and a document, with no status: 200 is implied.
unfoldable pub write_doc : Json → Writer → Writer
write_doc doc w = write (json doc) (set (text "Content-Type") (text "application/json") w)

abbrev texts_of : List Text → Items
texts_of [] = nil
texts_of (s ∷ ss) = cons (str s) (texts_of ss)

abbrev pub text_list : List Text → Json
text_list ss = arr (texts_of ss)
