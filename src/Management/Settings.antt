-- ===== src/Management/Settings.antt =====
-- The handlers of /api/v1/policies, /api/v1/routes, /api/v1/system and /api/v1/overview in
-- internal/api/management.go.
use ai_proxy_centranity.Base.{ℕ, Option, none, some, List, [], ◌∷◌, ◌++◌, length}
use ai_proxy_centranity.Base.Int.{ℤ, pos}
use ai_proxy_centranity.Base.Text.{Text, text}
use ai_proxy_centranity.Base.Assoc.{Assoc}
use ai_proxy_centranity.Http.{
  decimal, Json, Fields, null, str, num, obj, field, end, Writer, write_header, write_json, Decoded,
  decoded, malformed,
}
use ai_proxy_centranity.Ninerouter.{ModelInfo}
use ai_proxy_centranity.Policy
use ai_proxy_centranity.Proxy
use ai_proxy_centranity.Routing.Engine
use ai_proxy_centranity.Management.State.{
  Console, Visit, log_change, write_json_error, write_doc, text_list,
}

-- What `runtime` and `time.Since` deliver; the uptime as its decimal text.
pub record Runtime : Type 0 where
  pub go_version : Text
  pub arch : Text
  pub num_cpu : ℤ
  pub uptime_sec : Text

-- `GetSystem`
unfoldable pub get_system : Runtime → Visit → Console → Writer → Console × Writer
get_system r v c w = (
  c,
  write_json 200
      (obj (
        field (text "name") (str (text "ProxyGateway Enterprise")) (
          field (text "version") (str (text "2.0")) (
            field (text "status") (str (text "operational")) (
              field (text "go_version") (str r.go_version) (
                field (text "arch") (str r.arch) (
                  field (text "num_cpu") (num r.num_cpu) (
                    field (text "uptime_sec") (decimal r.uptime_sec)
                      (field (text "timestamp") (str (v.show_time (v.now 0))) end)))))))))
      w,
)

abbrev count_models : Option (Decoded (List ModelInfo)) → ℕ
count_models none = 0
count_models (some (malformed e)) = 0
count_models (some (decoded models)) = length models

abbrev pub count_proxies : Option Proxy.Store → ℕ
count_proxies none = 0
count_proxies (some s) = length (Proxy.list s)

-- `GetOverview`; `upstream` is what the adapter's ListModels gives, if there is an adapter.
unfoldable pub get_overview :
    Option (Decoded (List ModelInfo)) → Visit → Console → Writer → Console × Writer
get_overview upstream v c w = (
  c,
  write_json 200
      (obj (
        field (text "status") (str (text "ok")) (
          field (text "models_count") (num (pos (count_models upstream))) (
            field (text "routes_count") (num (pos 5)) (
              field (text "proxies_count") (num (pos (count_proxies c.proxy_store)))
                (field (text "timestamp") (str (v.show_time (v.now 0))) end))))))
      w,
)

-- A copy by `append([]string(nil), ...)`: of an empty list it is nil, which is written null.
abbrev copied_list : List Text → Json
copied_list [] = null
copied_list (s ∷ ss) = text_list (s ∷ ss)

abbrev denied : Option Policy.Engine → List Text × List Text
denied none = ([], [])
denied (some e) = Policy.get_global_deny e

-- `GetPolicies`
unfoldable pub get_policies : Visit → Console → Writer → Console × Writer
get_policies v c w =
    let (models, providers) = denied c.policy_engine in
    (
      c,
      write_doc
          (obj (
            field (text "models") (copied_list models)
              (field (text "providers") (copied_list providers) end)))
          w,
    )

-- `PoliciesResponse` as a request.
pub record PoliciesRequest : Type 0 where
  pub models : List Text
  pub providers : List Text

abbrev pub deny_in :
    Visit → PoliciesRequest → Option Policy.Engine → Console → Writer → Console × Writer
deny_in v r none c w = (c, write_json_error 500 (text "policy engine unavailable") w)
deny_in v r (some e) c w = (
  log_change v (text "policies")
      (record c { policy_engine = some (Policy.set_global_deny e r.models r.providers) }),
  write_header 200 w,
)

-- `UpdatePolicies`
unfoldable pub update_policies :
    Visit → Decoded PoliciesRequest → Console → Writer → Console × Writer
update_policies v (malformed e) c w = (c, write_json_error 400 (text "invalid JSON: " ++ e) w)
update_policies v (decoded r) c w = deny_in v r c.policy_engine c w

abbrev routes_of : Assoc (List Text) → Fields
routes_of [] = end
routes_of ((alias, targets) ∷ m) = field alias (copied_list targets) (routes_of m)

-- `ListRoutes`
unfoldable pub list_routes : Visit → Console → Writer → Console × Writer
list_routes v c w = (
  c,
  write_doc (obj (field (text "routes") (obj (routes_of (Engine.get_aliases c.route_engine))) end))
      w,
)

abbrev pub set_targets : Visit → List Text → Console → Writer → Console × Writer
set_targets v [] c w = (c, write_json_error 400 (text "targets required") w)
set_targets v (t ∷ ts) c w = (
  log_change v (text "routes")
      (record c { route_engine = Engine.set_alias c.route_engine v.path_value (t ∷ ts) }),
  write_header 200 w,
)

-- `UpdateRoute`, with the targets of the request.
unfoldable pub update_route : Visit → Decoded (List Text) → Console → Writer → Console × Writer
update_route v (malformed e) c w = (c, write_json_error 400 (text "invalid JSON: " ++ e) w)
update_route v (decoded targets) c w = set_targets v targets c w

abbrev pub deleted_route : Visit → Option Engine.Engine → Console → Writer → Console × Writer
deleted_route v none c w = (c, write_json_error 404 (text "alias not found") w)
deleted_route v (some e) c w =
    (log_change v (text "routes") (record c { route_engine = e }), write_header 204 w)

-- `DeleteRoute`
unfoldable pub delete_route : Visit → Console → Writer → Console × Writer
delete_route v c w = deleted_route v (Engine.delete_alias c.route_engine v.path_value) c w
