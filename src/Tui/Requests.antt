-- ===== src/Tui/Requests.antt =====
-- The requests that internal/tui/app.go sends to the management API. `%q` is a parameter.
use ai_proxy_centranity.Base.{Bool, Option, none, some, List, [], ◌∷◌, ◌++◌, if◌then◌else◌}
use ai_proxy_centranity.Base.Text.{Text, text, is_empty}
use ai_proxy_centranity.Base.Assoc.{Assoc, lookup}
use ai_proxy_centranity.Tui.Form.{
  FormState, Submission, gather, add_proxy, add_key, set_policies, add_route, edit_proxy, edit_key,
  edit_route,
}
use ai_proxy_centranity.Tui.State.{Model}

-- `strconv.Quote`, and whether `http.NewRequest` accepts a URL.
pub record Outside : Type 0 where
  pub quote : Text → Text
  pub is_url : Text → Bool

-- A request that `Do` sends; a header that is not set is empty.
pub record Sent : Type 0 where
  pub method : Text
  pub url : Text
  pub body : Text
  pub content_type : Text
  pub authorization : Text

-- `Do`, up to the answer, which no caller below reads.
unfoldable pub do_request : Outside → Model → Text → Text → Text → List Sent
do_request o m method path body =
    let url = m.api_url ++ path in
    if o.is_url url
    then record {
      method = method;
      url = url;
      body = body;
      content_type = if is_empty body then [] else text "application/json";
      authorization = if is_empty m.admin_token then [] else text "Bearer " ++ m.admin_token;
    }
      ∷ []
    else []

-- The six requests of `fetchData`, in their order.
unfoldable pub fetch_data : Outside → Model → List Sent
fetch_data o m =
    do_request o m (text "GET") (text "/api/v1/system") []
    ++ do_request o m (text "GET") (text "/api/v1/overview") []
    ++ do_request o m (text "GET") (text "/api/v1/keys") []
    ++ do_request o m (text "GET") (text "/api/v1/policies") []
    ++ do_request o m (text "GET") (text "/api/v1/routes") []
    ++ do_request o m (text "GET") (text "/api/v1/proxies") []

abbrev or_blank : Option Text → Text
or_blank none = []
or_blank (some s) = s

-- `v[label]`
abbrev value_of : Text → Assoc Text → Text
value_of label v = or_blank (lookup label v)

unfoldable pub proxy_body : Outside → Assoc Text → Text
proxy_body o v =
    text "{\"name\":"
    ++ o.quote (value_of (text "Name") v)
    ++ text ",\"host\":"
    ++ o.quote (value_of (text "Host") v)
    ++ text ",\"port\":"
    ++ value_of (text "Port") v
    ++ text ",\"type\":"
    ++ o.quote (value_of (text "Type") v)
    ++ text "}"

unfoldable pub key_body : Outside → Assoc Text → Text
key_body o v =
    text "{\"name\":"
    ++ o.quote (value_of (text "Name") v)
    ++ text ",\"rpmlimit\":"
    ++ value_of (text "RPMLimit") v
    ++ text "}"

unfoldable pub policies_body : Outside → Assoc Text → Text
policies_body o v =
    text "{\"models\":["
    ++ o.quote (value_of (text "Models") v)
    ++ text "],\"providers\":["
    ++ o.quote (value_of (text "Providers") v)
    ++ text "]}"

unfoldable pub route_body : Outside → Assoc Text → Text
route_body o v = text "{\"targets\":[" ++ o.quote (value_of (text "Targets") v) ++ text "]}"

-- The closures that the forms hold.
unfoldable pub submit_values : Outside → Model → Submission → Assoc Text → List Sent
submit_values o m add_proxy v =
    do_request o m (text "POST") (text "/api/v1/proxies") (proxy_body o v)
submit_values o m add_key v = do_request o m (text "POST") (text "/api/v1/keys") (key_body o v)
submit_values o m set_policies v =
    do_request o m (text "PUT") (text "/api/v1/policies") (policies_body o v)
submit_values o m add_route v =
    do_request o m (text "PUT") (text "/api/v1/routes/" ++ value_of (text "Alias") v)
      (route_body o v)
submit_values o m (edit_proxy id) v =
    do_request o m (text "PUT") (text "/api/v1/proxies/" ++ id) (proxy_body o v)
submit_values o m (edit_key id) v =
    do_request o m (text "PUT") (text "/api/v1/keys/" ++ id) (key_body o v)
submit_values o m (edit_route id) v =
    do_request o m (text "PUT") (text "/api/v1/routes/" ++ id) (route_body o v)

-- `Submit`; the closure's model is the one of the moment when the form was opened, whose address and
-- token are those of `m`.
unfoldable pub submit : Outside → Model → FormState → List Sent
submit o m f = submit_values o m f.on_submit (gather f.fields [])
