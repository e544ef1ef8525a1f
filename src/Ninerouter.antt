-- ===== src/Ninerouter.antt =====
-- internal/ninerouter/client.go: the adapter's settings, the requests that it builds and what it
-- makes of the answers. The HTTP transport is a parameter: a function from requests to answers.
mod Examples
pub mod Headers
use ai_proxy_centranity.Base.{
  ℕ, not, ◌||◌, Option, none, some, List, [], ◌∷◌, ◌++◌, eqb, if◌then◌else◌,
}
use ai_proxy_centranity.Base.Int.{ℤ, pos, leb_ℤ}
use ai_proxy_centranity.Base.Text.{Text, text, trim_right, equal_fold, is_empty}
use ai_proxy_centranity.Base.Assoc.{Assoc}
use ai_proxy_centranity.Http.{
  Header, Json, Decoded, decoded, malformed, set_header, add_header, show_nat,
}

pub record ModelInfo : Type 0 where
  pub id : Text
  pub object : Text
  pub owned_by : Text

pub record Config : Type 0 where
  pub base_url : Text
  pub api_key : Text
  pub timeout : ℤ

abbrev pub err_upstream_auth : Text
err_upstream_auth = text "UPSTREAM_AUTH_ERROR"

abbrev pub err_upstream_rate_limit : Text
err_upstream_rate_limit = text "UPSTREAM_RATE_LIMIT"

abbrev pub err_upstream_unavail : Text
err_upstream_unavail = text "UPSTREAM_UNAVAILABLE"

abbrev pub err_upstream_unreach : Text
err_upstream_unreach = text "UPSTREAM_UNREACHABLE"

pub record HttpAdapter : Type 0 where
  pub base_url : Text
  pub api_key : Text
  pub timeout : ℤ

-- `NewHTTPAdapter`
unfoldable pub new_http_adapter : Config → HttpAdapter
new_http_adapter cfg = record {
  base_url = trim_right cfg.base_url b'/';
  api_key = cfg.api_key;
  timeout = if leb_ℤ cfg.timeout (pos 0) then pos 30000000000 else cfg.timeout;
}

-- The body of a chat request: the payload's fields, as marshalled.
abbrev pub Payload : Type 0
Payload = Assoc Json

pub record Request : Type 0 where
  pub method : Text
  pub url : Text
  pub header : Header
  pub body : Payload

-- A response; `chunks` are what successive reads of its body deliver until its end.
pub record Response : Type 0 where
  pub status : ℕ
  pub header : Header
  pub chunks : List Text

pub data Answer : Type 0 where
  failed : Text → Answer
  responded : Response → Answer

unfoldable pub bearer_of : Text → Header → Header
bearer_of api_key h =
    if is_empty api_key then h else set_header (text "Authorization") (text "Bearer " ++ api_key) h

-- The inner loop: `req.Header.Add(key, value)` for each value.
unfoldable pub add_all : Text → List Text → Header → Header
add_all k [] h = h
add_all k (v ∷ vs) h = add_all k vs (add_header k v h)

-- The outer loop, which skips the client's Authorization header.
unfoldable pub copy_headers : Header → Header → Header
copy_headers [] out = out
copy_headers ((k, vs) ∷ hs) out =
    copy_headers hs (if equal_fold k (text "Authorization") then out else add_all k vs out)

-- The request of `ForwardChatCompletion`.
unfoldable pub forward_request : HttpAdapter → Payload → Header → Request
forward_request a body headers = record {
  method = text "POST";
  url = a.base_url ++ text "/v1/chat/completions";
  header = bearer_of a.api_key (copy_headers headers []);
  body = body;
}

unfoldable pub forward_chat_completion :
    (Request → Answer) → HttpAdapter → Payload → Header → Answer
forward_chat_completion round_trip a body headers = round_trip (forward_request a body headers)

unfoldable pub get_request : HttpAdapter → Text → Header → Request
get_request a path header = record {
  method = text "GET";
  url = a.base_url ++ path;
  header = header;
  body = [];
}

-- `CheckHealth`: the error's text, or none.
unfoldable pub check_health : (Request → Answer) → HttpAdapter → Option Text
check_health client a = elim (client (get_request a (text "/api/health") [])) [
  | failed e ↦ some (text "9router unreachable: " ++ e)
  | responded r ↦
      if eqb r.status 200
      then none
      else some (text "9router returned non-200 status: " ++ show_nat r.status)
]

abbrev all_chunks : List Text → Text
all_chunks [] = []
all_chunks (c ∷ cs) = c ++ all_chunks cs

-- What `ListModels` makes of a response; `decode` is the JSON decoder at the response's type.
unfoldable pub read_models : (Text → Decoded (List ModelInfo)) → Response → Decoded (List ModelInfo)
read_models decode r =
    if eqb r.status 401 || eqb r.status 403
    then malformed (text "9router authentication failed (status " ++ show_nat r.status ++ text ")")
    else if not (eqb r.status 200)
    then malformed (
        text "9router returned error (status "
        ++ show_nat r.status
        ++ text "): "
        ++ all_chunks r.chunks)
    else elim (decode (all_chunks r.chunks)) [
      | decoded models ↦ decoded models
      | malformed e ↦ malformed (text "failed to decode models response: " ++ e)
    ]

unfoldable pub list_models :
    (Request → Answer) → (Text → Decoded (List ModelInfo)) → HttpAdapter → Decoded (List ModelInfo)
unfolding read_models
list_models client decode a =
    elim (client (get_request a (text "/v1/models") (bearer_of a.api_key []))) [
      | failed e ↦ malformed (text "failed to execute models request: " ++ e)
      | responded r ↦ read_models decode r
    ]
