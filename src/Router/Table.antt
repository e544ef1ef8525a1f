-- ===== src/Router/Table.antt =====
-- The patterns that internal/api/router.go registers, and how ServeMux chooses among them: by the
-- method and by the segments of a path that is already clean. No two patterns below fit the same
-- request but `GET /`, which fits every path and stands behind all the others.
use ai_proxy_centranity.Base.{
  Bool, true, ◌&&◌, ◌||◌, Option, none, some, List, [], ◌∷◌, if◌then◌else◌,
}
use ai_proxy_centranity.Base.Text.{Text, text, ◌==◌, is_empty}
use ai_proxy_centranity.Management.Operations
use ai_proxy_centranity.Management.Operations.{Operation}
use ai_proxy_centranity.Router.State.{Call}

-- A segment of a pattern: a fixed text, or `{id}`, which takes one that is not empty.
pub data Segment : Type 0 where
  fixed : Text → Segment
  any_one : Segment

-- What a pattern leads to.
pub data Target : Type 0 where
  live : Target
  ready : Target
  metrics : Target
  models : Target
  chat : Target
  manage : (Call → Operation) → Target
  root : Target

-- The segments of a pattern, or every path.
pub data Pattern : Type 0 where
  path : List Segment → Pattern
  everything : Pattern

pub record Route : Type 0 where
  pub method : Text
  pub pattern : Pattern
  pub target : Target

abbrev api : Text → List Segment → Pattern
api name rest = path (fixed (text "api") ∷ fixed (text "v1") ∷ fixed name ∷ rest)

abbrev on : Text → Pattern → Target → Route
on method pattern target = record { method = method; pattern = pattern; target = target }

-- The calls of `mux.Handle` and `mux.HandleFunc`.
unfoldable pub routes : List Route
routes =
    on (text "GET") (path (fixed (text "health") ∷ fixed (text "live") ∷ [])) live
    ∷ on (text "GET") (path (fixed (text "health") ∷ fixed (text "ready") ∷ [])) ready
    ∷ on (text "GET") (path (fixed (text "metrics") ∷ [])) metrics
    ∷ on (text "GET") (path (fixed (text "v1") ∷ fixed (text "models") ∷ [])) models
    ∷ on (text "POST")
        (path (fixed (text "v1") ∷ fixed (text "chat") ∷ fixed (text "completions") ∷ [])) chat
    ∷ on (text "GET") (api (text "system") []) (manage (λ c. Operations.get_system c.runtime))
    ∷ on (text "GET") (api (text "overview") [])
        (manage (λ c. Operations.get_overview (some c.upstream_models)))
    ∷ on (text "GET") (api (text "proxies") []) (manage (λ c. Operations.get_proxies))
    ∷ on (text "POST") (api (text "proxies") [])
        (manage (λ c. Operations.create_proxy c.profile_bytes c.profile_body))
    ∷ on (text "GET") (api (text "proxies") (any_one ∷ [])) (manage (λ c. Operations.get_proxy))
    ∷ on (text "PUT") (api (text "proxies") (any_one ∷ []))
        (manage (λ c. Operations.update_proxy c.profile_body))
    ∷ on (text "DELETE") (api (text "proxies") (any_one ∷ []))
        (manage (λ c. Operations.delete_proxy))
    ∷ on (text "GET") (api (text "keys") []) (manage (λ c. Operations.list_keys))
    ∷ on (text "POST") (api (text "keys") [])
        (manage (λ c. Operations.create_key c.random_bytes c.key_body))
    ∷ on (text "PUT") (api (text "keys") (any_one ∷ []))
        (manage (λ c. Operations.update_key c.key_body))
    ∷ on (text "DELETE") (api (text "keys") (any_one ∷ [])) (manage (λ c. Operations.delete_key))
    ∷ on (text "GET") (api (text "policies") []) (manage (λ c. Operations.get_policies))
    ∷ on (text "PUT") (api (text "policies") [])
        (manage (λ c. Operations.update_policies c.policies_body))
    ∷ on (text "GET") (api (text "routes") []) (manage (λ c. Operations.list_routes))
    ∷ on (text "PUT") (api (text "routes") (any_one ∷ []))
        (manage (λ c. Operations.update_route c.targets_body))
    ∷ on (text "DELETE") (api (text "routes") (any_one ∷ []))
        (manage (λ c. Operations.delete_route))
    ∷ on (text "GET") everything root
    ∷ []

-- The value of the last wildcard, or nothing where the segments do not fit.
unfoldable pub fit : List Segment → List Text → Text → Option Text
fit [] [] value = some value
fit [] (s ∷ ss) value = none
fit (p ∷ ps) [] value = none
fit (fixed t ∷ ps) (s ∷ ss) value = let rest = fit ps ss value in if t == s then rest else none
fit (any_one ∷ ps) (s ∷ ss) value = let rest = fit ps ss s in if is_empty s then none else rest

abbrev pub fit_pattern : Pattern → List Text → Option Text
fit_pattern (path ps) ss = fit ps ss []
fit_pattern everything ss = some []

-- A pattern for GET takes HEAD as well.
abbrev pub method_fits : Text → Text → Bool
method_fits wanted method = wanted == method || wanted == text "GET" && method == text "HEAD"

abbrev pub take_if : Bool → Option Text → Target → Option (Target × Text) → Option (Target × Text)
take_if true (some value) target rest = some (target, value)
take_if _ _ target rest = rest

unfoldable pub find : List Route → Text → List Text → Option (Target × Text)
find [] method ss = none
find (r ∷ rs) method ss =
    take_if (method_fits r.method method) (fit_pattern r.pattern ss) r.target (find rs method ss)

abbrev listed_if : Option (Target × Text) → Text → List Text → List Text
listed_if none method rest = rest
listed_if (some t) method rest = method ∷ rest

abbrev list_method : List Text → Text → List Text → List Text
list_method ss method rest = listed_if (find routes method ss) method rest

-- The methods, in the order of the alphabet, for which some pattern fits the path.
unfoldable pub allowed_methods : List Text → List Text
allowed_methods ss = list_method ss (text "DELETE") (
    list_method ss (text "GET") (
      list_method ss (text "HEAD") (list_method ss (text "POST") (list_method ss (text "PUT") []))))
