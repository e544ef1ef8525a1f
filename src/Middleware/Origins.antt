-- ===== src/Middleware/Origins.antt =====
-- Which origins internal/api/middleware.go grants access.
use ai_proxy_centranity.Base.{
  ap, some, ◌++◌, ◌∙◌, if◌then◌else◌, any, ◌≡◌, ◌≢◌, ◌↔◌, ◌⊎◌, true, none, List, [], ◌∷◌, Any,
  any_iff, Any-map, arith,
}
use ai_proxy_centranity.Base.Text.{is_empty, ◌==◌, Text, text, eq_iff, is_empty_iff}
use ai_proxy_centranity.Base.Assoc.{lookup-insert_self, insert, lookup, lookup-insert}
use ai_proxy_centranity.Http.{all_of, add_header, set_header, add, write_header, set, Writer}
use ai_proxy_centranity.Middleware.{
  grant, allow_methods, cors, allow_all, origin_allowed, origin_header,
}

pub any-eq_iff : (o : Text) (xs : List Text) → (any (λ a. a == o) xs ≡ true) ↔ Any (λ a. a ≡ o) xs
any-eq_iff o xs =
    let (to, from) = any_iff (λ a. a == o) xs in
    (λ h. Any-map xs (λ x. (eq_iff x o).0) (to h), λ h. from (Any-map xs (λ x. (eq_iff x o).1) h))

allow_methods-lookup :
    (w : Writer) → lookup origin_header (allow_methods w).header ≡ lookup origin_header w.header
unfolding ◌==◌ set set_header
allow_methods-lookup w =
    let methods = text "GET, POST, PUT, DELETE, OPTIONS" ∷ [] in
    let name = text "Access-Control-Allow-Methods" in
    lookup-insert (text "Access-Control-Allow-Headers") origin_header _
      (insert name methods w.header)
    ∙ lookup-insert name origin_header methods w.header

grant_iff :
    (allowed : List Text) (origin : Text) (w : Writer)
    → lookup origin_header w.header ≡ none
    → (lookup origin_header (grant allowed origin w).header ≢ none)
      ↔ (Any (λ a. a ≡ text "*") allowed ⊎ Any (λ a. a ≡ origin) allowed)
unfolding allow_all origin_allowed ◌==◌ set add set_header add_header
grant_iff allowed origin w h =
    let granted = set origin_header origin w in
    ground (
      arith,
      any-eq_iff (text "*") allowed,
      any-eq_iff origin allowed,
      lookup-insert_self origin_header (text "*" ∷ []) w.header,
      lookup-insert_self origin_header (origin ∷ []) w.header,
      lookup-insert (text "Vary") origin_header
          (all_of (lookup (text "Vary") granted.header) ++ text "Origin" ∷ []) granted.header,
    )

-- A response that grants no origin yet grants one exactly if the request names its origin and the
-- list holds the wildcard or that origin, whatever the method.
pub cors_iff :
    (allowed : List Text) (method origin : Text) (w : Writer)
    → lookup origin_header w.header ≡ none
    → (lookup origin_header (cors allowed method origin w).0.header ≢ none)
      ↔ ((origin ≢ []) × (Any (λ a. a ≡ text "*") allowed ⊎ Any (λ a. a ≡ origin) allowed))
unfolding cors write_header
cors_iff allowed method origin w h =
    let w' = if is_empty origin then w else allow_methods (grant allowed origin w) in
    ground (
      arith,
      is_empty_iff origin,
      grant_iff allowed origin w h,
      allow_methods-lookup (grant allowed origin w),
    )

grant_star :
    (allowed : List Text) (origin : Text) (w : Writer)
    → lookup origin_header w.header ≡ none
    → lookup origin_header (grant allowed origin w).header ≡ some (text "*" ∷ [])
    → any (λ a. a == text "*") allowed ≡ true
unfolding allow_all origin_allowed ◌==◌ set add set_header add_header
grant_star allowed origin w h e =
    let granted = set origin_header origin w in
    ground (
      arith,
      lookup-insert_self origin_header (text "*" ∷ []) w.header,
      lookup-insert_self origin_header (origin ∷ []) w.header,
      lookup-insert (text "Vary") origin_header
          (all_of (lookup (text "Vary") granted.header) ++ text "Origin" ∷ []) granted.header,
      λ (same : origin ≡ text "*"). ap (λ o. any (λ a. a == o) allowed) same,
    )

-- Only a list that holds the wildcard grants the wildcard.
pub cors_star :
    (allowed : List Text) (method origin : Text) (w : Writer)
    → lookup origin_header w.header ≡ none
    → lookup origin_header (cors allowed method origin w).0.header ≡ some (text "*" ∷ [])
    → Any (λ a. a ≡ text "*") allowed
unfolding cors write_header
cors_star allowed method origin w h e = ground (
  arith,
  grant_star allowed origin w h,
  any-eq_iff (text "*") allowed,
  allow_methods-lookup (grant allowed origin w),
)
