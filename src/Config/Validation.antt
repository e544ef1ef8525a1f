-- ===== src/Config/Validation.antt =====
-- What a configuration that internal/config/config.go has loaded guarantees, also to the cross-origin
-- middleware of internal/api/middleware.go.
use ai_proxy_centranity.Base.{
  subst, ◌≡◌, ◌≢◌, ◌↔◌, Option, none, some, List, [], ◌∷◌, Any, arith, refl,
}
use ai_proxy_centranity.Base.Int.{pos, ◌≤ℤ◌, ◌<ℤ◌}
use ai_proxy_centranity.Base.Text.{Text, text, is_empty_iff, to_lower, equal_fold_iff}
use ai_proxy_centranity.Base.Assoc.{lookup}
use ai_proxy_centranity.Http.{Writer}
use ai_proxy_centranity.Config.{
  Config, Source, validate, check_origins, read, loaded, load, or_invalid,
}
use ai_proxy_centranity.Middleware.{cors, origin_header}
use ai_proxy_centranity.Middleware.Origins.{any-eq_iff, cors_star}

-- In production, whose name counts up to case.
abbrev pub IsProduction : Config → Type 0
IsProduction c = to_lower c.server.env ≡ text "production"

abbrev pub IsValid : Config → Type 0
IsValid c =
    (pos 0 <ℤ c.server.port)
    × (c.server.port ≤ℤ pos 65535)
    × (c.nine_router.base_url ≢ [])
    × (IsProduction c
        → (c.admin.allowed_origins ≢ []) × ¬ Any (λ o. o ≡ text "*") c.admin.allowed_origins)

check_origins_iff :
    (os : List Text) → (check_origins os ≡ none) ↔ ((os ≢ []) × ¬ Any (λ o. o ≡ text "*") os)
check_origins_iff [] = ground arith
check_origins_iff (o ∷ os) = ground (arith, any-eq_iff (text "*") (o ∷ os))

to_lower_production : to_lower (text "production") ≡ text "production"
unfolding to_lower
to_lower_production = refl

-- A configuration is valid exactly if its port is from 1 to 65535, the address of 9router is not
-- empty and, in production, its list of origins is not empty and does not hold the wildcard.
pub validate_iff : (c : Config) → (validate c ≡ none) ↔ IsValid c
unfolding validate
validate_iff c = ground (
  arith,
  is_empty_iff c.nine_router.base_url,
  equal_fold_iff c.server.env (text "production"),
  to_lower_production,
  check_origins_iff c.admin.allowed_origins,
)

or_invalid-loaded :
    (read_in c : Config) (e : Option Text)
    → or_invalid read_in e ≡ loaded c
    → (e ≡ none) × (read_in ≡ c)
or_invalid-loaded read_in c none h = ground (arith, h)
or_invalid-loaded read_in c (some e) h = ground (arith, h)

load-IsValid : (s : Source) (c : Config) → load s ≡ loaded c → IsValid c
unfolding load
load-IsValid s c e =
    let (passed, same) = or_invalid-loaded (read s) c (validate (read s)) e in
    (validate_iff c).0 (subst (λ x. validate x ≡ none) same passed)

-- A server whose configuration was loaded for production grants the wildcard to no cross-origin
-- request: no response that had no grant yet gets it, whatever the method and the origin.
pub load-cors :
    (s : Source) (c : Config) (method origin : Text) (w : Writer)
    → load s ≡ loaded c
    → IsProduction c
    → lookup origin_header w.header ≡ none
    → lookup origin_header (cors c.admin.allowed_origins method origin w).0.header
      ≢ some (text "*" ∷ [])
load-cors s c method origin w e p h star =
    let valid = load-IsValid s c e in
    (valid.3 p).1 (cors_star c.admin.allowed_origins method origin w h star)
