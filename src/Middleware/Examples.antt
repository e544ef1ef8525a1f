-- ===== src/Middleware/Examples.antt =====
-- Concrete runs of the theorems on internal/api/middleware.go and adminauth.go.
use ai_proxy_centranity.Base.{◌≡◌, ◌≢◌, ◌↔◌, ◌⊎◌, true, none, List, [], ◌∷◌, ◌++◌, Any, refl}
use ai_proxy_centranity.Base.Text.{Text, text}
use ai_proxy_centranity.Base.Assoc.{lookup}
use ai_proxy_centranity.Auth.{bearer}
use ai_proxy_centranity.Http.{fresh}
use ai_proxy_centranity.Middleware.{cors, admin_auth, origin_header}
use ai_proxy_centranity.Middleware.Admin.{admin_auth_iff}
use ai_proxy_centranity.Middleware.Origins.{cors_iff}

abbrev allowed : List Text
allowed = text "https://a.example" ∷ text "https://b.example" ∷ []

admin_auth_iff_example :
    ((admin_auth (text "s3cret") (text "Bearer s3cret") fresh).1 ≡ true)
    ↔ ((text "s3cret" ≢ []) × (text "Bearer s3cret" ≡ bearer ++ text "s3cret"))
admin_auth_iff_example = admin_auth_iff (text "s3cret") (text "Bearer s3cret") fresh

cors_iff_example :
    (lookup origin_header (cors allowed (text "OPTIONS") (text "https://b.example") fresh).0.header
      ≢ none)
    ↔ ((text "https://b.example" ≢ [])
        × (Any (λ a. a ≡ text "*") allowed ⊎ Any (λ a. a ≡ text "https://b.example") allowed))
unfolding lookup
cors_iff_example = cors_iff allowed (text "OPTIONS") (text "https://b.example") fresh refl
