-- ===== src/Config/Examples.antt =====
-- Concrete runs of the theorems on internal/config/config.go.
use ai_proxy_centranity.Base.{◌≡◌, ◌≢◌, ◌↔◌, none, some, [], ◌∷◌, refl, computing, if◌then◌else◌}
use ai_proxy_centranity.Base.Text.{text, ◌==◌}
use ai_proxy_centranity.Base.Assoc.{lookup}
use ai_proxy_centranity.Http.{fresh}
use ai_proxy_centranity.Config.{
  Source, validate, read, load, get_env_string, get_env_int, get_env_duration, get_env_slice,
  trimmed,
}
use ai_proxy_centranity.Config.Validation.{IsValid, validate_iff, load-cors}
use ai_proxy_centranity.Middleware.{cors, origin_header}

-- An environment for production with two origins.
abbrev pub source : Source
source = record {
  getenv = λ key.
      if key == text "PG_ENV"
      then text "Production"
      else if key == text "PG_ADMIN_ALLOWED_ORIGINS"
      then text "https://a.example, ,https://b.example"
      else [];
  atoi = λ s. none;
  parse_duration = λ s. none;
}

validate_iff_example : (validate (read source) ≡ none) ↔ IsValid (read source)
validate_iff_example = validate_iff (read source)

load-cors_example :
    lookup origin_header
      (cors
        (read source).admin.allowed_origins
        (text "GET")
        (text "https://c.example")
        fresh).0.header
    ≢ some (text "*" ∷ [])
unfolding computing load read validate get_env_string get_env_int get_env_duration get_env_slice
    trimmed
load-cors_example =
    load-cors source (read source) (text "GET") (text "https://c.example") fresh refl refl refl
