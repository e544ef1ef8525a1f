-- ===== src/Middleware.antt =====
-- internal/api/middleware.go and internal/api/adminauth.go: the request identifier, the recovery from
-- a panic, the answers to cross-origin requests, and the administrator's token. The logging
-- middleware only logs.
mod Examples
pub mod Origins
pub mod Admin
use ai_proxy_centranity.Base.{
  Bool, true, false, not, ◌||◌, Option, none, some, ℕ, List, [], ◌∷◌, length, take, drop, any, leb,
  if◌then◌else◌,
}
use ai_proxy_centranity.Base.Text.{Text, text, ◌==◌, is_empty}
use ai_proxy_centranity.Auth.{hex_encode, bearer}
use ai_proxy_centranity.Http.{Writer, set, add, write_header, write_json, error_doc}

-- `generateID` of the bytes that crypto/rand delivers.
unfoldable pub generate_id : List ℕ → Text
generate_id random_bytes = hex_encode random_bytes

-- `RequestIDMiddleware`: the identifier that the next handler finds in the context, and the response.
unfoldable pub request_id : List ℕ → Text → Writer → Text × Writer
request_id random_bytes header w =
    let id = if is_empty header then generate_id random_bytes else header in
    (id, set (text "X-Request-ID") id w)

-- How the next handler has ended, with the response as it left it.
pub data Ending : Type 0 where
  returned : Writer → Ending
  panicked : Writer → Ending

-- `RecoveryMiddleware`
unfoldable pub recover : Ending → Writer
recover (returned w) = w
recover (panicked w) =
    write_json 500
      (error_doc (text "Internal server error") (text "internal_error") (text "panic_recovery")) w

unfoldable pub allow_all : List Text → Bool
allow_all allowed = any (λ a. a == text "*") allowed

unfoldable pub origin_allowed : List Text → Text → Bool
origin_allowed allowed origin = any (λ a. a == origin) allowed

abbrev pub origin_header : Text
origin_header = text "Access-Control-Allow-Origin"

abbrev pub grant : List Text → Text → Writer → Writer
grant allowed origin w =
    if allow_all allowed
    then set origin_header (text "*") w
    else if origin_allowed allowed origin
    then add (text "Vary") (text "Origin") (set origin_header origin w)
    else w

abbrev pub allow_methods : Writer → Writer
allow_methods w =
    set (text "Access-Control-Allow-Headers") (text "Content-Type, Authorization, X-Request-ID")
      (set (text "Access-Control-Allow-Methods") (text "GET, POST, PUT, DELETE, OPTIONS") w)

-- `CORSMiddleware`: the response, and whether the next handler is called.
unfoldable pub cors : List Text → Text → Text → Writer → Writer × Bool
cors allowed method origin w =
    let w' = if is_empty origin then w else allow_methods (grant allowed origin w) in
    if method == text "OPTIONS" then (write_header 200 w', false) else (w', true)

-- `validAdminToken`; `subtle.ConstantTimeCompare` is 1 exactly for equal bytes.
unfoldable pub valid_admin_token : Text → Text → Bool
valid_admin_token configured header =
    if is_empty configured
    then false
    else if leb (length header) (length bearer) || not (take (length bearer) header == bearer)
    then false
    else drop (length bearer) header == configured

-- `AdminAuthMiddleware`: the response, and whether the next handler is called.
unfoldable pub admin_auth : Text → Text → Writer → Writer × Bool
admin_auth token header w =
    if not (valid_admin_token token header)
    then (
      write_json 401 (error_doc (text "Unauthorized") (text "auth_error") (text "unauthorized")) w,
      false,
    )
    else (w, true)
