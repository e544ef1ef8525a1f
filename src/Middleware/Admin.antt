-- ===== src/Middleware/Admin.antt =====
-- Whom the administrator's token of internal/api/adminauth.go lets in.
use ai_proxy_centranity.Base.{
  length-append, leb, ◌≡◌, ◌≢◌, ◌↔◌, true, false, [], ◌∷◌, ◌++◌, length, take, drop, arith,
}
use ai_proxy_centranity.Base.Text.{Text, eq_iff, is_empty_iff}
use ai_proxy_centranity.Auth.{bearer}
use ai_proxy_centranity.Http.{Writer}
use ai_proxy_centranity.Middleware.{valid_admin_token, admin_auth}

take-drop_iff : (p h t : Text) → ((take (length p) h ≡ p) × (drop (length p) h ≡ t)) ↔ (h ≡ p ++ t)
take-drop_iff [] h t = ground arith
take-drop_iff (a ∷ p) [] t = ground arith
take-drop_iff (a ∷ p) (b ∷ h) t = ground (arith, take-drop_iff p h t)

longer : (p t h : Text) → t ≢ [] → h ≡ p ++ t → leb (length h) (length p) ≡ false
longer p [] h n e = ground arith
longer p (c ∷ t) h n e = rw (e, length-append p (c ∷ t)) (ground arith)

-- The next handler is called exactly if a token is configured and the Authorization header is "Bearer "
-- and that token, byte for byte.
pub admin_auth_iff :
    (token header : Text) (w : Writer)
    → ((admin_auth token header w).1 ≡ true) ↔ ((token ≢ []) × (header ≡ bearer ++ token))
unfolding admin_auth valid_admin_token
admin_auth_iff token header w = ground (
  arith,
  is_empty_iff token,
  eq_iff (take (length bearer) header) bearer,
  eq_iff (drop (length bearer) header) token,
  take-drop_iff bearer header token,
  longer bearer token header,
)
