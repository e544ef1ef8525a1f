-- ===== src/Router/Headers.antt =====
-- What the middleware of internal/api/middleware.go adds to a response before the handler runs: headers
-- only; and which requests it answers itself.
use ai_proxy_centranity.Base.{
  ◌∙◌, ap, sym, arith, some, ◌≡◌, refl, false, List, Bool-cases, inl, inr,
}
use ai_proxy_centranity.Base.Text.{eq_iff, Text, text, ◌==◌, is_empty}
use ai_proxy_centranity.Http.{get_header, Writer, set, add}
use ai_proxy_centranity.Router.State.{Server, Call, Handler}
use ai_proxy_centranity.Router.Wrapping.{shared}
use ai_proxy_centranity.Router.Table.{Target, find, routes}
use ai_proxy_centranity.Middleware.{cors, grant, allow_all, origin_allowed}

-- All but the headers is the same.
abbrev pub IsBarely : Writer → Writer → Type 0
IsBarely w x = (x.sent ≡ w.sent) × (x.flushes ≡ w.flushes)

grant-IsBarely :
    (allowed : List Text) (origin : Text) (w : Writer) → IsBarely w (grant allowed origin w)
unfolding set add
grant-IsBarely allowed origin w = elim (Bool-cases (allow_all allowed)) [
  | inl y ↦ rw (y) (refl, refl)
  | inr n ↦ elim (Bool-cases (origin_allowed allowed origin)) [
    | inl y ↦ rw (n, y) (refl, refl)
    | inr m ↦ rw (n, m) (refl, refl)
  ]
]

-- A request that goes on to the next handler.
pub cors-IsBarely :
    (allowed : List Text) (method origin : Text) (w : Writer)
    → (method == text "OPTIONS") ≡ false
    → IsBarely w ((cors allowed method origin w).0)
unfolding cors set
cors-IsBarely allowed method origin w h = elim (Bool-cases (is_empty origin)) [
  | inl y ↦ rw (h, y) (refl, refl)
  | inr n ↦ rw (h, n) (grant-IsBarely allowed origin w)
]

-- No pattern is for OPTIONS.
pub found_not_options :
    (method : Text) (ss : List Text) (t : Target × Text)
    → find routes method ss ≡ some t
    → (method == text "OPTIONS") ≡ false
unfolding find routes ◌==◌
found_not_options method ss t e = elim (Bool-cases (method == text "OPTIONS")) [
  | inr n ↦ n
  | inl y ↦
      ground (arith, sym (ap (λ m. find routes m ss) ((eq_iff method (text "OPTIONS")).0 y)) ∙ e)
]

pub shared_passes :
    (call : Call) (s : Server) (w : Writer) (next : Handler)
    → (call.method == text "OPTIONS") ≡ false
    → shared call next s w
      ≡ next s
          ((cors s.admin.allowed_origins call.method (get_header (text "Origin") call.header) w).0)
unfolding shared cors
shared_passes call s w next n = rw (n) refl
