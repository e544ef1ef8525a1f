-- ===== src/Ninerouter/Examples.antt =====
-- Concrete runs of the theorems on internal/ninerouter/client.go.
use ai_proxy_centranity.Base.{◌≡◌, none, some, [], ◌∷◌, ◌++◌, refl, computing, if◌then◌else◌}
use ai_proxy_centranity.Base.Int.{pos}
use ai_proxy_centranity.Base.Text.{text, ◌==◌, is_empty}
use ai_proxy_centranity.Base.Assoc.{lookup}
use ai_proxy_centranity.Http.{Header}
use ai_proxy_centranity.Ninerouter.{HttpAdapter, forward_request}
use ai_proxy_centranity.Ninerouter.Headers.{authorization, forward_request-authorization}

abbrev adapter : HttpAdapter
adapter = record { base_url = text "http://r"; api_key = text "up"; timeout = pos 30000000000 }

abbrev from_client : Header
from_client =
    (text "Authorization", text "Bearer sk-pg-0" ∷ []) ∷ (text "Accept", text "*/*" ∷ []) ∷ []

forward_request-authorization_example :
    lookup (text "Authorization") (forward_request adapter [] from_client).header ≡ (
      if is_empty adapter.api_key
      then none
      else if authorization == text "Authorization"
      then some ((text "Bearer " ++ adapter.api_key) ∷ [])
      else none)
unfolding computing
forward_request-authorization_example =
    forward_request-authorization adapter [] from_client (text "Authorization") refl
