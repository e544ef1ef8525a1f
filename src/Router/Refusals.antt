-- ===== src/Router/Refusals.antt =====
-- What the server of internal/api/router.go does with a request to the management API that does not
-- bring the administrator's token.
use ai_proxy_centranity.Base.{if◌then◌else◌}
use ai_proxy_centranity.Base.Text.{Text, text}
use ai_proxy_centranity.Audit
use ai_proxy_centranity.Http.{error_doc, Json}
use ai_proxy_centranity.Router.State.{Server, Call}
use ai_proxy_centranity.Router.Wrapping.{uncountable, log_failure, counted}
use ai_proxy_centranity.Router.Table
use ai_proxy_centranity.Router.Table.{Target}

abbrev unauthorized : Json
unauthorized = error_doc (text "Unauthorized") (text "auth_error") (text "unauthorized")

-- The event of a refused request; and its sample, unless the collectors refuse the labels.
abbrev pub after_refusal : Call → Server → Server
after_refusal call s =
    if uncountable call 401 s.gateway.metrics
    then log_failure call s
    else counted call 401 (log_failure call s)
