-- ===== src/Health/Examples.antt =====
-- Concrete runs of the theorems on internal/health/health.go.
use ai_proxy_centranity.Base.{◌≡◌, ◌↔◌, some, none, List, [], ◌∷◌, All, refl}
use ai_proxy_centranity.Base.Text.{text}
use ai_proxy_centranity.Http.{fresh, status_of}
use ai_proxy_centranity.Health.{HealthChecker, ready}
use ai_proxy_centranity.Health.Readiness.{ready-status_iff}

abbrev checkers : List HealthChecker
checkers =
    record { name = text "ninerouter"; check = some (text "9router unreachable") }
    ∷ record { name = text "redis"; check = none }
    ∷ []

ready-status_iff_example :
    ((status_of (ready checkers (text "\"2026-01-01T00:00:00Z\"") fresh) ≡ 200)
      ↔ All (λ c. c.check ≡ none) checkers)
    × ((status_of (ready checkers (text "\"2026-01-01T00:00:00Z\"") fresh) ≡ 503)
        ↔ ¬ All (λ c. c.check ≡ none) checkers)
ready-status_iff_example = ready-status_iff checkers (text "\"2026-01-01T00:00:00Z\"") fresh refl
