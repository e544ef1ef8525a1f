-- ===== src/Quota/Examples.antt =====
-- Concrete runs of the theorems on internal/quota/quota.go.
use ai_proxy_centranity.Base.{◌≡◌, inr, true, [], ◌∷◌, computing, arith}
use ai_proxy_centranity.Base.Int.{pos, ◌<ℤ◌}
use ai_proxy_centranity.Base.Text.{text}
use ai_proxy_centranity.Quota.{QuotaStore, usage_of, allow}
use ai_proxy_centranity.Quota.Spending.{
  IsBounded, spend_all, spend_all-IsBounded, overlap, overlap_exceeds,
}

abbrev used : QuotaStore
used = (text "a", record { daily = pos 60; monthly = pos 400 }) ∷ []

spend_all-IsBounded_example : IsBounded (pos 100) (pos 1000) (
    usage_of
      (spend_all used (text "a") (pos 100) (pos 1000) (pos 50 ∷ pos 30 ∷ pos 20 ∷ []))
      (text "a"))
unfolding computing usage_of
spend_all-IsBounded_example =
    spend_all-IsBounded used (text "a") (pos 100) (pos 1000) (pos 50 ∷ pos 30 ∷ pos 20 ∷ [])
      (omega arith) (omega arith) (omega arith) (omega arith)
      (omega arith, (omega arith, (omega arith, tt)))
      (record {
        daily_low = omega arith;
        daily_high = omega arith;
        monthly_low = omega arith;
        monthly_high = omega arith;
      })

overlap_exceeds_example :
    ((allow used (text "a") (pos 100) (pos 1000) (pos 30)).1.allowed ≡ true)
    × ((allow
          (allow used (text "a") (pos 100) (pos 1000) (pos 30)).0
          (text "a")
          (pos 100)
          (pos 1000)
          (pos 30)).1.allowed
        ≡ true)
    × (pos 100
        <ℤ (usage_of (overlap used (text "a") (pos 100) (pos 1000) (pos 30)) (text "a")).daily)
unfolding computing usage_of
overlap_exceeds_example =
    overlap_exceeds used (text "a") (pos 100) (pos 1000) (pos 30) (omega arith) (omega arith)
      (omega arith) (omega arith) (omega arith)
      (record {
        daily_low = omega arith;
        daily_high = omega arith;
        monthly_low = omega arith;
        monthly_high = omega arith;
      })
      (inr (omega arith)) (inr (omega arith)) (omega arith) (omega arith) (omega arith)
