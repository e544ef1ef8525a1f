-- ===== src/Quota/Spending.antt =====
-- Sequences of requests against internal/quota/quota.go, as the chat handler makes them: Allow
-- first, and Record when the upstream has answered. Sequential requests keep within the limits;
-- two that overlap need not.
use ai_proxy_centranity.Base.{
  ◌≡◌, ◌∙◌, inl, inr, true, false, List, [], ◌∷◌, All, arith, if◌then◌else◌, Bool-cases,
}
use ai_proxy_centranity.Base.Int.{
  ℤ, pos, ◌+ℤ◌, ◌-ℤ◌, ◌≤ℤ◌, ◌<ℤ◌, InInt64, +ℤ_parts, -ℤ_parts, parts_zero,
}
use ai_proxy_centranity.Base.Text.{Text, eq_refl}
use ai_proxy_centranity.Quota.{Usage, QuotaStore, usage_of, allow, record_tokens}
use ai_proxy_centranity.Quota.Accounting.{
  Fits, Within, usage_of-allow, allow_iff, usage_of-record_tokens,
}

-- One request that is over before the next begins: it records its estimate if it was let through.
unfoldable pub spend : QuotaStore → Text → ℤ → ℤ → ℤ → QuotaStore
spend q k d m n =
    let (q', answer) = allow q k d m n in if answer.allowed then record_tokens q' k n else q'

unfoldable pub spend_all : QuotaStore → Text → ℤ → ℤ → List ℤ → QuotaStore
spend_all q k d m [] = q
spend_all q k d m (n ∷ ns) = spend_all (spend q k d m n) k d m ns

-- A counter that is not negative and within its limit.
pub record IsBounded (d m : ℤ) (u : Usage) : Type 0 where
  pub daily_low : pos 0 ≤ℤ u.daily
  pub daily_high : u.daily ≤ℤ d
  pub monthly_low : pos 0 ≤ℤ u.monthly
  pub monthly_high : u.monthly ≤ℤ m

module _ (q : QuotaStore) (k : Text) (d m n : ℤ) where
  spend_refused : (allow q k d m n).1.allowed ≡ false → usage_of (spend q k d m n) k ≡ usage_of q k
  unfolding spend
  spend_refused h = rw h (usage_of-allow q k k d m n)

  bounded-Fits : InInt64 d → InInt64 m → IsBounded d m (usage_of q k) → Fits q k d m n
  bounded-Fits hd hm b = omega (
    arith,
    -ℤ_parts d (usage_of q k).daily,
    -ℤ_parts m (usage_of q k).monthly,
    parts_zero (d -ℤ (usage_of q k).daily),
    parts_zero (m -ℤ (usage_of q k).monthly),
  )

  module _ (u : QuotaStore) (same : usage_of u k ≡ usage_of q k) where
    record_exact :
        InInt64 ((usage_of q k).daily +ℤ n)
        → InInt64 ((usage_of q k).monthly +ℤ n)
        → usage_of (record_tokens u k n) k
          ≡ record { daily = (usage_of q k).daily +ℤ n; monthly = (usage_of q k).monthly +ℤ n }
    record_exact hd hm =
        ground (arith, usage_of-record_tokens u k k n (rw same hd) (rw same hm), eq_refl k)

  spend_allowed :
      (allow q k d m n).1.allowed ≡ true
      → InInt64 ((usage_of q k).daily +ℤ n)
      → InInt64 ((usage_of q k).monthly +ℤ n)
      → usage_of (spend q k d m n) k
        ≡ record { daily = (usage_of q k).daily +ℤ n; monthly = (usage_of q k).monthly +ℤ n }
  unfolding spend
  spend_allowed h hd hm = rw h (record_exact (allow q k d m n).0 (usage_of-allow q k k d m n) hd hm)

  grown :
      pos 0 <ℤ d
      → pos 0 <ℤ m
      → pos 0 ≤ℤ n
      → IsBounded d m (usage_of q k)
      → Within d (usage_of q k).daily n × Within m (usage_of q k).monthly n
      → IsBounded d m
          (record { daily = (usage_of q k).daily +ℤ n; monthly = (usage_of q k).monthly +ℤ n })
  grown pd pm pn b w =
      omega (arith, +ℤ_parts (usage_of q k).daily n, +ℤ_parts (usage_of q k).monthly n)

  bounded-InInt64 :
      (u : Usage) → InInt64 d → InInt64 m → IsBounded d m u → InInt64 u.daily × InInt64 u.monthly
  bounded-InInt64 u hd hm b = omega (arith, parts_zero u.daily, parts_zero u.monthly)

  spend-IsBounded :
      InInt64 d
      → InInt64 m
      → pos 0 <ℤ d
      → pos 0 <ℤ m
      → pos 0 ≤ℤ n
      → IsBounded d m (usage_of q k)
      → IsBounded d m (usage_of (spend q k d m n) k)
  spend-IsBounded hd hm pd pm pn b = elim (Bool-cases (allow q k d m n).1.allowed) [
    | inl passed ↦
        let next = grown pd pm pn b ((allow_iff q k d m n (bounded-Fits hd hm b)).0 passed) in
        let fit = bounded-InInt64 _ hd hm next in rw (spend_allowed passed fit.0 fit.1) next
    | inr refused ↦ rw (spend_refused refused) b
  ]

-- Requests that run one after another, with estimates that are not negative, never take a key's
-- counters past its limits, where both limits are positive.
pub spend_all-IsBounded :
    (q : QuotaStore) (k : Text) (d m : ℤ) (ns : List ℤ)
    → InInt64 d
    → InInt64 m
    → pos 0 <ℤ d
    → pos 0 <ℤ m
    → All (λ n. pos 0 ≤ℤ n) ns
    → IsBounded d m (usage_of q k)
    → IsBounded d m (usage_of (spend_all q k d m ns) k)
unfolding spend_all
spend_all-IsBounded q k d m [] hd hm pd pm pn b = b
spend_all-IsBounded q k d m (n ∷ ns) hd hm pd pm pn b =
    spend_all-IsBounded (spend q k d m n) k d m ns hd hm pd pm pn.1
      (spend-IsBounded q k d m n hd hm pd pm pn.0 b)

-- Two requests of which each checks before either records.
unfoldable pub overlap : QuotaStore → Text → ℤ → ℤ → ℤ → QuotaStore
overlap q k d m n =
    let (p, first) = allow q k d m n in
    let (r, second) = allow p k d m n in
    let s = if first.allowed then record_tokens r k n else r in
    if second.allowed then record_tokens s k n else s

module _ (q : QuotaStore) (k : Text) (d m n : ℤ) where
  second_allowed :
      Fits q k d m n
      → Within d (usage_of q k).daily n × Within m (usage_of q k).monthly n
      → (allow (allow q k d m n).0 k d m n).1.allowed ≡ true
  second_allowed fits w =
      let same = usage_of-allow q k k d m n in
      (allow_iff (allow q k d m n).0 k d m n (rw same fits)).1 (rw same w)

  overlap-daily :
      Fits q k d m n
      → Within d (usage_of q k).daily n × Within m (usage_of q k).monthly n
      → InInt64 ((usage_of q k).daily +ℤ n)
      → InInt64 ((usage_of q k).monthly +ℤ n)
      → InInt64 ((usage_of q k).daily +ℤ n +ℤ n)
      → InInt64 ((usage_of q k).monthly +ℤ n +ℤ n)
      → (usage_of (overlap q k d m n) k).daily ≡ (usage_of q k).daily +ℤ n +ℤ n
  unfolding overlap
  overlap-daily fits w hd hm hd' hm' =
      let p = (allow q k d m n).0 in
      let r = (allow p k d m n).0 in
      let same = usage_of-allow p k k d m n ∙ usage_of-allow q k k d m n in
      let once = record_exact q k d m n r same hd hm in
      rw ((allow_iff q k d m n fits).1 w, second_allowed fits w)
        (ground (
          arith,
          usage_of-record_tokens (record_tokens r k n) k k n (rw once hd') (rw once hm'),
          once,
          eq_refl k,
        ))

-- Allow reserves nothing: whenever one more request of `n` tokens fits within both limits and two
-- of them do not fit within the daily one, two requests that both check before either records are
-- both let through, and leave the daily counter past its limit (the doubled sums fit in an int64).
pub overlap_exceeds :
    (q : QuotaStore) (k : Text) (d m n : ℤ)
    → InInt64 d
    → InInt64 m
    → pos 0 <ℤ d
    → pos 0 <ℤ m
    → pos 0 ≤ℤ n
    → IsBounded d m (usage_of q k)
    → Within d (usage_of q k).daily n
    → Within m (usage_of q k).monthly n
    → d <ℤ (usage_of q k).daily +ℤ n +ℤ n
    → InInt64 ((usage_of q k).daily +ℤ n +ℤ n)
    → InInt64 ((usage_of q k).monthly +ℤ n +ℤ n)
    → ((allow q k d m n).1.allowed ≡ true)
      × ((allow (allow q k d m n).0 k d m n).1.allowed ≡ true)
      × (d <ℤ (usage_of (overlap q k d m n) k).daily)
overlap_exceeds q k d m n hd hm pd pm pn b wd wm over hd' hm' =
    let fits = bounded-Fits q k d m n hd hm b in
    let next = bounded-InInt64 q k d m n _ hd hm (grown q k d m n pd pm pn b (wd, wm)) in
    (
      (allow_iff q k d m n fits).1 (wd, wm),
      second_allowed q k d m n fits (wd, wm),
      rw (overlap-daily q k d m n fits (wd, wm) next.0 next.1 hd' hm') over,
    )
