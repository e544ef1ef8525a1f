-- ===== src/Quota/Accounting.antt =====
-- What internal/quota/quota.go lets through, and how its counters grow. The sums stay exact while
-- the numbers are in the range of int64.
use ai_proxy_centranity.Base.{◌≡◌, ◌↔◌, ◌⊎◌, ◌&&◌, true, false, arith, if◌then◌else◌}
use ai_proxy_centranity.Base.Int.{
  wrap64, ℤ, pos, ◌+ℤ◌, ◌-ℤ◌, ◌≤ℤ◌, wrap64_id, InInt64, +ℤ_parts, -ℤ_parts, ltb_ℤ,
}
use ai_proxy_centranity.Base.Text.{Text, ◌==◌, eq_iff}
use ai_proxy_centranity.Base.Assoc.{lookup, lookup-insert}
use ai_proxy_centranity.Quota.{QuotaStore, usage_of, judge, allow, record_tokens, or_zero}

pub usage_of-allow :
    (q : QuotaStore) (k j : Text) (d m n : ℤ) → usage_of (allow q k d m n).0 j ≡ usage_of q j
unfolding allow usage_of
usage_of-allow q k j d m n = ground (arith, lookup-insert k j (or_zero (lookup k q)) q, eq_iff k j)

-- The sum and the difference are exact while they fit.
abbrev pub Fits : QuotaStore → Text → ℤ → ℤ → ℤ → Type 0
Fits q k d m n = InInt64 (d -ℤ (usage_of q k).daily) × InInt64 (m -ℤ (usage_of q k).monthly)

-- The limit is off, or the tokens used and the estimate stay within it.
abbrev pub Within : ℤ → ℤ → ℤ → Type 0
Within limit used estimated = (limit ≤ℤ pos 0) ⊎ (used +ℤ estimated ≤ℤ limit)

room_iff :
    (limit used n : ℤ)
    → ((ltb_ℤ (pos 0) limit && ltb_ℤ (limit -ℤ used) n) ≡ false) ↔ Within limit used n
room_iff limit used n = ground (arith, -ℤ_parts limit used, +ℤ_parts used n)

judge_iff :
    (d m n x y : ℤ)
    → ((judge d m n (d -ℤ x) (m -ℤ y)).allowed ≡ true) ↔ (Within d x n × Within m y n)
unfolding judge
judge_iff d m n x y = ground (arith, room_iff d x n, room_iff m y n)

-- While the differences fit in an int64, a request is let through exactly when the tokens used and
-- its estimate stay within each limit that is positive.
pub allow_iff :
    (q : QuotaStore) (k : Text) (d m n : ℤ)
    → Fits q k d m n
    → ((allow q k d m n).1.allowed ≡ true)
      ↔ (Within d (usage_of q k).daily n × Within m (usage_of q k).monthly n)
unfolding allow
allow_iff q k d m n fits =
    rw (wrap64_id _ fits.0, wrap64_id _ fits.1)
      (judge_iff d m n (usage_of q k).daily (usage_of q k).monthly)

-- Recording adds to both counters of its key, each of which wraps around, and to no other key's.
pub usage_of-record :
    (q : QuotaStore) (k j : Text) (n : ℤ)
    → usage_of (record_tokens q k n) j ≡ (
        if k == j
        then record {
          daily = wrap64 ((usage_of q k).daily +ℤ n);
          monthly = wrap64 ((usage_of q k).monthly +ℤ n);
        }
        else usage_of q j)
unfolding record_tokens usage_of
usage_of-record q k j n =
    let u = or_zero (lookup k q) in
    ground (
      arith,
      lookup-insert k j
          (record { daily = wrap64 (u.daily +ℤ n); monthly = wrap64 (u.monthly +ℤ n) }) q,
    )

-- The same while the sums fit.
pub usage_of-record_tokens :
    (q : QuotaStore) (k j : Text) (n : ℤ)
    → InInt64 ((usage_of q k).daily +ℤ n)
    → InInt64 ((usage_of q k).monthly +ℤ n)
    → usage_of (record_tokens q k n) j ≡ (
        if k == j
        then record { daily = (usage_of q k).daily +ℤ n; monthly = (usage_of q k).monthly +ℤ n }
        else usage_of q j)
unfolding record_tokens usage_of
usage_of-record_tokens q k j n hd hm =
    rw (wrap64_id _ hd, wrap64_id _ hm)
      (ground (
        arith,
        lookup-insert k j
            (record {
              daily = (or_zero (lookup k q)).daily +ℤ n;
              monthly = (or_zero (lookup k q)).monthly +ℤ n;
            })
            q,
      ))
