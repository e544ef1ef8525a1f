-- ===== src/Quota.antt =====
-- internal/quota/quota.go: the token counters. All numbers are int64, so sums and differences wrap
-- around. Each method runs under the lock.
mod Examples
pub mod Accounting
pub mod Spending
use ai_proxy_centranity.Base.{Bool, true, false, ◌&&◌, ◌||◌, Option, none, some, if◌then◌else◌}
use ai_proxy_centranity.Base.Int.{ℤ, pos, ◌+ℤ◌, ◌-ℤ◌, ltb_ℤ, wrap64}
use ai_proxy_centranity.Base.Text.{Text}
use ai_proxy_centranity.Base.Assoc.{Assoc, lookup, insert}

pub record Usage : Type 0 where
  pub daily : ℤ
  pub monthly : ℤ

abbrev pub QuotaStore : Type 0
QuotaStore = Assoc Usage

abbrev pub zero_usage : Usage
zero_usage = record { daily = pos 0; monthly = pos 0 }

abbrev pub or_zero : Option Usage → Usage
or_zero none = zero_usage
or_zero (some u) = u

-- `q.usage[keyID]`, as every method finds it or makes it.
unfoldable pub usage_of : QuotaStore → Text → Usage
usage_of q key_id = or_zero (lookup key_id q)

pub record Answer : Type 0 where
  pub allowed : Bool
  pub daily_rem : ℤ
  pub monthly_rem : ℤ

unfoldable pub judge : ℤ → ℤ → ℤ → ℤ → ℤ → Answer
judge daily_limit monthly_limit estimated daily_rem monthly_rem =
    if (ltb_ℤ (pos 0) daily_limit && ltb_ℤ daily_rem estimated)
      || (ltb_ℤ (pos 0) monthly_limit && ltb_ℤ monthly_rem estimated)
    then record { allowed = false; daily_rem = daily_rem; monthly_rem = monthly_rem }
    else record {
      allowed = true;
      daily_rem = wrap64 (daily_rem -ℤ estimated);
      monthly_rem = wrap64 (monthly_rem -ℤ estimated);
    }

-- `Allow` makes the entry of an unknown key, and changes nothing else.
unfoldable pub allow : QuotaStore → Text → ℤ → ℤ → ℤ → QuotaStore × Answer
unfolding usage_of judge
allow q key_id daily_limit monthly_limit estimated =
    let u = usage_of q key_id in
    (
      insert key_id u q,
      judge daily_limit monthly_limit estimated (wrap64 (daily_limit -ℤ u.daily))
          (wrap64 (monthly_limit -ℤ u.monthly)),
    )

unfoldable pub record_tokens : QuotaStore → Text → ℤ → QuotaStore
unfolding usage_of
record_tokens q key_id tokens =
    let u = usage_of q key_id in
    insert key_id
      (record { daily = wrap64 (u.daily +ℤ tokens); monthly = wrap64 (u.monthly +ℤ tokens) }) q
