-- ===== src/Limiter.antt =====
-- internal/limiter/limiter.go: the sliding-window rate limiter. A call takes the time that it
-- reads (`now`, in nanoseconds) and runs under the limiter's lock. Times are natural numbers, so
-- `t.After(now.Add(-d))` is written `now < t + d`, which says the same with no difference below 0.
mod Examples
pub mod Purging
pub mod Sliding
pub mod Windows
pub mod Retry
use ai_proxy_centranity.Base.{
  ℕ, ◌+◌, Bool, true, false, not, Option, none, some, List, [], ◌∷◌, ◌++◌, length, select, ltb,
  if◌then◌else◌,
}
use ai_proxy_centranity.Base.Int.{ℤ, pos, ltb_ℤ, leb_ℤ, ◌-ℤ◌, sub_ℕ}
use ai_proxy_centranity.Base.Text.{Text, text}
use ai_proxy_centranity.Base.Memory.{can_make}
use ai_proxy_centranity.Base.Assoc.{Assoc, lookup, insert}

-- `MemoryLimiter.windows`; an entry is the list of its timestamps, oldest first.
abbrev pub Limiter : Type 0
Limiter = Assoc (List ℕ)

abbrev pub second : ℕ
second = 1000000000

abbrev pub minute : ℕ
minute = 60000000000

pub record Answer : Type 0 where
  pub allowed : Bool
  pub remaining : ℤ
  pub retry_after : ℤ

abbrev pub or_empty : Option (List ℕ) → List ℕ
or_empty none = []
or_empty (some ts) = ts

-- The loop that keeps the timestamps after the window's start.
unfoldable pub purge : ℕ → ℕ → List ℕ → List ℕ
purge width now = select (λ t. ltb now (t + width))

-- `oldest.Add(width).Sub(now)`, replaced by a second where it is negative.
unfoldable pub wait_for : ℕ → ℕ → ℕ → ℤ
wait_for width now oldest =
    let retry_after = sub_ℕ (oldest + width) now in
    if ltb_ℤ retry_after (pos 0) then pos second else retry_after

abbrev pub refuse : ℤ → Answer
refuse wait = record { allowed = false; remaining = pos 0; retry_after = wait }

-- Reading `entry.timestamps[0]` of an empty slice would panic; it is read only where the length is
-- at least the limit, and the limit is positive.
unfoldable pub oldest_of : List ℕ → Option ℕ
oldest_of [] = none
oldest_of (t ∷ ts) = some t

abbrev panic_or : Option ℕ → (ℕ → Option Answer) → Option Answer
panic_or none f = none
panic_or (some t) f = f t

-- The size of a `time.Time`.
abbrev pub time_size : ℕ
time_size = 24

-- A key without an entry gets a slice with room for `limit` timestamps, which panics where the limit
-- is too large for one.
abbrev pub overflows : Option (List ℕ) → ℤ → Bool
overflows none limit = not (can_make time_size limit)
overflows (some ts) limit = false

-- What both methods do with their window, width and limit; `none` is a panic.
unfoldable pub admit : ℕ → Text → ℤ → ℕ → Limiter → Limiter × Option Answer
admit width key limit now l =
    let valid = purge width now (or_empty (lookup key l)) in
    if overflows (lookup key l) limit
    then (l, none)
    else if leb_ℤ limit (pos (length valid))
    then (
      insert key valid l,
      panic_or (oldest_of valid) (λ oldest. some (refuse (wait_for width now oldest))),
    )
    else (
      insert key (valid ++ now ∷ []) l,
      some (record {
        allowed = true;
        remaining = limit -ℤ pos (length (valid ++ now ∷ []));
        retry_after = pos 0;
      }),
    )

abbrev pub unlimited : Answer
unlimited = record { allowed = true; remaining = pos 999999; retry_after = pos 0 }

-- `Allow`: requests per minute.
unfoldable pub allow : Text → ℤ → ℕ → Limiter → Limiter × Option Answer
unfolding admit
allow key_id limit_rpm now l =
    if leb_ℤ limit_rpm (pos 0) then (l, some unlimited) else admit minute key_id limit_rpm now l

-- `AllowRPS`: requests per second, in the same map under another key.
unfoldable pub allow_rps : Text → ℤ → ℕ → Limiter → Limiter × Option Answer
unfolding admit
allow_rps key_id limit_rps now l =
    if leb_ℤ limit_rps (pos 0)
    then (l, some unlimited)
    else admit second (key_id ++ text ":rps") limit_rps now l
