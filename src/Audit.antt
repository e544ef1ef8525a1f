-- ===== src/Audit.antt =====
-- internal/audit/audit.go: the event record, redaction of its metadata and the bounded list of
-- events. Log and List run under the store's lock.
mod Examples
pub mod Retention
pub mod Redaction
use ai_proxy_centranity.Base.{
  none, some, Option, ℕ, ◌-◌, Bool, ◌||◌, List, [], ◌∷◌, ◌++◌, length, drop, ltb, if◌then◌else◌,
}
use ai_proxy_centranity.Base.Int.{ℤ, pos, leb_ℤ, pos_part}
use ai_proxy_centranity.Base.Text.{Text, text, to_lower, contains}
use ai_proxy_centranity.Base.Assoc.{Assoc, insert}
use ai_proxy_centranity.Base.Memory.{can_make}

pub record Event : Type 0 where
  pub id : Text
  pub timestamp : ℕ
  pub actor : Text
  pub event_type : Text
  pub target : Text
  pub status : Text
  pub metadata : Assoc Text

abbrev pub event_auth_failure : Text
event_auth_failure = text "AUTH_FAILURE"

abbrev pub event_policy_deny : Text
event_policy_deny = text "POLICY_DENY"

abbrev pub event_rate_limited : Text
event_rate_limited = text "RATE_LIMITED"

abbrev pub event_route_resolved : Text
event_route_resolved = text "ROUTE_RESOLVED"

abbrev pub event_config_changed : Text
event_config_changed = text "CONFIG_CHANGED"

pub record Store : Type 0 where
  pub events : List Event
  pub max_events : ℕ

abbrev pub default_max_events : ℕ
default_max_events = 10000

-- The size of an `Event`.
abbrev pub event_size : ℕ
event_size = 112

abbrev pub cap_of : ℤ → ℤ
cap_of max_events = if leb_ℤ max_events (pos 0) then pos default_max_events else max_events

-- `NewMemoryStoreWithLimit`; `none` is the panic of `make` for a cap that is too large.
unfoldable pub new_with_limit : ℤ → Option Store
new_with_limit max_events =
    if can_make event_size (cap_of max_events)
    then some (record { events = []; max_events = pos_part (cap_of max_events) })
    else none

-- `NewMemoryStore`
abbrev pub new : Store
new = record { events = []; max_events = default_max_events }

-- The test on a metadata key.
unfoldable pub is_sensitive : Text → Bool
is_sensitive k =
    let lower_k = to_lower k in
    contains lower_k (text "key")
    || contains lower_k (text "password")
    || contains lower_k (text "token")
    || contains lower_k (text "secret")

abbrev pub redacted : Text
redacted = text "[REDACTED]"

-- The loop over the metadata, into a new map.
unfoldable pub sanitize : Assoc Text → Assoc Text → Assoc Text
sanitize [] out = out
sanitize ((k, v) ∷ m) out = sanitize m (insert k (if is_sensitive k then redacted else v) out)

-- Over the cap, all but the last `maxEvents` events are dropped.
unfoldable pub cap_to : ℕ → List Event → List Event
cap_to n events = if ltb n (length events) then drop (length events - n) events else events

unfoldable pub log : Store → Event → Store
log s event = record s {
  events =
      cap_to s.max_events (s.events ++ record event { metadata = sanitize event.metadata [] } ∷ []);
}

unfoldable pub list : Store → List Event
list s = s.events
