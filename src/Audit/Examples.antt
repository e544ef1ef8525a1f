-- ===== src/Audit/Examples.antt =====
-- Concrete runs of the theorems on internal/audit/audit.go.
use ai_proxy_centranity.Base.{
  some, ◌⊎◌, false, none, ◌≡◌, ◌≤◌, ◌<◌, ◌-◌, List, [], ◌∷◌, All, map, drop, length, if◌then◌else◌,
}
use ai_proxy_centranity.Base.Int.{pos, leb_ℤ, pos_part}
use ai_proxy_centranity.Base.Text.{Text, text}
use ai_proxy_centranity.Base.Assoc.{Assoc}
use ai_proxy_centranity.Audit.{
  Store, cap_of, event_size, Event, new, new_with_limit, default_max_events, event_config_changed,
}
use ai_proxy_centranity.Audit.Retention.{log_all, as_logged, log_all_new}
use ai_proxy_centranity.Audit.Redaction.{IsClean, log_all-IsClean}
use ai_proxy_centranity.Base.Memory.{can_make}

abbrev details : Assoc Text
details = (text "model", text "cc-opus") ∷ (text "Api_Key", text "sk-1") ∷ []

abbrev event : Text → Event
event id = record {
  id = id;
  timestamp = 5;
  actor = text "admin";
  event_type = event_config_changed;
  target = text "keys";
  status = text "ok";
  metadata = details;
}

abbrev events : List Event
events = event (text "1") ∷ event (text "2") ∷ event (text "3") ∷ []

log_all-IsClean_example : All (λ x. IsClean x.metadata) (log_all new events).events
log_all-IsClean_example = log_all-IsClean new events tt

log_all_new_example :
    ((new_with_limit (pos 2) ≡ none) × (can_make event_size (cap_of (pos 2)) ≡ false))
    ⊎ ((s : Store) × (new_with_limit (pos 2) ≡ some s)
        × (let n = if leb_ℤ (pos 2) (pos 0) then default_max_events else pos_part (pos 2) in
            ((log_all s events).events ≡ drop (length events - n) (map as_logged events))
            × (0 < n)
            × (length (log_all s events).events ≤ n)))
log_all_new_example = log_all_new (pos 2) events
