-- ===== src/Tui/Examples.antt =====
-- Concrete sessions for the theorems on internal/tui.
use ai_proxy_centranity.Base.{◌≡◌, refl, true, none, some, inl, List, Any, [], ◌∷◌, ◌++◌, computing}
use ai_proxy_centranity.Base.Text.{Text, text}
use ai_proxy_centranity.Tui.State.{
  Model, Key, Msg, key, DataLoaded, data_loaded, string, boolean, new_model_with_token, tab_keys,
  fetch,
}
use ai_proxy_centranity.Tui.Rows.{is_management_tab, resource_list, resource_id, row_at, string_at}
use ai_proxy_centranity.Tui.Requests.{Outside, Sent, do_request}
use ai_proxy_centranity.Tui.Actions.{do_confirm_action}
use ai_proxy_centranity.Tui.Update
use ai_proxy_centranity.Tui.Update.{Step, handle_confirm_key}
use ai_proxy_centranity.Tui.Steady.{IsSteady}
use ai_proxy_centranity.Tui.Safety.{run, run-IsSteady}
use ai_proxy_centranity.Tui.Raised.{Raises, run-Deletes}

abbrev outside : Outside
outside = record { quote = λ s. text "\"" ++ s ++ text "\""; is_url = λ u. true }

abbrev type_key : Text → Msg
type_key name = key (record { name = name; runes = name })

-- The keys screen with one key, and the question whether to delete it.
abbrev asked : Model
asked = record (new_model_with_token (text "http://api") (text "root") 7) {
  active_tab = tab_keys;
  keys = ((text "id", string (text "key_1")) ∷ (text "enabled", boolean true) ∷ []) ∷ [];
  confirm = text "delete";
}

abbrev deletion : Sent
deletion = record {
  method = text "DELETE";
  url = text "http://api/api/v1/keys/key_1";
  body = [];
  content_type = [];
  authorization = text "Bearer root";
}

abbrev answered : Step
answered = record { model = record asked { confirm = [] }; cmd = fetch; sent = deletion ∷ [] }

yes_deletes : Update.update outside (type_key (text "y")) asked ≡ some answered
unfolding computing Update.update handle_confirm_key do_confirm_action resource_id resource_list
    row_at string_at do_request new_model_with_token
yes_deletes = refl

-- The session that leads to the question: the screen of the keys, the data, and the key d.
abbrev loaded : DataLoaded
loaded = record {
  system_status = none;
  overview = none;
  keys = some asked.keys;
  policies = none;
  routes = none;
  proxies = none;
  err = none;
}

abbrev session : List Msg
session = type_key (text "5") ∷ data_loaded 7 loaded ∷ type_key (text "d") ∷ []

reached :
    run outside session (some (new_model_with_token (text "http://api") (text "root") 7))
    ≡ some asked
unfolding computing Update.update Update.navigate Update.jump Update.action_key Update.load
    is_management_tab new_model_with_token
reached = refl

run-Deletes_example :
    Any Raises session
    × ((asked.form ≡ none)
        × ((asked.confirm ≡ text "delete")
            × ((k : Key) × ((type_key (text "y") ≡ key k) × (Update.is_yes k.name ≡ true)))))
run-Deletes_example =
    run-Deletes outside (text "http://api") (text "root") 7 session (type_key (text "y")) asked
      answered reached yes_deletes (inl refl)

run-IsSteady_example :
    (n : Model) × ((run outside
          (type_key (text "4")
            ∷ type_key (text "a")
            ∷ type_key (text "z")
            ∷ type_key (text "enter")
            ∷ [])
          (some (new_model_with_token [] (text "root") 7))
        ≡ some n)
      × IsSteady n)
run-IsSteady_example =
    run-IsSteady outside [] (text "root") 7 (
      type_key (text "4")
      ∷ type_key (text "a")
      ∷ type_key (text "z")
      ∷ type_key (text "enter")
      ∷ [])
