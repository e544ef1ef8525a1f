-- ===== src/Tui/Actions.antt =====
-- What the keys a, e, d and x of internal/tui/app.go prepare, and what a confirmation carries out.
use ai_proxy_centranity.Base.{
  ◌&&◌, ℕ, Bool, true, false, not, Option, none, some, List, [], ◌∷◌, ◌++◌, eqb, if◌then◌else◌,
}
use ai_proxy_centranity.Base.Int.{pos, ltb_ℤ}
use ai_proxy_centranity.Base.Text.{Text, text, ◌==◌, is_empty}
use ai_proxy_centranity.Base.Assoc.{lookup}
use ai_proxy_centranity.Http.{show}
use ai_proxy_centranity.Tui.Form.{
  FormField, FormState, new_form_state, set_value, Submission, add_proxy, add_key, set_policies,
  add_route, edit_proxy, edit_key, edit_route,
}
use ai_proxy_centranity.Tui.State.{
  Value, number, strings, Row, Model, tab_keys, tab_policies, tab_routing, tab_proxies,
}
use ai_proxy_centranity.Tui.Rows.{
  resource_list, resource_id, row_at, string_at, selected_enabled, is_management_tab,
}
use ai_proxy_centranity.Tui.Requests.{Outside, Sent, do_request}

abbrev field : Text → FormField
field label = record { label = label; secret = false; value = []; focused = false }

abbrev proxy_fields : List FormField
proxy_fields =
    field (text "Name") ∷ field (text "Host") ∷ field (text "Port") ∷ field (text "Type") ∷ []

abbrev key_fields : List FormField
key_fields = field (text "Name") ∷ field (text "RPMLimit") ∷ []

abbrev policy_fields : List FormField
policy_fields = field (text "Models") ∷ field (text "Providers") ∷ []

abbrev route_fields : List FormField
route_fields = field (text "Alias") ∷ field (text "Targets") ∷ []

abbrev pub with_form : Text → List FormField → Submission → Model → Model
with_form title fields on_submit m = record m {
  form = some (new_form_state title fields on_submit);
}

-- `openCreateForm`
unfoldable pub open_create_form : Model → Model
open_create_form m =
    if eqb m.active_tab tab_proxies
    then with_form (text "Add Proxy") proxy_fields add_proxy m
    else if eqb m.active_tab tab_keys
    then with_form (text "Add Key") key_fields add_key m
    else if eqb m.active_tab tab_policies
    then with_form (text "Set Global Deny") policy_fields set_policies m
    else if eqb m.active_tab tab_routing
    then with_form (text "Add Route") route_fields add_route m
    else m

abbrev shown_number : Option Value → Text
shown_number (some (number n)) = if ltb_ℤ (pos 0) n then show n else []
shown_number _ = []

unfoldable pub num_at : Text → Row → Text
num_at k row = shown_number (lookup k row)

abbrev joined : List Text → Text
joined [] = []
joined (t ∷ []) = t
joined (t ∷ ts) = t ++ text "," ++ joined ts

abbrev pub shown_targets : Option Value → FormState → FormState
shown_targets (some (strings ts)) f = set_value 1 (joined ts) f
shown_targets _ f = f

-- The pre-filled form of each screen.
unfoldable pub edit_form : ℕ → Text → Row → FormState
edit_form tab id row =
    if eqb tab tab_proxies
    then set_value 3 (string_at (text "type") row) (
        set_value 2 (num_at (text "port") row) (
          set_value 1 (string_at (text "host") row) (
            set_value 0 (string_at (text "name") row)
              (new_form_state (text "Edit Proxy") proxy_fields (edit_proxy id)))))
    else if eqb tab tab_keys
    then set_value 1 (num_at (text "rpm_limit") row) (
        set_value 0 (string_at (text "name") row)
          (new_form_state (text "Edit Key") key_fields (edit_key id)))
    else shown_targets (lookup (text "targets") row) (
        set_value 0 (string_at (text "alias") row)
          (new_form_state (text "Edit Route") route_fields (edit_route id)))

abbrev pub edit_row : Text → Option Row → Model → Option Model
edit_row id none m = none
edit_row id (some row) m = some (record m { form = some (edit_form m.active_tab id row) })

abbrev pub edit_id : Option Text → Model → Option Model
edit_id none m = none
edit_id (some id) m =
    if is_empty id then some m else edit_row id (row_at (resource_list m) m.selected) m

-- `openEditForm`; `none` is a panic.
unfoldable pub open_edit_form : Model → Option Model
open_edit_form m =
    if not (is_management_tab m.active_tab)
    then some m
    else if eqb m.active_tab tab_policies
    then some (open_create_form m)
    else edit_id (resource_id m) m

abbrev shown_bool : Bool → Text
shown_bool true = text "true"
shown_bool false = text "false"

abbrev pub toggle : Outside → Text → Option Bool → Model → Option (List Sent)
toggle o path none m = none
toggle o path (some enabled) m = some (
    do_request o m (text "PUT") path (text "{\"enabled\":" ++ shown_bool (not enabled) ++ text "}"))

abbrev pub delete_or_toggle : Outside → Text → Model → Option (List Sent)
delete_or_toggle o path m =
    if m.confirm == text "delete"
    then some (do_request o m (text "DELETE") path [])
    else if m.confirm == text "toggle"
    then toggle o path (selected_enabled m) m
    else some []

abbrev pub act_on : Outside → Option Text → Model → Option (List Sent)
act_on o none m = none
act_on o (some id) m =
    if is_empty id
    then some []
    else if eqb m.active_tab tab_proxies
    then delete_or_toggle o (text "/api/v1/proxies/" ++ id) m
    else if eqb m.active_tab tab_keys
    then delete_or_toggle o (text "/api/v1/keys/" ++ id) m
    else if eqb m.active_tab tab_routing && (m.confirm == text "delete")
    then some (do_request o m (text "DELETE") (text "/api/v1/routes/" ++ id) [])
    else some []

-- `doConfirmAction`; `none` is a panic.
unfoldable pub do_confirm_action : Outside → Model → Option (List Sent)
do_confirm_action o m = act_on o (resource_id m) m
