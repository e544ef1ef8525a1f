-- ===== src/Tui/Update.antt =====
-- `Update` of internal/tui/app.go: the model after a message, the command, and what has been sent. Where
-- Go would panic on an index, the result is `none`.
use ai_proxy_centranity.Base.{
  ℕ, ◌+◌, ◌-◌, ◌%◌, Bool, ◌||◌, Option, none, some, List, [], length, ltb, eqb, if◌then◌else◌,
}
use ai_proxy_centranity.Base.Text.{Text, text, ◌==◌, is_empty}
use ai_proxy_centranity.Tui.Form.{FormState, next_focus, prev_focus, type_in}
use ai_proxy_centranity.Tui.State.{
  Model, DataLoaded, Key, Msg, window_size, data_loaded, key, unknown, Cmd, nothing, quit, fetch,
  tab_overview, tab_requests, tab_models, tab_providers, tab_keys, tab_policies, tab_routing,
  tab_proxies, tab_usage, tab_audit, tab_system, tab_settings, tab_count,
}
use ai_proxy_centranity.Tui.Rows.{is_management_tab, can_toggle}
use ai_proxy_centranity.Tui.Requests.{Outside, Sent, submit}
use ai_proxy_centranity.Tui.Actions.{open_create_form, open_edit_form, do_confirm_action}

pub record Step : Type 0 where
  pub model : Model
  pub cmd : Cmd
  pub sent : List Sent

abbrev pub to : Model → Step
to m = record { model = m; cmd = nothing; sent = [] }

abbrev or_old {ℓ} : {A : Type ℓ} → Option A → A → A
or_old none old = old
or_old (some new) old = new

-- The case of `dataLoadedMsg`.
unfoldable pub load : ℕ → DataLoaded → Model → Model
load now d m = record m {
  system_status = or_old d.system_status m.system_status;
  overview = or_old d.overview m.overview;
  keys = or_old d.keys m.keys;
  policies = or_old d.policies m.policies;
  routes = or_old d.routes m.routes;
  proxies = or_old d.proxies m.proxies;
  last_refreshed = now;
  err = d.err;
}

-- A step of the form that looks at the field in focus.
abbrev pub at_focus : FormState → FormState → Option FormState
at_focus f g =
    if eqb (length f.fields) 0
    then some f
    else if ltb f.focused (length f.fields)
    then some g
    else none

abbrev pub typed : Text → FormState → Option FormState
typed runes f = if is_empty runes then some f else at_focus f (type_in runes f)

abbrev pub keep_form : Option FormState → Model → Option Step
keep_form none m = none
keep_form (some f) m = some (to (record m { form = some f }))

-- `handleFormKey`
unfoldable pub handle_form_key : Outside → Key → FormState → Model → Option Step
handle_form_key o k f m =
    if k.name == text "esc"
    then some (to (record m { form = none }))
    else if k.name == text "tab"
    then keep_form (at_focus f (next_focus f)) m
    else if k.name == text "shift+tab"
    then keep_form (at_focus f (prev_focus f)) m
    else if k.name == text "enter"
    then some (record { model = record m { form = none }; cmd = fetch; sent = submit o m f })
    else keep_form (typed k.runes f) m

abbrev pub is_yes : Text → Bool
is_yes name = name == text "y" || name == text "Y"

abbrev pub is_no : Text → Bool
is_no name = name == text "n" || name == text "N" || name == text "esc"

abbrev pub confirmed : Option (List Sent) → Model → Option Step
confirmed none m = none
confirmed (some sent) m =
    some (record { model = record m { confirm = [] }; cmd = fetch; sent = sent })

-- `handleConfirmKey`
unfoldable pub handle_confirm_key : Outside → Key → Model → Option Step
handle_confirm_key o k m =
    if is_yes k.name
    then confirmed (do_confirm_action o m) m
    else if is_no k.name
    then some (to (record m { confirm = [] }))
    else some (to m)

abbrev pub go : ℕ → Model → Option Step
go tab m = some (to (record m { active_tab = tab }))

-- The keys of the tab bar, to the right and to the left.
unfoldable pub next_tab : ℕ → ℕ
next_tab tab = (tab + 1) % tab_count

unfoldable pub prev_tab : ℕ → ℕ
prev_tab tab = if eqb tab 0 then tab_count - 1 else tab - 1

abbrev pub opened : Option Model → Option Step
opened none = none
opened (some m) = some (to m)

-- The keys a, e, d and x; any other key changes nothing.
unfoldable pub action_key : Text → Model → Option Step
action_key name m =
    if name == text "a"
    then some (to (open_create_form m))
    else if name == text "e"
    then opened (open_edit_form m)
    else if name == text "d"
    then some
        (to (if is_management_tab m.active_tab then record m { confirm = text "delete" } else m))
    else if name == text "x"
    then some (to (if can_toggle m.active_tab then record m { confirm = text "toggle" } else m))
    else some (to m)

-- The keys that jump to a screen.
unfoldable pub jump : Text → Option ℕ
jump name =
    if name == text "1"
    then some tab_overview
    else if name == text "2"
    then some tab_requests
    else if name == text "3"
    then some tab_models
    else if name == text "4"
    then some tab_providers
    else if name == text "5"
    then some tab_keys
    else if name == text "6"
    then some tab_policies
    else if name == text "7"
    then some tab_routing
    else if name == text "8"
    then some tab_proxies
    else if name == text "9"
    then some tab_usage
    else if name == text "0"
    then some tab_audit
    else if name == text "-"
    then some tab_system
    else if name == text "="
    then some tab_settings
    else none

abbrev pub jump_or_act : Option ℕ → Text → Model → Option Step
jump_or_act (some tab) name m = go tab m
jump_or_act none name m = action_key name m

abbrev pub is_right : Text → Bool
is_right name = name == text "tab" || name == text "right" || name == text "l"

abbrev pub is_left : Text → Bool
is_left name = name == text "shift+tab" || name == text "left" || name == text "h"

-- The keys outside of forms and confirmations.
unfoldable pub navigate : Text → Model → Option Step
navigate name m =
    if name == text "q" || name == text "ctrl+c"
    then some (record { model = m; cmd = quit; sent = [] })
    else if is_right name
    then go (next_tab m.active_tab) m
    else if is_left name
    then go (prev_tab m.active_tab) m
    else if name == text "r"
    then some (record { model = m; cmd = fetch; sent = [] })
    else jump_or_act (jump name) name m

abbrev pub press : Outside → Key → Option FormState → Model → Option Step
press o k (some f) m = handle_form_key o k f m
press o k none m = if is_empty m.confirm then navigate k.name m else handle_confirm_key o k m

-- `Update`
unfoldable pub update : Outside → Msg → Model → Option Step
update o (window_size w h) m = some (to (record m { width = w; height = h }))
update o (data_loaded now d) m = some (to (load now d m))
update o (key k) m = press o k m.form m
update o unknown m = some (to m)
