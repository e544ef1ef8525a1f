-- ===== src/Tui/State.antt =====
-- The model of internal/tui/app.go and the messages that it gets.
use ai_proxy_centranity.Base.{ℕ, Bool, Option, none, List, [], if◌then◌else◌}
use ai_proxy_centranity.Base.Int.{ℤ, pos}
use ai_proxy_centranity.Base.Text.{Text, text, is_empty, trim_right}
use ai_proxy_centranity.Base.Assoc.{Assoc}
use ai_proxy_centranity.Tui.Form.{FormState}

abbrev pub tab_overview : ℕ
tab_overview = 0

abbrev pub tab_requests : ℕ
tab_requests = 1

abbrev pub tab_models : ℕ
tab_models = 2

abbrev pub tab_providers : ℕ
tab_providers = 3

abbrev pub tab_keys : ℕ
tab_keys = 4

abbrev pub tab_policies : ℕ
tab_policies = 5

abbrev pub tab_routing : ℕ
tab_routing = 6

abbrev pub tab_proxies : ℕ
tab_proxies = 7

abbrev pub tab_usage : ℕ
tab_usage = 8

abbrev pub tab_audit : ℕ
tab_audit = 9

abbrev pub tab_system : ℕ
tab_system = 10

abbrev pub tab_settings : ℕ
tab_settings = 11

-- The length of `tabNames`.
abbrev pub tab_count : ℕ
tab_count = 12

-- A value of a decoded JSON object, as far as the program looks into it. The numbers that it looks
-- at are whole.
pub data Value : Type 0 where
  string : Text → Value
  number : ℤ → Value
  boolean : Bool → Value
  strings : List Text → Value
  other : Value

-- `map[string]interface{}`
abbrev pub Row : Type 0
Row = Assoc Value

-- `Model`; of the form, `none` is nil, and of the label that awaits an answer, the empty text.
pub record Model : Type 0 where
  pub active_tab : ℕ
  pub api_url : Text
  pub admin_token : Text
  pub width : ℤ
  pub height : ℤ
  pub system_status : Row
  pub overview : Row
  pub keys : List Row
  pub policies : Row
  pub routes : Assoc (List Text)
  pub proxies : List Row
  pub form : Option FormState
  pub selected : ℕ
  pub confirm : Text
  pub last_refreshed : ℕ
  pub err : Option Text

-- `NewModelWithToken`
unfoldable pub new_model_with_token : Text → Text → ℕ → Model
new_model_with_token api_url admin_token now = record {
  active_tab = tab_overview;
  api_url = trim_right (if is_empty api_url then text "http://127.0.0.1:8088" else api_url) b'/';
  admin_token = admin_token;
  width = pos 100;
  height = pos 30;
  system_status = [];
  overview = [];
  keys = [];
  policies = [];
  routes = [];
  proxies = [];
  form = none;
  selected = 0;
  confirm = [];
  last_refreshed = now;
  err = none;
}

-- `dataLoadedMsg`; nil is `none`.
pub record DataLoaded : Type 0 where
  pub system_status : Option Row
  pub overview : Option Row
  pub keys : Option (List Row)
  pub policies : Option Row
  pub routes : Option (Assoc (List Text))
  pub proxies : Option (List Row)
  pub err : Option Text

-- A key by its name, with the characters that it types.
pub record Key : Type 0 where
  pub name : Text
  pub runes : Text

pub data Msg : Type 0 where
  window_size : ℤ → ℤ → Msg
  data_loaded : ℕ → DataLoaded → Msg
  key : Key → Msg
  -- a message of another type
  unknown : Msg

-- The command that Update returns: nothing, `tea.Quit`, or a fetch of the data.
pub data Cmd : Type 0 where
  nothing : Cmd
  quit : Cmd
  fetch : Cmd
