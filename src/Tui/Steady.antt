-- ===== src/Tui/Steady.antt =====
-- `Update` of internal/tui/app.go never indexes out of range, whatever the messages.
use ai_proxy_centranity.Base.{
  ◌∙◌, ◌&&◌, All, ap, ◌<◌, ◌≡◌, refl, arith, Bool, true, false, Option, none, some, List, [], ◌∷◌,
  length, ltb, eqb, Bool-cases, inl, inr,
}
use ai_proxy_centranity.Base.Text.{Text, text, ◌==◌, is_empty}
use ai_proxy_centranity.Tui.Form.{
  FormField, FormState, Submission, new_form_state, change_at, next_focus, prev_focus, type_in,
}
use ai_proxy_centranity.Tui.State.{
  Cmd, Model, Key, Row, tab_count, tab_keys, tab_policies, tab_routing, tab_proxies,
}
use ai_proxy_centranity.Tui.Rows.{
  resource_list, resource_id, row_at, selected_enabled, is_management_tab, can_toggle,
}
use ai_proxy_centranity.Tui.Rows
use ai_proxy_centranity.Tui.Requests.{Outside, Sent}
use ai_proxy_centranity.Tui.Actions.{open_create_form, do_confirm_action, act_on, delete_or_toggle}
use ai_proxy_centranity.Tui.Update.{
  Step, handle_form_key, handle_confirm_key, at_focus, typed, keep_form, confirmed, is_yes, is_no,
}
use ai_proxy_centranity.Tui.Focus.{
  IsFocused, IsFocusedAt-bound, next_focus-IsFocused, prev_focus-IsFocused, type_in-IsFocused,
}

abbrev pub IsFormReady : Option FormState → Type 0
IsFormReady none = Unit
IsFormReady (some f) = IsFocused f

-- The tab is one of the screens, the first row is the selected one, and an open form has exactly the
-- field in focus that its number says.
abbrev pub IsSteady : Model → Type 0
IsSteady m = (m.active_tab < tab_count) × ((m.selected ≡ 0) × IsFormReady m.form)

-- The step has not panicked, and leaves such a model.
unfoldable pub IsSafe : Option Step → Type 0
IsSafe none = ⊥
IsSafe (some s) = IsSteady s.model

pub safe :
    (m : Model) (cmd : Cmd) (sent : List Sent)
    → IsSteady m
    → IsSafe (some (record { model = m; cmd = cmd; sent = sent }))
unfolding IsSafe
safe m cmd sent h = h

-- Forms.
at_focus-IsSafe :
    (f g : FormState) (m : Model)
    → IsFocused f
    → IsFocused g
    → IsSteady m
    → IsSafe (keep_form (at_focus f g) m)
at_focus-IsSafe f g m h k s =
    let bound = IsFocusedAt-bound f.focused f.fields h in
    elim (Bool-cases (eqb (length f.fields) 0)) [
      | inl y ↦ rw (y) (safe (record m { form = some f }) _ _ (s.0, (s.1.0, h)))
      | inr n ↦
          let inside : ltb f.focused (length f.fields) ≡ true = ground (arith, bound) in
          rw (n, inside) (safe (record m { form = some g }) _ _ (s.0, (s.1.0, k)))
    ]

typed-IsSafe :
    (runes : Text) (f : FormState) (m : Model)
    → IsFocused f
    → IsSteady m
    → IsSafe (keep_form (typed runes f) m)
typed-IsSafe runes f m h s = elim (Bool-cases (is_empty runes)) [
  | inl y ↦ rw (y) (safe (record m { form = some f }) _ _ (s.0, (s.1.0, h)))
  | inr n ↦ rw (n) (at_focus-IsSafe f (type_in runes f) m h (type_in-IsFocused runes f h) s)
]

pub handle_form_key-IsSafe :
    (o : Outside) (k : Key) (f : FormState) (m : Model)
    → IsFocused f
    → IsSteady m
    → IsSafe (handle_form_key o k f m)
unfolding handle_form_key
handle_form_key-IsSafe o k f m h s =
    let shut = safe (record m { form = none }) in
    elim (Bool-cases (k.name == text "esc")) [
      | inl a ↦ rw (a) (shut _ _ (s.0, (s.1.0, tt)))
      | inr a ↦ elim (Bool-cases (k.name == text "tab")) [
        | inl b ↦ rw (a, b) (at_focus-IsSafe f (next_focus f) m h (next_focus-IsFocused f h) s)
        | inr b ↦ elim (Bool-cases (k.name == text "shift+tab")) [
          | inl c ↦ rw (a, b, c) (at_focus-IsSafe f (prev_focus f) m h (prev_focus-IsFocused f h) s)
          | inr c ↦ elim (Bool-cases (k.name == text "enter")) [
            | inl d ↦ rw (a, b, c, d) (shut _ _ (s.0, (s.1.0, tt)))
            | inr d ↦ rw (a, b, c, d) (typed-IsSafe k.runes f m h s)
          ]
        ]
      ]
    ]

-- Rows: the first is there where any is.
pub first_row : (k : Text) (rows : List Row) → (id : Text) × (Rows.id_in k rows 0 ≡ some id)
unfolding row_at
first_row k [] = ([], refl)
first_row k (r ∷ rs) = (_, refl)

pub resource_id-some : (m : Model) → m.selected ≡ 0 → (id : Text) × (resource_id m ≡ some id)
unfolding resource_id
resource_id-some m e =
    let (id, p) = first_row (Rows.id_key m.active_tab) (resource_list m) in
    (id, ap (Rows.id_in (Rows.id_key m.active_tab) (resource_list m)) e ∙ p)

first_enabled : (rows : List Row) → (b : Bool) × (Rows.enabled_in rows 0 ≡ some b)
unfolding row_at
first_enabled [] = (false, refl)
first_enabled (r ∷ rs) = (_, refl)

selected_enabled-some : (m : Model) → m.selected ≡ 0 → (b : Bool) × (selected_enabled m ≡ some b)
unfolding selected_enabled
selected_enabled-some m e =
    let (b, p) = first_enabled (resource_list m) in
    (b, ap (Rows.enabled_in (resource_list m)) e ∙ p)

-- A confirmation finds its row.
delete_or_toggle-some :
    (o : Outside) (path : Text) (m : Model)
    → m.selected ≡ 0
    → (sent : List Sent) × (delete_or_toggle o path m ≡ some sent)
delete_or_toggle-some o path m z = elim (Bool-cases (m.confirm == text "delete")) [
  | inl a ↦ rw (a) (_, refl)
  | inr a ↦ elim (Bool-cases (m.confirm == text "toggle")) [
    | inl b ↦ let (e, p) = selected_enabled-some m z in rw (a, b, p) (_, refl)
    | inr b ↦ rw (a, b) (_, refl)
  ]
]

act_on-some :
    (o : Outside) (id : Text) (m : Model)
    → m.selected ≡ 0
    → (sent : List Sent) × (act_on o (some id) m ≡ some sent)
act_on-some o id m z = elim (Bool-cases (is_empty id)) [
  | inl a ↦ rw (a) (_, refl)
  | inr a ↦ elim (Bool-cases (eqb m.active_tab tab_proxies)) [
    | inl b ↦ rw (a, b) (delete_or_toggle-some o _ m z)
    | inr b ↦ elim (Bool-cases (eqb m.active_tab tab_keys)) [
      | inl c ↦ rw (a, b, c) (delete_or_toggle-some o _ m z)
      | inr c ↦ elim (Bool-cases (eqb m.active_tab tab_routing && (m.confirm == text "delete"))) [
        | inl d ↦ rw (a, b, c, d) (_, refl)
        | inr d ↦ rw (a, b, c, d) (_, refl)
      ]
    ]
  ]
]

do_confirm_action-IsSafe :
    (o : Outside) (m : Model) → IsSteady m → IsSafe (confirmed (do_confirm_action o m) m)
unfolding do_confirm_action
do_confirm_action-IsSafe o m s =
    let (id, e) = resource_id-some m (s.1.0) in
    let (sent, p) = act_on-some o id m (s.1.0) in rw (e, p) (safe (record m { confirm = [] }) _ _ s)

pub handle_confirm_key-IsSafe :
    (o : Outside) (k : Key) (m : Model) → IsSteady m → IsSafe (handle_confirm_key o k m)
unfolding handle_confirm_key
handle_confirm_key-IsSafe o k m s = elim (Bool-cases (is_yes k.name)) [
  | inl a ↦ rw (a) (do_confirm_action-IsSafe o m s)
  | inr a ↦ elim (Bool-cases (is_no k.name)) [
    | inl b ↦ rw (a, b) (safe (record m { confirm = [] }) _ _ s)
    | inr b ↦ rw (a, b) (safe m _ _ s)
  ]
]

-- Forms that are opened.
pub new_form_state-IsFocused :
    (title : Text) (f : FormField) (fs : List FormField) (sub : Submission)
    → All (λ g. g.focused ≡ false) fs
    → IsFocused (new_form_state title (f ∷ fs) sub)
unfolding new_form_state change_at
new_form_state-IsFocused title f fs sub h = (refl, h)

pub create-IsSteady : (m : Model) → IsSteady m → IsSteady (open_create_form m)
unfolding open_create_form
create-IsSteady m s = elim (Bool-cases (eqb m.active_tab tab_proxies)) [
  | inl a ↦ rw (a) (s.0, (s.1.0, new_form_state-IsFocused _ _ _ _ (refl, (refl, (refl, tt)))))
  | inr a ↦ elim (Bool-cases (eqb m.active_tab tab_keys)) [
    | inl b ↦ rw (a, b) (s.0, (s.1.0, new_form_state-IsFocused _ _ _ _ (refl, tt)))
    | inr b ↦ elim (Bool-cases (eqb m.active_tab tab_policies)) [
      | inl c ↦ rw (a, b, c) (s.0, (s.1.0, new_form_state-IsFocused _ _ _ _ (refl, tt)))
      | inr c ↦ elim (Bool-cases (eqb m.active_tab tab_routing)) [
        | inl d ↦ rw (a, b, c, d) (s.0, (s.1.0, new_form_state-IsFocused _ _ _ _ (refl, tt)))
        | inr d ↦ rw (a, b, c, d) s
      ]
    ]
  ]
]
