-- ===== src/Tui/Safety.antt =====
-- `Update` of internal/tui/app.go over a whole session: the keys that open forms and move between the
-- screens, and any sequence of messages.
use ai_proxy_centranity.Base.{
  subst, ◌∙◌, ◌||◌, ap, sym, ℕ, ◌<◌, ◌≡◌, refl, arith, Bool, true, false, Option, none, some, List,
  [], ◌∷◌, eqb, if◌then◌else◌, Bool-cases, Option-cases, inl, inr,
}
use ai_proxy_centranity.Base.Text.{Text, text, ◌==◌, is_empty}
use ai_proxy_centranity.Tui.Form.{FormState}
use ai_proxy_centranity.Tui.State.{
  Model, Msg, Key, Row, Value, string, number, boolean, strings, other, window_size, data_loaded,
  key, unknown, new_model_with_token, tab_count, tab_policies, tab_proxies, tab_keys,
}
use ai_proxy_centranity.Tui.Rows
use ai_proxy_centranity.Tui.Rows.{resource_list, resource_id, row_at, is_management_tab, can_toggle}
use ai_proxy_centranity.Tui.Requests.{Outside}
use ai_proxy_centranity.Tui.Actions.{
  open_create_form, open_edit_form, edit_form, edit_id, edit_row, shown_targets,
}
use ai_proxy_centranity.Tui.Update.{
  to, Step, update, load, press, navigate, go, next_tab, prev_tab, jump, jump_or_act, action_key,
  opened, is_right, is_left,
}
use ai_proxy_centranity.Tui.Focus.{IsFocused, set_value-IsFocused}
use ai_proxy_centranity.Tui.Steady.{
  IsFormReady, IsSteady, IsSafe, safe, handle_form_key-IsSafe, resource_id-some,
  handle_confirm_key-IsSafe, new_form_state-IsFocused, create-IsSteady,
}

shown_targets-IsFocused :
    (v : Option Value) (f : FormState) → IsFocused f → IsFocused (shown_targets v f)
shown_targets-IsFocused none f h = h
shown_targets-IsFocused (some (string s)) f h = h
shown_targets-IsFocused (some (number n)) f h = h
shown_targets-IsFocused (some (boolean b)) f h = h
shown_targets-IsFocused (some (strings ts)) f h = set_value-IsFocused 1 _ f h
shown_targets-IsFocused (some other) f h = h

edit_form-IsFocused : (tab : ℕ) (id : Text) (row : Row) → IsFocused (edit_form tab id row)
unfolding edit_form
edit_form-IsFocused tab id row = elim (Bool-cases (eqb tab tab_proxies)) [
  | inl a ↦ rw (a) (
      set_value-IsFocused 3 _ _ (
        set_value-IsFocused 2 _ _ (
          set_value-IsFocused 1 _ _ (
            set_value-IsFocused 0 _ _
              (new_form_state-IsFocused _ _ _ _ (refl, (refl, (refl, tt))))))))
  | inr a ↦ elim (Bool-cases (eqb tab tab_keys)) [
    | inl b ↦
        rw (a, b)
          (set_value-IsFocused 1 _ _
            (set_value-IsFocused 0 _ _ (new_form_state-IsFocused _ _ _ _ (refl, tt))))
    | inr b ↦
        rw (a, b)
          (shown_targets-IsFocused _ _
            (set_value-IsFocused 0 _ _ (new_form_state-IsFocused _ _ _ _ (refl, tt))))
  ]
]

-- A row that is selected is there: `row_at` fails on an empty list only, and there the identifier is
-- empty.
edit_at-IsSafe :
    (id : Text) (rows : List Row) (m : Model)
    → is_empty id ≡ false
    → Rows.id_in (Rows.id_key m.active_tab) rows 0 ≡ some id
    → IsSteady m
    → IsSafe (opened (edit_row id (row_at rows 0) m))
unfolding row_at is_empty
edit_at-IsSafe id [] m n e s = ground (arith, e, n)
edit_at-IsSafe id (r ∷ rs) m n e s =
    safe (record m { form = some (edit_form m.active_tab id r) }) _ _
      (s.0, (s.1.0, edit_form-IsFocused m.active_tab id r))

edit_id-IsSafe : (m : Model) → IsSteady m → IsSafe (opened (edit_id (resource_id m) m))
unfolding resource_id
edit_id-IsSafe m s =
    let (id, e) = resource_id-some m (s.1.0) in
    elim (Bool-cases (is_empty id)) [
      | inl a ↦ rw (e, a) (safe m _ _ s)
      | inr a ↦
          let there =
            sym (ap (Rows.id_in (Rows.id_key m.active_tab) (resource_list m)) (s.1.0)) ∙ e in
          rw (e, a)
            (subst (λ i. IsSafe (opened (edit_row id (row_at (resource_list m) i) m))) (sym (s.1.0))
              (edit_at-IsSafe id (resource_list m) m a there s))
    ]

open_edit_form-IsSafe : (m : Model) → IsSteady m → IsSafe (opened (open_edit_form m))
unfolding open_edit_form
open_edit_form-IsSafe m s = elim (Bool-cases (is_management_tab m.active_tab)) [
  | inr a ↦ rw (a) (safe m _ _ s)
  | inl a ↦ elim (Bool-cases (eqb m.active_tab tab_policies)) [
    | inl b ↦ rw (a, b) (safe (open_create_form m) _ _ (create-IsSteady m s))
    | inr b ↦ rw (a, b) (edit_id-IsSafe m s)
  ]
]

ask-IsSafe :
    (b : Bool) (label : Text) (m : Model)
    → IsSteady m
    → IsSafe (some (to (if b then record m { confirm = label } else m)))
ask-IsSafe true label m s = safe (record m { confirm = label }) _ _ s
ask-IsSafe false label m s = safe m _ _ s

action_key-IsSafe : (name : Text) (m : Model) → IsSteady m → IsSafe (action_key name m)
unfolding action_key
action_key-IsSafe name m s = elim (Bool-cases (name == text "a")) [
  | inl a ↦ rw (a) (safe (open_create_form m) _ _ (create-IsSteady m s))
  | inr a ↦ elim (Bool-cases (name == text "e")) [
    | inl b ↦ rw (a, b) (open_edit_form-IsSafe m s)
    | inr b ↦ elim (Bool-cases (name == text "d")) [
      | inl c ↦ rw (a, b, c) (ask-IsSafe (is_management_tab m.active_tab) (text "delete") m s)
      | inr c ↦ elim (Bool-cases (name == text "x")) [
        | inl d ↦ rw (a, b, c, d) (ask-IsSafe (can_toggle m.active_tab) (text "toggle") m s)
        | inr d ↦ rw (a, b, c, d) (safe m _ _ s)
      ]
    ]
  ]
]

jump-bound : (name : Text) (tab : ℕ) → jump name ≡ some tab → tab < tab_count
unfolding jump
jump-bound name tab e = ground (arith, e)

go-IsSafe : (tab : ℕ) (m : Model) → tab < tab_count → IsSteady m → IsSafe (go tab m)
go-IsSafe tab m b s = safe (record m { active_tab = tab }) _ _ (b, s.1)

next_tab-bound : (tab : ℕ) → next_tab tab < tab_count
unfolding next_tab
next_tab-bound tab = omega arith

prev_tab-bound : (tab : ℕ) → tab < tab_count → prev_tab tab < tab_count
unfolding prev_tab
prev_tab-bound tab b = ground arith

jump_or_act-IsSafe :
    (name : Text) (m : Model) → IsSteady m → IsSafe (jump_or_act (jump name) name m)
jump_or_act-IsSafe name m s = elim (Option-cases (jump name)) [
  | inl n ↦ rw (n) (action_key-IsSafe name m s)
  | inr (tab, e) ↦ rw (e) (go-IsSafe tab m (jump-bound name tab e) s)
]

navigate-IsSafe : (name : Text) (m : Model) → IsSteady m → IsSafe (navigate name m)
unfolding navigate
navigate-IsSafe name m s = elim (Bool-cases (name == text "q" || name == text "ctrl+c")) [
  | inl a ↦ rw (a) (safe m _ _ s)
  | inr a ↦ elim (Bool-cases (is_right name)) [
    | inl b ↦ rw (a, b) (go-IsSafe (next_tab m.active_tab) m (next_tab-bound m.active_tab) s)
    | inr b ↦ elim (Bool-cases (is_left name)) [
      | inl c ↦
          rw (a, b, c) (go-IsSafe (prev_tab m.active_tab) m (prev_tab-bound m.active_tab (s.0)) s)
      | inr c ↦ elim (Bool-cases (name == text "r")) [
        | inl d ↦ rw (a, b, c, d) (safe m _ _ s)
        | inr d ↦ rw (a, b, c, d) (jump_or_act-IsSafe name m s)
      ]
    ]
  ]
]

press-IsSafe :
    (o : Outside) (k : Key) (f : Option FormState) (m : Model)
    → IsFormReady f
    → IsSteady m
    → IsSafe (press o k f m)
press-IsSafe o k (some f) m h s = handle_form_key-IsSafe o k f m h s
press-IsSafe o k none m h s = elim (Bool-cases (is_empty m.confirm)) [
  | inl a ↦ rw (a) (navigate-IsSafe k.name m s)
  | inr a ↦ rw (a) (handle_confirm_key-IsSafe o k m s)
]

update-IsSafe : (o : Outside) (msg : Msg) (m : Model) → IsSteady m → IsSafe (update o msg m)
unfolding update load
update-IsSafe o (window_size w h) m s = safe (record m { width = w; height = h }) _ _ s
update-IsSafe o (data_loaded now d) m s = safe (load now d m) _ _ s
update-IsSafe o (key k) m s = press-IsSafe o k m.form m (s.1.1) s
update-IsSafe o unknown m s = safe m _ _ s

-- The models of a session; it ends early, in `none`, where Go would panic.
abbrev pub model_of : Option Step → Option Model
model_of none = none
model_of (some s) = some s.model

stepped : (o : Option Step) → IsSafe o → (s : Step) × ((o ≡ some s) × IsSteady s.model)
unfolding IsSafe
stepped none h = ground (arith, h)
stepped (some s) h = (s, (refl, h))

abbrev pub run : Outside → List Msg → Option Model → Option Model
run o msgs none = none
run o [] (some m) = some m
run o (msg ∷ msgs) (some m) = run o msgs (model_of (update o msg m))

stays :
    (o : Outside) (msgs : List Msg) (m : Model)
    → IsSteady m
    → (n : Model) × ((run o msgs (some m) ≡ some n) × IsSteady n)
stays o [] m s = (m, (refl, s))
stays o (msg ∷ msgs) m s =
    let (x, (e, t)) = stepped (update o msg m) (update-IsSafe o msg m s) in
    rw (run, e) (stays o msgs x.model t)

-- From its start, whatever the keys, the windows and the data that arrive, and in whatever order, the
-- interface never indexes out of range: it stays on one of the twelve screens, with the first row
-- selected, and an open form has exactly one field in focus.
pub run-IsSteady :
    (o : Outside) (api_url token : Text) (now : ℕ) (msgs : List Msg)
    → (n : Model) × ((run o msgs (some (new_model_with_token api_url token now)) ≡ some n)
        × IsSteady n)
unfolding new_model_with_token
run-IsSteady o api_url token now msgs =
    stays o msgs (new_model_with_token api_url token now) (ground arith, (refl, tt))
