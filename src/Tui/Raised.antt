-- ===== src/Tui/Raised.antt =====
-- Which key of internal/tui/app.go raises the question that a deletion answers.
use mathlib.Core.Option.{some-injective}
use ai_proxy_centranity.Base.{
  ℕ, subst, ◌||◌, refl, sym, ap, ◌∙◌, false, true, Bool-cases, Option-cases, inr, inl, ◌∷◌, ◌⊎◌,
  if◌then◌else◌, Bool, eqb, ◌≡◌, arith, Option, none, some, List, [], Any,
}
use ai_proxy_centranity.Base.Text.{eq_iff, ◌==◌, is_empty, Text, text}
use ai_proxy_centranity.Tui.Form.{FormState, next_focus, prev_focus}
use ai_proxy_centranity.Tui.State.{
  Row, unknown, data_loaded, window_size, key, Msg, Key, Model, new_model_with_token, tab_policies,
}
use ai_proxy_centranity.Tui.Rows.{resource_id, is_management_tab, can_toggle}
use ai_proxy_centranity.Tui.Requests.{Outside, Sent}
use ai_proxy_centranity.Tui.Actions.{
  do_confirm_action, open_create_form, open_edit_form, edit_id, edit_row,
}
use ai_proxy_centranity.Tui.Update.{
  is_yes, is_no, update, load, press, handle_confirm_key, confirmed, typed, at_focus, keep_form,
  jump_or_act, jump, navigate, is_left, is_right, handle_form_key, Step, action_key, opened,
}
use ai_proxy_centranity.Tui.Safety.{run, model_of}
use ai_proxy_centranity.Tui.Confirmed.{Deletes, update-Deletes}

-- The key d.
abbrev pub Raises : Msg → Type 0
Raises msg = (k : Key) × (msg ≡ key k) × (k.name ≡ text "d")

-- After the step the question is whether to delete only if it was before, or the key is d.
abbrev Asks : Text → Model → Model → Type 0
Asks name m n = n.confirm ≡ text "delete" → (m.confirm ≡ text "delete") ⊎ (name ≡ text "d")

-- The same of a step, if there is one.
abbrev AsksIn : Text → Model → Option Step → Type 0
AsksIn name m none = Unit
AsksIn name m (some s) = Asks name m s.model

open_create_form-Asks : (name : Text) (m : Model) → Asks name m (open_create_form m)
unfolding open_create_form
open_create_form-Asks name m d = inl (ground (arith, d))

edit_row-Asks :
    (name id : Text) (r : Option Row) (m : Model) → AsksIn name m (opened (edit_row id r m))
edit_row-Asks name id none m = tt
edit_row-Asks name id (some row) m = inl

edit_id-Asks : (name : Text) (id : Option Text) (m : Model) → AsksIn name m (opened (edit_id id m))
edit_id-Asks name none m = tt
edit_id-Asks name (some id) m = elim (Bool-cases (is_empty id)) [
  | inl a ↦ rw (a) inl
  | inr a ↦ rw (a) (edit_row-Asks name id _ m)
]

open_edit_form-Asks : (name : Text) (m : Model) → AsksIn name m (opened (open_edit_form m))
unfolding open_edit_form
open_edit_form-Asks name m = elim (Bool-cases (is_management_tab m.active_tab)) [
  | inr a ↦ rw (a) inl
  | inl a ↦ elim (Bool-cases (eqb m.active_tab tab_policies)) [
    | inl b ↦ rw (a, b) (open_create_form-Asks name m)
    | inr b ↦ rw (a, b) (edit_id-Asks name (resource_id m) m)
  ]
]

keep_form-Asks : (name : Text) (f : Option FormState) (m : Model) → AsksIn name m (keep_form f m)
keep_form-Asks name none m = tt
keep_form-Asks name (some f) m = inl

handle_form_key-Asks :
    (o : Outside) (k : Key) (f : FormState) (m : Model) → AsksIn k.name m (handle_form_key o k f m)
unfolding handle_form_key
handle_form_key-Asks o k f m = elim (Bool-cases (k.name == text "esc")) [
  | inl a ↦ rw (a) inl
  | inr a ↦ elim (Bool-cases (k.name == text "tab")) [
    | inl b ↦ rw (a, b) (keep_form-Asks k.name (at_focus f (next_focus f)) m)
    | inr b ↦ elim (Bool-cases (k.name == text "shift+tab")) [
      | inl c ↦ rw (a, b, c) (keep_form-Asks k.name (at_focus f (prev_focus f)) m)
      | inr c ↦ elim (Bool-cases (k.name == text "enter")) [
        | inl d ↦ rw (a, b, c, d) inl
        | inr d ↦ rw (a, b, c, d) (keep_form-Asks k.name (typed k.runes f) m)
      ]
    ]
  ]
]

toggle_not_delete : ¬ (text "toggle" ≡ text "delete")
toggle_not_delete e = ground (arith, e)

-- The label that the key x sets is another one.
toggled-Asks :
    (name : Text) (m : Model) (b : Bool)
    → Asks name m (if b then record m { confirm = text "toggle" } else m)
toggled-Asks name m true d = ground (arith, toggle_not_delete d)
toggled-Asks name m false d = inl d

action_key-Asks : (name : Text) (m : Model) → AsksIn name m (action_key name m)
unfolding action_key
action_key-Asks name m = elim (Bool-cases (name == text "a")) [
  | inl a ↦ rw (a) (open_create_form-Asks name m)
  | inr a ↦ elim (Bool-cases (name == text "e")) [
    | inl b ↦ rw (a, b) (open_edit_form-Asks name m)
    | inr b ↦ elim (Bool-cases (name == text "d")) [
      | inl c ↦ rw (a, b, c) (λ d. inr ((eq_iff name (text "d")).0 c))
      | inr c ↦ elim (Bool-cases (name == text "x")) [
        | inl x ↦ rw (a, b, c, x) (toggled-Asks name m (can_toggle m.active_tab))
        | inr x ↦ rw (a, b, c, x) inl
      ]
    ]
  ]
]

jump_or_act-Asks : (name : Text) (m : Model) (o : Option ℕ) → AsksIn name m (jump_or_act o name m)
jump_or_act-Asks name m none = action_key-Asks name m
jump_or_act-Asks name m (some tab) = inl

navigate-Asks : (name : Text) (m : Model) → AsksIn name m (navigate name m)
unfolding navigate
navigate-Asks name m = elim (Bool-cases (name == text "q" || name == text "ctrl+c")) [
  | inl a ↦ rw (a) inl
  | inr a ↦ elim (Bool-cases (is_right name)) [
    | inl b ↦ rw (a, b) inl
    | inr b ↦ elim (Bool-cases (is_left name)) [
      | inl c ↦ rw (a, b, c) inl
      | inr c ↦ elim (Bool-cases (name == text "r")) [
        | inl d ↦ rw (a, b, c, d) inl
        | inr d ↦ rw (a, b, c, d) (jump_or_act-Asks name m (jump name))
      ]
    ]
  ]
]

empty_not_delete : ¬ ([] ≡ text "delete")
empty_not_delete e = ground (arith, e)

confirmed-Asks : (name : Text) (x : Option (List Sent)) (m : Model) → AsksIn name m (confirmed x m)
confirmed-Asks name none m = tt
confirmed-Asks name (some sent) m = λ d. ground (arith, empty_not_delete d)

handle_confirm_key-Asks :
    (o : Outside) (k : Key) (m : Model) → AsksIn k.name m (handle_confirm_key o k m)
unfolding handle_confirm_key
handle_confirm_key-Asks o k m = elim (Bool-cases (is_yes k.name)) [
  | inl a ↦ rw (a) (confirmed-Asks k.name (do_confirm_action o m) m)
  | inr a ↦ elim (Bool-cases (is_no k.name)) [
    | inl b ↦ rw (a, b) (λ d. ground (arith, empty_not_delete d))
    | inr b ↦ rw (a, b) inl
  ]
]

press-Asks :
    (o : Outside) (k : Key) (f : Option FormState) (m : Model) → AsksIn k.name m (press o k f m)
press-Asks o k (some f) m = handle_form_key-Asks o k f m
press-Asks o k none m = elim (Bool-cases (is_empty m.confirm)) [
  | inl a ↦ rw (a) (navigate-Asks k.name m)
  | inr a ↦ rw (a) (handle_confirm_key-Asks o k m)
]

asked_by :
    (k : Key) (m : Model) (x : Option Step) (s : Step)
    → AsksIn k.name m x
    → x ≡ some s
    → s.model.confirm ≡ text "delete"
    → (m.confirm ≡ text "delete") ⊎ Raises (key k)
asked_by k m x s asks e d = elim (subst (AsksIn k.name m) e asks d) [
  | inl old ↦ inl old
  | inr name ↦ inr (k, refl, name)
]

-- In one step the question whether to delete arises by the key d only.
update-Raises :
    (o : Outside) (msg : Msg) (m : Model) (s : Step)
    → update o msg m ≡ some s
    → s.model.confirm ≡ text "delete"
    → (m.confirm ≡ text "delete") ⊎ Raises msg
unfolding update load
update-Raises o (window_size w h) m s e d =
    inl (ap (λ x. x.model.confirm) (some-injective _ _ e) ∙ d)
update-Raises o (data_loaded now l) m s e d =
    inl (ap (λ x. x.model.confirm) (some-injective _ _ e) ∙ d)
update-Raises o (key k) m s e d = asked_by k m _ s (press-Asks o k m.form m) e d
update-Raises o unknown m s e d = inl (ap (λ x. x.model.confirm) (some-injective _ _ e) ∙ d)

-- The question stands after some messages: it stood before them, or one of them is the key d.
run-Raises :
    (o : Outside) (msgs : List Msg) (m n : Model)
    → run o msgs (some m) ≡ some n
    → n.confirm ≡ text "delete"
    → (m.confirm ≡ text "delete") ⊎ Any Raises msgs
run-Raises o [] m n e d = inl (ap (λ x. x.confirm) (some-injective _ _ e) ∙ d)
run-Raises o (msg ∷ msgs) m n e d = elim (Option-cases (update o msg m)) [
  | inl z ↦ ground (arith, stopped o msgs n (sym (ap (λ x. run o msgs (model_of x)) z) ∙ e))
  | inr (s, z) ↦
      elim (run-Raises o msgs s.model n (sym (ap (λ x. run o msgs (model_of x)) z) ∙ e) d) [
        | inl asked ↦ elim (update-Raises o msg m s z asked) [
          | inl old ↦ inl old
          | inr now ↦ inr (inl now)
        ]
        | inr later ↦ inr (inr later)
      ]
]
  where
    stopped : (o : Outside) (msgs : List Msg) (n : Model) → ¬ (run o msgs none ≡ some n)
    stopped o msgs n e = ground (arith, e)

-- From its start, whatever has arrived, the interface asks the API to delete something only in answer
-- to the key y, with no form open, while the question whether to delete stands, and only if the key d
-- is among the messages before.
pub run-Deletes :
    (o : Outside) (api_url token : Text) (now : ℕ) (msgs : List Msg) (msg : Msg) (m : Model)
    (s : Step)
    → run o msgs (some (new_model_with_token api_url token now)) ≡ some m
    → update o msg m ≡ some s
    → Deletes s.sent
    → Any Raises msgs
      × ((m.form ≡ none)
          × ((m.confirm ≡ text "delete") × ((k : Key) × ((msg ≡ key k) × (is_yes k.name ≡ true)))))
unfolding new_model_with_token
run-Deletes o api_url token now msgs msg m s reached e d =
    let asked = update-Deletes o msg m s e d in
    (
      from_start (run-Raises o msgs (new_model_with_token api_url token now) m reached (asked.1.0)),
      asked,
    )
  where
    from_start : ([] ≡ text "delete") ⊎ Any Raises msgs → Any Raises msgs
    from_start (inl e) = ground (arith, empty_not_delete e)
    from_start (inr h) = h
