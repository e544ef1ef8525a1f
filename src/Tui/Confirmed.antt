-- ===== src/Tui/Confirmed.antt =====
-- What internal/tui/app.go sends, and after which key.
use ai_proxy_centranity.Base.{
  refl, false, true, eqb, Bool-cases, inr, inl, ◌∷◌, sym, ◌++◌, subst, ◌⊎◌, if◌then◌else◌, Bool, ℕ,
  ◌≡◌, arith, Option, none, some, List, [], Any,
}
use ai_proxy_centranity.Base.Text.{eq_iff, ◌==◌, is_empty, Text, text}
use ai_proxy_centranity.Tui.Form
use ai_proxy_centranity.Tui.State.{
  unknown, data_loaded, window_size, tab_keys, tab_proxies, key, Msg, Key, Model,
}
use ai_proxy_centranity.Tui.Requests.{submit_values, submit, do_request, Outside, Sent}
use ai_proxy_centranity.Tui.Actions.{
  do_confirm_action, act_on, toggle, delete_or_toggle, open_edit_form,
}
use ai_proxy_centranity.Tui.Update.{
  to, is_yes, update, press, handle_confirm_key, confirmed, typed, at_focus, keep_form, jump_or_act,
  jump, navigate, handle_form_key, Step, action_key, opened,
}
use ai_proxy_centranity.Tui.Form.{prev_focus, next_focus, Submission, FormState}
use ai_proxy_centranity.Base.Assoc.{Assoc}
use ai_proxy_centranity.Tui.Rows.{selected_enabled, resource_id}

-- One of the requests deletes something.
abbrev pub Deletes : List Sent → Type 0
Deletes = Any (λ r. r.method ≡ text "DELETE")

opened-sent : (o : Option Model) (s : Step) → opened o ≡ some s → s.sent ≡ []
opened-sent none s e = ground (arith, e)
opened-sent (some m) s e = cc

action_key-sent : (name : Text) (m : Model) (s : Step) → action_key name m ≡ some s → s.sent ≡ []
unfolding action_key
action_key-sent name m s e = ground (arith, e, opened-sent (open_edit_form m) s)

jump_or_act-sent :
    (o : Option ℕ) (name : Text) (m : Model) (s : Step)
    → jump_or_act o name m ≡ some s
    → s.sent ≡ []
jump_or_act-sent none name m s e = action_key-sent name m s e
jump_or_act-sent (some tab) name m s e = cc

navigate-sent : (name : Text) (m : Model) (s : Step) → navigate name m ≡ some s → s.sent ≡ []
unfolding navigate
navigate-sent name m s e = ground (arith, e, jump_or_act-sent (jump name) name m s)

-- A request deletes something only by its method.
do_request-Deletes :
    (o : Outside) (m : Model) (method path body : Text)
    → Deletes (do_request o m method path body)
    → method ≡ text "DELETE"
unfolding do_request
do_request-Deletes o m method path body = by_url (o.is_url (m.api_url ++ path))
  where
    by_url :
        (b : Bool)
        → Deletes (
            if b
            then record {
              method = method;
              url = m.api_url ++ path;
              body = body;
              content_type = if is_empty body then [] else text "application/json";
              authorization =
                  if is_empty m.admin_token then [] else text "Bearer " ++ m.admin_token;
            }
              ∷ []
            else [])
        → method ≡ text "DELETE"
    by_url true (inl e) = e
    by_url true (inr h) = ground (arith, h)
    by_url false h = ground (arith, h)

post_not_delete : ¬ (text "POST" ≡ text "DELETE")
post_not_delete e = ground (arith, e)

put_not_delete : ¬ (text "PUT" ≡ text "DELETE")
put_not_delete e = ground (arith, e)

submit_values-Deletes :
    (o : Outside) (m : Model) (sub : Submission) (v : Assoc Text)
    → ¬ Deletes (submit_values o m sub v)
unfolding submit_values
submit_values-Deletes o m Form.add_proxy v h = post_not_delete (do_request-Deletes o m _ _ _ h)
submit_values-Deletes o m Form.add_key v h = post_not_delete (do_request-Deletes o m _ _ _ h)
submit_values-Deletes o m Form.set_policies v h = put_not_delete (do_request-Deletes o m _ _ _ h)
submit_values-Deletes o m Form.add_route v h = put_not_delete (do_request-Deletes o m _ _ _ h)
submit_values-Deletes o m (Form.edit_proxy id) v h = put_not_delete (do_request-Deletes o m _ _ _ h)
submit_values-Deletes o m (Form.edit_key id) v h = put_not_delete (do_request-Deletes o m _ _ _ h)
submit_values-Deletes o m (Form.edit_route id) v h = put_not_delete (do_request-Deletes o m _ _ _ h)

submit-Deletes : (o : Outside) (m : Model) (f : FormState) → ¬ Deletes (submit o m f)
unfolding submit
submit-Deletes o m f = submit_values-Deletes o m f.on_submit _

keep_form-sent :
    (g : Option FormState) (m : Model) (s : Step) → keep_form g m ≡ some s → s.sent ≡ []
keep_form-sent none m s e = ground (arith, e)
keep_form-sent (some g) m s e = cc

-- A form's key sends nothing, or what the form submits.
handle_form_key-sent :
    (o : Outside) (k : Key) (f : FormState) (m : Model) (s : Step)
    → handle_form_key o k f m ≡ some s
    → (s.sent ≡ []) ⊎ (s.sent ≡ submit o m f)
unfolding handle_form_key
handle_form_key-sent o k f m s e = ground (
  arith,
  e,
  keep_form-sent (at_focus f (next_focus f)) m s,
  keep_form-sent (at_focus f (prev_focus f)) m s,
  keep_form-sent (typed k.runes f) m s,
)

some_injective : (x y : List Sent) → some x ≡ some y → x ≡ y
some_injective x y e = cc

none_sent : (sent : List Sent) → some [] ≡ some sent → ¬ Deletes sent
none_sent sent e h = subst Deletes (sym (some_injective [] sent e)) h

toggle-Deletes :
    (o : Outside) (path : Text) (b : Option Bool) (m : Model) (sent : List Sent)
    → toggle o path b m ≡ some sent
    → ¬ Deletes sent
toggle-Deletes o path none m sent e h = ground (arith, e)
toggle-Deletes o path (some b) m sent e h =
    put_not_delete
      (do_request-Deletes o m (text "PUT") path _ (subst Deletes (sym (some_injective _ sent e)) h))

-- Only with the label "delete" does a confirmation delete anything.
delete_or_toggle-Deletes :
    (o : Outside) (path : Text) (m : Model) (sent : List Sent)
    → delete_or_toggle o path m ≡ some sent
    → Deletes sent
    → m.confirm ≡ text "delete"
delete_or_toggle-Deletes o path m sent e h = elim (Bool-cases (m.confirm == text "delete")) [
  | inl a ↦ (eq_iff m.confirm (text "delete")).0 a
  | inr a ↦ elim (Bool-cases (m.confirm == text "toggle")) [
    | inl b ↦
        let same : toggle o path (selected_enabled m) m ≡ some sent = ground (arith, e, a, b) in
        ground (arith, toggle-Deletes o path (selected_enabled m) m sent same h)
    | inr b ↦
        let same : some [] ≡ some sent = ground (arith, e, a, b) in
        ground (arith, none_sent sent same h)
  ]
]

act_on-Deletes :
    (o : Outside) (id : Option Text) (m : Model) (sent : List Sent)
    → act_on o id m ≡ some sent
    → Deletes sent
    → m.confirm ≡ text "delete"
act_on-Deletes o none m sent e h = ground (arith, e)
act_on-Deletes o (some id) m sent e h = elim (Bool-cases (is_empty id)) [
  | inl a ↦
      let same : some [] ≡ some sent = ground (arith, e, a) in ground (arith, none_sent sent same h)
  | inr a ↦ elim (Bool-cases (eqb m.active_tab tab_proxies)) [
    | inl b ↦
        delete_or_toggle-Deletes o (text "/api/v1/proxies/" ++ id) m sent (ground (arith, e, a, b))
          h
    | inr b ↦ elim (Bool-cases (eqb m.active_tab tab_keys)) [
      | inl c ↦
          delete_or_toggle-Deletes o (text "/api/v1/keys/" ++ id) m sent
            (ground (arith, e, a, b, c)) h
      | inr c ↦ elim (Bool-cases (m.confirm == text "delete")) [
        | inl d ↦ (eq_iff m.confirm (text "delete")).0 d
        | inr d ↦
            let same : some [] ≡ some sent = ground (arith, e, a, b, c, d) in
            ground (arith, none_sent sent same h)
      ]
    ]
  ]
]

confirmed-sent :
    (x : Option (List Sent)) (m : Model) (s : Step) → confirmed x m ≡ some s → x ≡ some s.sent
confirmed-sent none m s e = ground (arith, e)
confirmed-sent (some sent) m s e = cc

nothing_deleted : (s : Step) → s.sent ≡ [] → ¬ Deletes s.sent
nothing_deleted s e h = subst Deletes e h

handle_confirm_key-Deletes :
    (o : Outside) (k : Key) (m : Model) (s : Step)
    → handle_confirm_key o k m ≡ some s
    → Deletes s.sent
    → (m.confirm ≡ text "delete") × (is_yes k.name ≡ true)
unfolding handle_confirm_key do_confirm_action
handle_confirm_key-Deletes o k m s e h = elim (Bool-cases (is_yes k.name)) [
  | inl a ↦
      let done : confirmed (do_confirm_action o m) m ≡ some s = ground (arith, e, a) in
      (act_on-Deletes o (resource_id m) m s.sent (confirmed-sent _ m s done) h, a)
  | inr a ↦
      let idle : s.sent ≡ [] = ground (arith, e, a) in ground (arith, nothing_deleted s idle h)
]

-- A key in a model with this form.
press-Deletes :
    (o : Outside) (k : Key) (f : Option FormState) (m : Model) (s : Step)
    → press o k f m ≡ some s
    → Deletes s.sent
    → (f ≡ none) × ((m.confirm ≡ text "delete") × (is_yes k.name ≡ true))
press-Deletes o k (some f) m s e h = elim (handle_form_key-sent o k f m s e) [
  | inl z ↦ ground (arith, nothing_deleted s z h)
  | inr z ↦ ground (arith, submit-Deletes o m f (subst Deletes z h))
]
press-Deletes o k none m s e h = elim (Bool-cases (is_empty m.confirm)) [
  | inl a ↦
      let idle : navigate k.name m ≡ some s = ground (arith, e, a) in
      ground (arith, nothing_deleted s (navigate-sent k.name m s idle) h)
  | inr a ↦ (refl, handle_confirm_key-Deletes o k m s (ground (arith, e, a)) h)
]

idle : {m : Model} (s : Step) → some (to m) ≡ some s → s.sent ≡ []
idle s e = cc

-- A step asks the API to delete something only when the operator answers y while the question whether
-- to delete stands, with no form open.
pub update-Deletes :
    (o : Outside) (msg : Msg) (m : Model) (s : Step)
    → update o msg m ≡ some s
    → Deletes s.sent
    → (m.form ≡ none)
      × ((m.confirm ≡ text "delete") × ((k : Key) × ((msg ≡ key k) × (is_yes k.name ≡ true))))
unfolding update
update-Deletes o (window_size w h) m s e d = ground (arith, nothing_deleted s (idle s e) d)
update-Deletes o (data_loaded now l) m s e d = ground (arith, nothing_deleted s (idle s e) d)
update-Deletes o (key k) m s e d =
    let (f, (c, y)) = press-Deletes o k m.form m s e d in (f, (c, (k, (refl, y))))
update-Deletes o unknown m s e d = ground (arith, nothing_deleted s (idle s e) d)
