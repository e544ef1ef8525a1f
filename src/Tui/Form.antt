-- ===== src/Tui/Form.antt =====
-- The modal form of internal/tui/form.go.
use ai_proxy_centranity.Base.{
  ◌++◌, ℕ, zero, suc, ◌+◌, ◌-◌, ◌%◌, Bool, true, false, List, [], ◌∷◌, length, ltb, eqb,
  if◌then◌else◌,
}
use ai_proxy_centranity.Base.Text.{Text}
use ai_proxy_centranity.Base.Assoc.{Assoc, insert}

pub record FormField : Type 0 where
  pub label : Text
  pub secret : Bool
  pub value : Text
  pub focused : Bool

-- Which of the closures of app.go is called with the values; one that edits holds the identifier.
pub data Submission : Type 0 where
  add_proxy : Submission
  add_key : Submission
  set_policies : Submission
  add_route : Submission
  edit_proxy : Text → Submission
  edit_key : Text → Submission
  edit_route : Text → Submission

pub record FormState : Type 0 where
  pub title : Text
  pub fields : List FormField
  pub focused : ℕ
  pub on_submit : Submission

-- `f.Fields[i]` changed in place; Go panics where there is no such field.
unfoldable pub change_at : ℕ → (FormField → FormField) → List FormField → List FormField
change_at i change [] = []
change_at zero change (f ∷ fs) = change f ∷ fs
change_at (suc i) change (f ∷ fs) = f ∷ change_at i change fs

abbrev pub focus : Bool → FormField → FormField
focus b f = record f { focused = b }

-- `NewFormState`
unfoldable pub new_form_state : Text → List FormField → Submission → FormState
new_form_state title fields on_submit = record {
  title = title;
  fields = change_at 0 (focus true) fields;
  focused = 0;
  on_submit = on_submit;
}

-- `SetValue`
unfoldable pub set_value : ℕ → Text → FormState → FormState
set_value i v f =
    if ltb i (length f.fields)
    then record f { fields = change_at i (λ g. record g { value = v }) f.fields }
    else f

-- The values that `Submit` gathers.
unfoldable pub gather : List FormField → Assoc Text → Assoc Text
gather [] values = values
gather (f ∷ fs) values = gather fs (insert f.label f.value values)

abbrev pub move_to : ℕ → FormState → FormState
move_to i f = record f {
  fields = change_at i (focus true) (change_at f.focused (focus false) f.fields);
  focused = i;
}

-- `NextFocus`
unfoldable pub next_focus : FormState → FormState
next_focus f = if eqb (length f.fields) 0 then f else move_to ((f.focused + 1) % length f.fields) f

-- `PrevFocus`; with a field in focus, `f.Focused - 1 + len(f.Fields)` is not negative.
unfoldable pub prev_focus : FormState → FormState
prev_focus f =
    if eqb (length f.fields) 0
    then f
    else move_to ((f.focused + length f.fields - 1) % length f.fields) f

-- Typed characters at the end of the field in focus.
unfoldable pub type_in : Text → FormState → FormState
type_in runes f = record f {
  fields = change_at f.focused (λ g. record g { value = g.value ++ runes }) f.fields;
}
