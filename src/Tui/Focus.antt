-- ===== src/Tui/Focus.antt =====
-- The focus of the forms of internal/tui/form.go: one field at a time, in a circle.
use ai_proxy_centranity.Base.{
  ◌-◌, ◌%◌, ◌+◌, inr, ltb, inl, eqb, ◌∙◌, Bool-cases, sym, subst, ap, All, ℕ, zero, suc, ◌<◌, ◌≡◌,
  refl, arith, true, false, List, [], ◌∷◌, length,
}
use native.Mathlib.Nat.{mod-lt}
use ai_proxy_centranity.Tui.Form.{
  type_in, set_value, prev_focus, next_focus, FormField, FormState, change_at, focus, move_to,
}
use ai_proxy_centranity.Base.Text.{Text}

-- Exactly the field at this place is in focus.
abbrev pub IsFocusedAt : ℕ → List FormField → Type 0
IsFocusedAt i [] = ⊥
IsFocusedAt zero (f ∷ fs) = (f.focused ≡ true) × All (λ g. g.focused ≡ false) fs
IsFocusedAt (suc i) (f ∷ fs) = (f.focused ≡ false) × IsFocusedAt i fs

-- The form's number of the field in focus is right.
abbrev pub IsFocused : FormState → Type 0
IsFocused f = IsFocusedAt f.focused f.fields

pub IsFocusedAt-bound : (i : ℕ) (fs : List FormField) → IsFocusedAt i fs → i < length fs
IsFocusedAt-bound i [] h = ground (arith, h)
IsFocusedAt-bound zero (f ∷ fs) h = ground arith
IsFocusedAt-bound (suc i) (f ∷ fs) h = ground (arith, IsFocusedAt-bound i fs (h.1))

abbrev IsBlurred : List FormField → Type 0
IsBlurred fs = All (λ g. g.focused ≡ false) fs

blur : (i : ℕ) (fs : List FormField) → IsFocusedAt i fs → IsBlurred (change_at i (focus false) fs)
unfolding change_at
blur i [] h = tt
blur zero (f ∷ fs) h = (refl, h.1)
blur (suc i) (f ∷ fs) h = (h.0, blur i fs (h.1))

refocus :
    (i : ℕ) (fs : List FormField)
    → IsBlurred fs
    → i < length fs
    → IsFocusedAt i (change_at i (focus true) fs)
unfolding change_at
refocus i [] h b = ground (arith, b)
refocus zero (f ∷ fs) h b = (refl, h.1)
refocus (suc i) (f ∷ fs) h b = (h.0, refocus i fs (h.1) (ground (arith, b)))

length-change_at :
    (i : ℕ) (c : FormField → FormField) (fs : List FormField)
    → length (change_at i c fs) ≡ length fs
unfolding change_at
length-change_at i c [] = refl
length-change_at zero c (f ∷ fs) = refl
length-change_at (suc i) c (f ∷ fs) = ap suc (length-change_at i c fs)

move_to-IsFocused :
    (j : ℕ) (f : FormState) → IsFocused f → j < length f.fields → IsFocused (move_to j f)
move_to-IsFocused j f h b =
    refocus j (change_at f.focused (focus false) f.fields) (blur f.focused f.fields h)
      (subst (λ n. j < n) (sym (length-change_at f.focused (focus false) f.fields)) b)

pub next_focus-IsFocused : (f : FormState) → IsFocused f → IsFocused (next_focus f)
unfolding next_focus
next_focus-IsFocused f h =
    let positive : 0 < length f.fields = ground (arith, IsFocusedAt-bound f.focused f.fields h) in
    elim (Bool-cases (eqb (length f.fields) 0)) [
      | inl y ↦ ground (arith, y, positive)
      | inr n ↦ rw (n) (
          move_to-IsFocused ((f.focused + 1) % length f.fields) f h
            (mod-lt (f.focused + 1) positive))
    ]

pub prev_focus-IsFocused : (f : FormState) → IsFocused f → IsFocused (prev_focus f)
unfolding prev_focus
prev_focus-IsFocused f h =
    let positive : 0 < length f.fields = ground (arith, IsFocusedAt-bound f.focused f.fields h) in
    elim (Bool-cases (eqb (length f.fields) 0)) [
      | inl y ↦ ground (arith, y, positive)
      | inr n ↦ rw (n) (
          move_to-IsFocused ((f.focused + length f.fields - 1) % length f.fields) f h
            (mod-lt (f.focused + length f.fields - 1) positive))
    ]

change_at-IsBlurred :
    (i : ℕ) (c : FormField → FormField) (fs : List FormField)
    → ((g : FormField) → (c g).focused ≡ g.focused)
    → IsBlurred fs
    → IsBlurred (change_at i c fs)
unfolding change_at
change_at-IsBlurred i c [] keeps h = h
change_at-IsBlurred zero c (f ∷ fs) keeps h = (keeps f ∙ h.0, h.1)
change_at-IsBlurred (suc i) c (f ∷ fs) keeps h = (h.0, change_at-IsBlurred i c fs keeps (h.1))

-- A change of a field that leaves its focus.
change_at-IsFocusedAt :
    (i j : ℕ) (c : FormField → FormField) (fs : List FormField)
    → ((g : FormField) → (c g).focused ≡ g.focused)
    → IsFocusedAt j fs
    → IsFocusedAt j (change_at i c fs)
unfolding change_at
change_at-IsFocusedAt i j c [] keeps h = h
change_at-IsFocusedAt zero zero c (f ∷ fs) keeps h = (keeps f ∙ h.0, h.1)
change_at-IsFocusedAt zero (suc j) c (f ∷ fs) keeps h = (keeps f ∙ h.0, h.1)
change_at-IsFocusedAt (suc i) zero c (f ∷ fs) keeps h =
    (h.0, change_at-IsBlurred i c fs keeps (h.1))
change_at-IsFocusedAt (suc i) (suc j) c (f ∷ fs) keeps h =
    (h.0, change_at-IsFocusedAt i j c fs keeps (h.1))

pub type_in-IsFocused : (runes : Text) (f : FormState) → IsFocused f → IsFocused (type_in runes f)
unfolding type_in
type_in-IsFocused runes f h = change_at-IsFocusedAt f.focused f.focused _ f.fields (λ g. refl) h

pub set_value-IsFocused :
    (i : ℕ) (v : Text) (f : FormState) → IsFocused f → IsFocused (set_value i v f)
unfolding set_value
set_value-IsFocused i v f h = elim (Bool-cases (ltb i (length f.fields))) [
  | inl y ↦ rw (y) (change_at-IsFocusedAt i f.focused _ f.fields (λ g. refl) h)
  | inr n ↦ rw (n) h
]
