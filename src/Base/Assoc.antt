-- ===== src/Base/Assoc.antt =====
-- Go's `map[string]V` as an association list: `m[k]`, `m[k] = v`, `delete(m, k)`, and the values in
-- the order of the list. Go iterates in no fixed order; the theorems about such loops say where
-- the order matters.
use mathlib.Core.Bool.{Bool, true, false}
use mathlib.Core.List.{List, [], ◌∷◌}
use mathlib.Core.Logic.{inl, inr}
use mathlib.Core.Option.{Option, none, some}
use mathlib.Core.Path.{◌≡◌}
use native.Mathlib.Omega.{arith}
use ai_proxy_centranity.Base.Lists.{All}
use ai_proxy_centranity.Base.Tests.{if◌then◌else◌, Bool-cases}
use ai_proxy_centranity.Base.Text.{Text, ◌==◌, eq_iff, eq_refl}

abbrev pub Assoc {ℓ} : Type ℓ → Type ℓ
Assoc V = List (Text × V)

module _ {ℓ} {V : Type ℓ} where
  unfoldable pub lookup : Text → Assoc V → Option V
  unfolding ◌==◌
  lookup key [] = none
  lookup key ((name, held) ∷ rest) =
      let later = lookup key rest in elim (name == key) [ true ↦ some held | false ↦ later ]

  unfoldable pub insert : Text → V → Assoc V → Assoc V
  unfolding ◌==◌
  insert key value [] = (key, value) ∷ []
  insert key value ((name, held) ∷ rest) =
      let later = insert key value rest in
      elim (name == key) [ true ↦ (key, value) ∷ rest | false ↦ (name, held) ∷ later ]

  unfoldable pub remove : Text → Assoc V → Assoc V
  unfolding ◌==◌
  remove key [] = []
  remove key ((name, held) ∷ rest) =
      let later = remove key rest in
      elim (name == key) [ true ↦ later | false ↦ (name, held) ∷ later ]

  abbrev pub values : Assoc V → List V
  values [] = []
  values ((k, v) ∷ m) = v ∷ values m

  -- `_, exists := m[k]`
  abbrev pub exists : Option V → Bool
  exists none = false
  exists (some v) = true

  -- An assignment is seen under its own name, and under no other.
  pub lookup-insert :
      (name key : Text) (value : V) (m : Assoc V)
      → lookup key (insert name value m) ≡ (if name == key then some value else lookup key m)
  unfolding lookup insert
  lookup-insert name key value [] = ground arith
  lookup-insert name key value ((other, held) ∷ rest) =
      let later = lookup-insert name key value rest in
      ground (arith, later, eq_iff other name, eq_iff other key, eq_iff name key)

  pub lookup-remove :
      (name key : Text) (m : Assoc V)
      → lookup key (remove name m) ≡ (if name == key then none else lookup key m)
  unfolding lookup remove
  lookup-remove name key [] = ground arith
  lookup-remove name key ((other, held) ∷ rest) =
      let later = lookup-remove name key rest in
      ground (arith, later, eq_iff other name, eq_iff other key, eq_iff name key)

  pub lookup-insert_self :
      (name : Text) (value : V) (m : Assoc V) → lookup name (insert name value m) ≡ some value
  lookup-insert_self name value m = rw (lookup-insert, eq_refl)

  pub lookup-remove_self : (name : Text) (m : Assoc V) → lookup name (remove name m) ≡ none
  lookup-remove_self name m = rw (lookup-remove, eq_refl)

  -- A property of all entries, from one to the next state of a map.
  pub All-insert :
      (P : Text × V → Type 0) (key : Text) (value : V) (m : Assoc V)
      → P (key, value)
      → All P m
      → All P (insert key value m)
  unfolding insert
  All-insert P key value [] p h = (p, tt)
  All-insert P key value ((name, held) ∷ rest) p h =
      elim (name == key)
        as (λ b.
          All P (elim b [
            | true ↦ (key, value) ∷ rest
            | false ↦ (name, held) ∷ insert key value rest
          ])) [ true ↦ (p, h.1) | false ↦ (h.0, All-insert P key value rest p (h.1)) ]

  pub All-remove :
      (P : Text × V → Type 0) (key : Text) (m : Assoc V) → All P m → All P (remove key m)
  unfolding remove
  All-remove P key [] h = tt
  All-remove P key ((name, held) ∷ rest) h =
      elim (name == key)
        as (λ b.
          All P (elim b [ true ↦ remove key rest | false ↦ (name, held) ∷ remove key rest ])) [
            | true ↦ All-remove P key rest (h.1)
            | false ↦ (h.0, All-remove P key rest (h.1))
          ]

  pub All-lookup :
      (P : Text × V → Type 0) (key : Text) (value : V) (m : Assoc V)
      → lookup key m ≡ some value
      → All P m
      → P (key, value)
  unfolding lookup
  All-lookup P key value [] e h = ground arith
  All-lookup P key value ((name, held) ∷ rest) e h = elim (Bool-cases (name == key)) [
    | inl t ↦ ground (arith, eq_iff name key, h.0)
    | inr f ↦ All-lookup P key value rest (ground arith) (h.1)
  ]

  -- A second assignment to a key undoes the first.
  pub insert-insert : (k : Text) (v w : V) (m : Assoc V) → insert k v (insert k w m) ≡ insert k v m
  unfolding insert
  insert-insert k v w [] = ground (arith, eq_refl k)
  insert-insert k v w ((j, u) ∷ m) = ground (arith, eq_iff j k, eq_iff k k, insert-insert k v w m)

pub ruleset assoc_laws = (lookup-insert, lookup-remove, eq_refl)
