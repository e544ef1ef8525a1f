-- ===== src/Migrator/Pending.antt =====
-- The versions that internal/store/migrator.go has still to apply, as a list computed from the rows of the
-- tracker table.
use ai_proxy_centranity.Base.{
  ◌≡◌, Bool, true, false, List, [], ◌∷◌, ◌++◌, if◌then◌else◌, refl, ap, Bool-cases, inl, inr, arith,
}
use ai_proxy_centranity.Base.Text.{eq_refl, Text, ◌==◌}

unfoldable pub has : Text → List Text → Bool
has v [] = false
has v (w ∷ ws) = let rest = has v ws in if v == w then true else rest

-- The versions that are not recorded yet, in their order.
unfoldable pub pending : List Text → List Text → List Text
pending before [] = []
pending before (v ∷ vs) =
    let rest = pending before vs in
    let rest' = pending (v ∷ before) vs in if has v before then rest else v ∷ rest'

-- The rows after versions are recorded one after the other.
unfoldable pub record_all : List Text → List Text → List Text
record_all [] before = before
record_all (v ∷ vs) before = record_all vs (v ∷ before)

pub chosen : (b : Bool) (xs ys : List Text) → b ≡ true → (if b then xs else ys) ≡ xs
chosen b xs ys e = rw (e) refl

pub passed_over : (b : Bool) (xs ys : List Text) → b ≡ false → (if b then xs else ys) ≡ ys
passed_over b xs ys e = rw (e) refl

pub append_nil : (xs : List Text) → xs ++ [] ≡ xs
append_nil [] = refl
append_nil (x ∷ xs) = ap (λ ys. x ∷ ys) (append_nil xs)

pub append_is_nil : (xs ys : List Text) → xs ++ ys ≡ [] → xs ≡ []
append_is_nil [] ys e = refl
append_is_nil (x ∷ xs) ys e = ground (arith, e)

has-record_all :
    (v : Text) (vs before : List Text) → has v before ≡ true → has v (record_all vs before) ≡ true
unfolding has record_all
has-record_all v [] before h = h
has-record_all v (w ∷ vs) before h = has-record_all v vs (w ∷ before) (ground (arith, h))

-- What has been recorded is not pending any more.
pub pending-record_all :
    (vs before : List Text) → pending (record_all (pending before vs) before) vs ≡ []
unfolding pending record_all has
pending-record_all [] before = refl
pending-record_all (v ∷ vs) before = elim (Bool-cases (has v before)) [
  | inl y ↦ rw (y, has-record_all v (pending before vs) before y) (pending-record_all vs before)
  | inr n ↦
      rw (n, has-record_all v (pending (v ∷ before) vs) (v ∷ before) (ground (arith, eq_refl v)))
        (pending-record_all vs (v ∷ before))
]
