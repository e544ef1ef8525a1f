-- ===== src/Base/Text.antt =====
-- Go strings as lists of bytes, with what the program uses of the package `strings`: ToLower,
-- ToUpper, EqualFold, HasPrefix, TrimPrefix, HasSuffix, Contains, TrimSpace, TrimRight and Split.
-- Case and white space are those of ASCII, which is what the Go functions do on texts whose bytes
-- are below 128; bytes from 128 up are left alone.
use Prim.Native.Char.{code}
use Prim.Native.Nat.{ℕ, ◌+◌, ◌-◌}
use Prim.Native.String.{String}
use mathlib.Core.Bool.{Bool, true, false, ◌&&◌, ◌||◌}
use mathlib.Core.List.{List, [], ◌∷◌, ◌++◌}
use mathlib.Core.Logic.{◌↔◌}
use mathlib.Core.Path.{◌≡◌, refl, ap₂}
use native.Mathlib.Omega.{arith}
use ai_proxy_centranity.Base.Tests.{ltb, leb, eqb, eqb_iff, if◌then◌else◌}

abbrev pub Text : Type 0
Text = List ℕ

-- The bytes of a literal.
abbrev pub text : String → Text
text String.[] = []
text (String.◌∷◌ c s) = code c ∷ text s

infix 50 ◌==◌
unfoldable pub ◌==◌ : Text → Text → Bool
[] == [] = true
[] == (b ∷ t) = false
(a ∷ s) == [] = false
(a ∷ s) == (b ∷ t) = eqb a b && s == t

pub eq_iff : (s t : Text) → ((s == t) ≡ true) ↔ (s ≡ t)
unfolding ◌==◌
eq_iff [] [] = ground arith
eq_iff [] (b ∷ t) = ground arith
eq_iff (a ∷ s) [] = ground arith
eq_iff (a ∷ s) (b ∷ t) = ground (arith, eq_iff s t)

pub eq_refl : (s : Text) → (s == s) ≡ true
eq_refl s = (eq_iff s s).1 refl

unfoldable pub lower_byte : ℕ → ℕ
lower_byte c = if leb b'A' c && leb c b'Z' then c + 32 else c

unfoldable pub upper_byte : ℕ → ℕ
upper_byte c = if leb b'a' c && leb c b'z' then c - 32 else c

unfoldable pub to_lower : Text → Text
unfolding lower_byte
to_lower [] = []
to_lower (c ∷ s) = lower_byte c ∷ to_lower s

unfoldable pub to_upper : Text → Text
unfolding upper_byte
to_upper [] = []
to_upper (c ∷ s) = upper_byte c ∷ to_upper s

-- `strings.EqualFold`: byte by byte, up to case.
unfoldable pub equal_fold : Text → Text → Bool
unfolding lower_byte
equal_fold [] [] = true
equal_fold [] (b ∷ t) = false
equal_fold (a ∷ s) [] = false
equal_fold (a ∷ s) (b ∷ t) = eqb (lower_byte a) (lower_byte b) && equal_fold s t

pub equal_fold_iff : (s t : Text) → (equal_fold s t ≡ true) ↔ (to_lower s ≡ to_lower t)
unfolding equal_fold to_lower
equal_fold_iff [] [] = ground arith
equal_fold_iff [] (b ∷ t) = ground arith
equal_fold_iff (a ∷ s) [] = ground arith
equal_fold_iff (a ∷ s) (b ∷ t) =
    ground (arith, equal_fold_iff s t, eqb_iff (lower_byte a) (lower_byte b))

lower_byte_idem : (c : ℕ) → lower_byte (lower_byte c) ≡ lower_byte c
unfolding lower_byte
lower_byte_idem c = ground arith

pub to_lower_idem : (s : Text) → to_lower (to_lower s) ≡ to_lower s
unfolding to_lower
to_lower_idem [] = refl
to_lower_idem (c ∷ s) = ap₂ ◌∷◌ (lower_byte_idem c) (to_lower_idem s)

unfoldable pub has_prefix : Text → Text → Bool
has_prefix s [] = true
has_prefix [] (b ∷ p) = false
has_prefix (a ∷ s) (b ∷ p) = eqb a b && has_prefix s p

-- `s` without the first `len(p)` bytes; called after a test that `p` is a prefix.
unfoldable pub cut_prefix : Text → Text → Text
cut_prefix s [] = s
cut_prefix [] (b ∷ p) = []
cut_prefix (a ∷ s) (b ∷ p) = cut_prefix s p

unfoldable pub trim_prefix : Text → Text → Text
trim_prefix s p = if has_prefix s p then cut_prefix s p else s

pub has_prefix-append : (p s : Text) → has_prefix (p ++ s) p ≡ true
unfolding has_prefix
has_prefix-append [] s = refl
has_prefix-append (a ∷ p) s = ground (arith, has_prefix-append p s)

pub append-cut_prefix : (s p : Text) → has_prefix s p ≡ true → p ++ cut_prefix s p ≡ s
unfolding has_prefix cut_prefix
append-cut_prefix s [] h = refl
append-cut_prefix [] (b ∷ p) h = ground arith
append-cut_prefix (a ∷ s) (b ∷ p) h = ground (arith, append-cut_prefix s p)

pub cut_prefix-append : (p s : Text) → cut_prefix (p ++ s) p ≡ s
unfolding cut_prefix
cut_prefix-append [] s = refl
cut_prefix-append (a ∷ p) s = cut_prefix-append p s

pub trim_prefix-append : (p s : Text) → trim_prefix (p ++ s) p ≡ s
unfolding trim_prefix
trim_prefix-append p s = rw has_prefix-append (cut_prefix-append p s)

unfoldable pub contains : Text → Text → Bool
unfolding has_prefix
contains [] p = has_prefix [] p
contains (c ∷ s) p = has_prefix (c ∷ s) p || contains s p

unfoldable pub has_suffix : Text → Text → Bool
unfolding ◌==◌
has_suffix [] p = [] == p
has_suffix (c ∷ s) p = (c ∷ s) == p || has_suffix s p

-- Tab, line feed, vertical tab, form feed, carriage return and space.
unfoldable pub is_space : ℕ → Bool
is_space c = (leb 9 c && leb c 13) || eqb c 32

unfoldable pub trim_left_if : (ℕ → Bool) → Text → Text
trim_left_if p [] = []
trim_left_if p (c ∷ s) = if p c then trim_left_if p s else c ∷ s

-- `c` in front of `s`, unless `s` is empty and `c` is to go.
keep : Bool → ℕ → Text → Text
keep true c [] = []
keep true c (d ∷ s) = c ∷ d ∷ s
keep false c s = c ∷ s

unfoldable pub trim_right_if : (ℕ → Bool) → Text → Text
unfolding keep
trim_right_if p [] = []
trim_right_if p (c ∷ s) = keep (p c) c (trim_right_if p s)

unfoldable pub trim_space : Text → Text
unfolding is_space trim_left_if trim_right_if
trim_space s = trim_right_if is_space (trim_left_if is_space s)

-- `strings.TrimRight(s, cutset)` for a cutset of one byte.
unfoldable pub trim_right : Text → ℕ → Text
unfolding trim_right_if
trim_right s b = trim_right_if (λ c. eqb c b) s

cons_first : ℕ → List Text → List Text
cons_first c [] = (c ∷ []) ∷ []
cons_first c (w ∷ ws) = (c ∷ w) ∷ ws

-- `strings.Split(s, sep)` for a separator of one byte.
unfoldable pub split : Text → ℕ → List Text
unfolding cons_first
split [] sep = [] ∷ []
split (c ∷ s) sep = let rest = split s sep in if eqb c sep then [] ∷ rest else cons_first c rest

unfoldable pub is_empty : Text → Bool
is_empty [] = true
is_empty (c ∷ s) = false

pub is_empty_iff : (s : Text) → (is_empty s ≡ true) ↔ (s ≡ [])
unfolding is_empty
is_empty_iff [] = ground arith
is_empty_iff (c ∷ s) = ground arith

text_tests :
    (trim_space (text "  a b \t") ≡ text "a b")
    × (split (text "a,,b") b',' ≡ text "a" ∷ [] ∷ text "b" ∷ [])
    × (equal_fold (text "CC-Opus") (text "cc-opus") ≡ true)
    × (contains (text "api_key_id") (text "key") ≡ true)
    × (trim_right (text "http://x//") b'/' ≡ text "http://x")
unfolding trim_space split equal_fold contains trim_right
text_tests = (refl, refl, refl, refl, refl)

-- The order of Go's strings, byte by byte.
unfoldable pub precedes : Text → Text → Bool
precedes [] [] = false
precedes [] (d ∷ t) = true
precedes (c ∷ s) [] = false
precedes (c ∷ s) (d ∷ t) =
    let rest = precedes s t in if ltb c d then true else if eqb c d then rest else false
