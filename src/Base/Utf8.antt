-- ===== src/Base/Utf8.antt =====
-- `utf8.ValidString` of Go, on texts as lists of bytes.
use Prim.Native.Nat.{ℕ}
use mathlib.Core.Bool.{Bool, true, ◌&&◌}
use mathlib.Core.List.{[], ◌∷◌}
use ai_proxy_centranity.Base.Tests.{ltb, leb, eqb, if◌then◌else◌}
use ai_proxy_centranity.Base.Text.{Text}

abbrev within : ℕ → ℕ → ℕ → Bool
within low high c = leb low c && leb c high

-- A byte that may follow in a sequence.
abbrev follows : ℕ → Bool
follows c = within 128 191 c

-- The second byte after a first one; no surrogates, no overlong forms, nothing above U+10FFFF.
abbrev follows_third : ℕ → ℕ → Bool
follows_third c d =
    if eqb c 224 then within 160 191 d else if eqb c 237 then within 128 159 d else follows d

abbrev follows_fourth : ℕ → ℕ → Bool
follows_fourth c d =
    if eqb c 240 then within 144 191 d else if eqb c 244 then within 128 143 d else follows d

-- The rest of the text after the first byte, by what the first byte begins.
unfoldable pub valid_utf8 : Text → Bool
valid_utf8 [] = true
valid_utf8 (c ∷ []) = ltb c 128
valid_utf8 (c ∷ d ∷ []) =
    let last = valid_utf8 (d ∷ []) in if ltb c 128 then last else within 194 223 c && follows d
valid_utf8 (c ∷ d ∷ e ∷ []) =
    let rest = valid_utf8 (d ∷ e ∷ []) in
    let last = valid_utf8 (e ∷ []) in
    if ltb c 128
    then rest
    else if within 194 223 c
    then follows d && last
    else within 224 239 c && follows_third c d && follows e
valid_utf8 (c ∷ d ∷ e ∷ f ∷ s) =
    let rest = valid_utf8 (d ∷ e ∷ f ∷ s) in
    let rest2 = valid_utf8 (e ∷ f ∷ s) in
    let rest3 = valid_utf8 (f ∷ s) in
    let rest4 = valid_utf8 s in
    if ltb c 128
    then rest
    else if within 194 223 c
    then follows d && rest2
    else if within 224 239 c
    then follows_third c d && follows e && rest3
    else within 240 244 c && follows_fourth c d && follows e && follows f && rest4
