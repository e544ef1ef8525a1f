-- ===== src/Base.antt =====
-- The names that every module shares: the libraries', passed on, and those of the children. It
-- models no code of its own; Base/Text holds what the program uses of Go's package strings, and
-- Base/Assoc Go's maps.
mod Tests
mod Lists
pub mod Int
pub mod Text
pub mod Assoc
pub mod Memory
pub mod Utf8
pub use Tests.*
unfoldable pub use Lists.*
pub use Prim.Native.Nat.{ℕ, zero, suc, ◌+◌, ◌-◌, ◌*◌, ◌/◌, ◌%◌, ◌^◌, ◌≤◌, ◌<◌, min}
pub use mathlib.Core.Path.{◌≡◌, refl, sym, ap, ◌∙◌, subst}
pub use mathlib.Core.Logic.{◌≢◌, ◌↔◌, ◌⊎◌, inl, inr}
pub use mathlib.Core.Bool.{Bool, true, false, not, ◌&&◌, ◌||◌}
pub use mathlib.Core.Option.{Option, none, some}
pub use mathlib.Core.List.{List, [], ◌∷◌, ◌++◌, map}
pub use native.Mathlib.Omega.{arith}

-- Opens what the tests compute with.
unfoldable pub computing : Unit {0}
unfolding any select Text.◌==◌ Text.has_prefix Text.cut_prefix Text.trim_prefix Text.trim_space
    Text.is_empty Text.equal_fold Text.to_lower Text.to_upper Text.contains Text.has_suffix
    Text.trim_right Text.split Assoc.lookup Assoc.insert Assoc.remove Int.wrap64 Int.◌+ℤ◌ Int.◌-ℤ◌
computing = tt
