-- ===== src/Base/Memory.antt =====
-- `make([]T, 0, n)` of Go's runtime on 64-bit Linux (amd64), which panics where n elements take more
-- than the 2 ^ 48 bytes of its address space. That a smaller allocation finds no memory ends the
-- process; this is outside the model.
use Prim.Native.Nat.{ℕ, ◌/◌}
use mathlib.Core.Bool.{Bool}
use ai_proxy_centranity.Base.Int.{ℤ, pos, leb_ℤ}

abbrev pub max_alloc : ℕ
max_alloc = 281474976710656

-- Whether `n` elements of `size` bytes can be made, for an `n` that is not negative.
unfoldable pub can_make : ℕ → ℤ → Bool
can_make size n = leb_ℤ n (pos (max_alloc / size))
