-- ===== src/Base/Word.antt =====
-- Machine integers: `u32` and `u64` (`usize` is `u64`, as on the 64-bit targets of the agent).
-- `saturating_sub` is `-` on the natural numbers.
use Prim.Native.Nat.{ℕ, ◌+◌, ◌-◌, ◌%◌, ◌^◌, min}

abbrev pub u32_mod : ℕ
u32_mod = 2 ^ 32

abbrev pub u64_max : ℕ
u64_max = 2 ^ 64 - 1

-- `wrapping_add` and `wrapping_sub` of `u32`.
abbrev pub wrapping_add32 : ℕ → ℕ → ℕ
wrapping_add32 a b = (a + b) % u32_mod

abbrev pub wrapping_sub32 : ℕ → ℕ → ℕ
wrapping_sub32 a b = (a + u32_mod - b) % u32_mod

-- `saturating_add` of `usize` and `u64`.
abbrev pub saturating_add : ℕ → ℕ → ℕ
saturating_add a b = min (a + b) u64_max

-- `c += 1`, `c += n` of a `u64` counter, which wraps in a release build.
abbrev pub add64 : ℕ → ℕ → ℕ
add64 a b = (a + b) % 2 ^ 64
