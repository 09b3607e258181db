-- ===== src/Base/Words.antt =====
-- Machine words kept as native numbers: the step up and down of an unsigned counter wraps.
use Prim.Native.Nat.{ℕ, ◌+◌, ◌-◌, ◌%◌, ◌^◌}
use mathlib.Core.Bool.{Bool, ◌&&◌}
use multicore_oo_o_sim.Base.Tests.{ltb, leb}

abbrev pub u32 : ℕ
u32 = 2 ^ 32

abbrev pub u64 : ℕ
u64 = 2 ^ 64

abbrev pub inc32 : ℕ → ℕ
inc32 n = (n + 1) % u32

abbrev pub dec32 : ℕ → ℕ
dec32 n = (n + u32 - 1) % u32

abbrev pub inc64 : ℕ → ℕ
inc64 n = (n + 1) % u64

-- `x >= 1` of an `int32_t` given by its bit pattern.
abbrev pub positive32 : ℕ → Bool
positive32 n = leb 1 n && ltb n (2 ^ 31)

-- `(uint64_t)-1`.
abbrev pub minus_one64 : ℕ
minus_one64 = 2 ^ 64 - 1
