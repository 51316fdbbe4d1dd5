-- ===== src/Base/Word.antt =====
-- Machine words. A `uint8_t` or `uint32_t` is a native number below 2 ^ 8 or 2 ^ 32. An `int32_t`
-- is its 32-bit pattern, so that casts between the two types are the identity: -1 is 2 ^ 32 - 1,
-- and the negative values are those from 2 ^ 31 on.
use Prim.Native.Nat.{ℕ, ◌+◌, ◌-◌, ◌%◌}
use mathlib.Core.Bool.{Bool}
use illinix_os.Base.Tests.{leb}

abbrev pub u8 : ℕ → ℕ
u8 n = n % 256

abbrev pub u16 : ℕ → ℕ
u16 n = n % 65536

abbrev pub u32 : ℕ → ℕ
u32 n = n % 4294967296

-- The `int32_t` -1.
abbrev pub minus_one : ℕ
minus_one = 4294967295

-- `x < 0` on an `int32_t`.
abbrev pub negative : ℕ → Bool
negative x = leb 2147483648 x

-- `x - y` on 32-bit words. The modulus is added first since `-` stops at 0.
abbrev pub sub32 : ℕ → ℕ → ℕ
sub32 x y = (x + 4294967296 - y) % 4294967296

-- `x + y` on 32-bit words.
abbrev pub add32 : ℕ → ℕ → ℕ
add32 x y = (x + y) % 4294967296
