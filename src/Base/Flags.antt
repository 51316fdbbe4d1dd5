-- ===== src/Base/Flags.antt =====
-- `|` on numbers that have no binary digit 1 in common.
use Prim.Native.Nat.{ℕ, zero, suc, ◌+◌, ◌/◌, ◌%◌, ◌≤◌, ◌<◌, max, bit_or, digits, bit_or-bitwise}
use mathlib.Core.Path.{◌≡◌, ◌∙◌}
use native.Mathlib.Omega.{arith}

-- No digit is 1 in both `a` and `b`, and `b` has no more than `k` digits.
pub Apart : ℕ → ℕ → ℕ → Type 0
Apart zero a b = b ≡ 0
Apart (suc k) a b = (a % 2 + b % 2 ≤ 1) × Apart k (a / 2) (b / 2)

abbrev or_digits : ℕ → ℕ → ℕ → ℕ
or_digits = digits (λ b. b) max

or_digits-Apart : (n k a b : ℕ) → a ≤ n → Apart k a b → or_digits n a b ≡ a + b
unfolding Apart
or_digits-Apart zero k a b fuel room = omega arith
or_digits-Apart (suc n) k zero b fuel room = omega arith
or_digits-Apart (suc n) zero (suc a) b fuel room =
    omega (arith, or_digits-Apart n zero (suc a / 2) (b / 2) (omega arith) (omega arith))
or_digits-Apart (suc n) (suc k) (suc a) b fuel (even, room) =
    omega (arith, or_digits-Apart n k (suc a / 2) (b / 2) (omega arith) room)

pub bit_or-Apart : (k a b : ℕ) → Apart k a b → bit_or a b ≡ a + b
bit_or-Apart k a b room = bit_or-bitwise a b ∙ or_digits-Apart a k a b (omega arith) room

-- Flags below 4096 on the address of a page.
pub bit_or-page : (a b : ℕ) → a % 4096 ≡ 0 → b < 4096 → bit_or a b ≡ a + b
unfolding Apart
bit_or-page a b aligned low = bit_or-Apart 12 a b (
  omega arith,
  (
    omega arith,
    (
      omega arith,
      (
        omega arith,
        (
          omega arith,
          (
            omega arith,
            (
              omega arith,
              (
                omega arith,
                (omega arith, (omega arith, (omega arith, (omega arith, omega arith)))),
              ),
            ),
          ),
        ),
      ),
    ),
  ),
)

-- The flag User besides the two lowest.
pub bit_or-user : (a : ℕ) → a % 4096 ≡ 0 → bit_or (bit_or a 3) 4 ≡ a + 7
unfolding Apart
bit_or-user a aligned = rw (bit_or-page a 3 aligned (omega arith)) (
    bit_or-Apart 3 (a + 3) 4 (omega arith, (omega arith, (omega arith, omega arith))) ∙ omega arith)

-- The flags of a page of 4 MB.
pub bit_or-large : (a : ℕ) → a % 4194304 ≡ 0 → bit_or (bit_or (bit_or a 0x80) 3) 4 ≡ a + 0x87
unfolding Apart
bit_or-large a aligned =
    rw
      (
        bit_or-page a 0x80 (omega arith) (omega arith),
        bit_or-Apart 3 (a + 0x80) 3 (omega arith, (omega arith, (omega arith, omega arith))),
      )
      (bit_or-Apart 3 (a + 0x80 + 3) 4 (omega arith, (omega arith, (omega arith, omega arith)))
        ∙ omega arith)
