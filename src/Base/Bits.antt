-- ===== src/Base/Bits.antt =====
-- Facts over a small range of numbers, checked by evaluation, and the bits of a byte.
use Prim.Native.Nat.{ℕ, zero, suc, ◌-◌, ◌/◌, ◌%◌, ◌^◌, ◌<◌, bit_and, bit_or}
use mathlib.Core.Path.{◌≡◌, refl}
use mathlib.Core.Bool.{Bool, true, ◌&&◌}
use native.Mathlib.Omega.{arith}
use illinix_os.Base.Tests.{◌==◌, ==_iff, if◌then◌else◌}

-- Whether the test holds of all numbers below the bound.
unfoldable pub all_below : ℕ → (ℕ → Bool) → Bool
all_below zero test = true
all_below (suc bound) test = all_below bound test && test bound

pub all_below_sound :
    (bound : ℕ) (test : ℕ → Bool) (k : ℕ) → all_below bound test ≡ true → k < bound → test k ≡ true
unfolding all_below
all_below_sound zero test k passed low = absurd (omega arith)
all_below_sound (suc bound) test k passed low =
    let earlier = all_below_sound bound test k in ground (arith, earlier)

-- Bit `k` of `x`.
abbrev pub bit : ℕ → ℕ → ℕ
bit k x = x / 2 ^ k % 2

-- The mask of bit `k` of a byte: the low byte of `1 << k`.
abbrev pub mask : ℕ → ℕ
mask k = 2 ^ k % 256

-- `x & ~(1 << k)` and `x | (1 << k)` on a byte.
unfoldable pub clear_bit : ℕ → ℕ → ℕ
clear_bit k x = bit_and x (255 - mask k)

unfoldable pub set_bit : ℕ → ℕ → ℕ
set_bit k x = bit_or x (mask k)

-- Clearing a bit of a byte leaves the other bits, and setting one does too.
abbrev clears : ℕ → ℕ → ℕ → Bool
clears k j x = bit j (clear_bit k x) == (if j == k then 0 else bit j x)

abbrev sets : ℕ → ℕ → ℕ → Bool
sets k j x = bit j (set_bit k x) == (if j == k then 1 else bit j x)

clear_bit_table : all_below 8 (λ k. all_below 8 (λ j. all_below 256 (clears k j))) ≡ true
unfolding all_below clear_bit
clear_bit_table = refl

set_bit_table : all_below 8 (λ k. all_below 8 (λ j. all_below 256 (sets k j))) ≡ true
unfolding all_below set_bit
set_bit_table = refl

pub bit-clear_bit :
    (k j x : ℕ) → k < 8 → j < 8 → x < 256 → bit j (clear_bit k x) ≡ (if j == k then 0 else bit j x)
bit-clear_bit k j x hk hj hx = (==_iff _ _).0 (
    all_below_sound 256 (clears k j) x
      (all_below_sound 8 (λ i. all_below 256 (clears k i)) j
        (all_below_sound 8 (λ l. all_below 8 (λ i. all_below 256 (clears l i))) k clear_bit_table
          hk)
        hj)
      hx)

pub bit-set_bit :
    (k j x : ℕ) → k < 8 → j < 8 → x < 256 → bit j (set_bit k x) ≡ (if j == k then 1 else bit j x)
bit-set_bit k j x hk hj hx = (==_iff _ _).0 (
    all_below_sound 256 (sets k j) x
      (all_below_sound 8 (λ i. all_below 256 (sets k i)) j
        (all_below_sound 8 (λ l. all_below 8 (λ i. all_below 256 (sets l i))) k set_bit_table hk)
        hj)
      hx)

abbrev small : ℕ → ℕ → Bool
small k x = (clear_bit k x / 256 == 0) && (set_bit k x / 256 == 0)

small_table : all_below 8 (λ k. all_below 256 (small k)) ≡ true
unfolding all_below clear_bit set_bit
small_table = refl

pub clear_bit-lt : (k x : ℕ) → k < 8 → x < 256 → clear_bit k x < 256
clear_bit-lt k x hk hx = ground (
  arith,
  all_below_sound 256 (small k) x
      (all_below_sound 8 (λ i. all_below 256 (small i)) k small_table hk) hx,
)

pub set_bit-lt : (k x : ℕ) → k < 8 → x < 256 → set_bit k x < 256
set_bit-lt k x hk hx = ground (
  arith,
  all_below_sound 256 (small k) x
      (all_below_sound 8 (λ i. all_below 256 (small i)) k small_table hk) hx,
)
