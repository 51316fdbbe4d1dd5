-- ===== src/Libc.antt =====
-- lib.c: the string functions over memory. A `char *` is the list of the bytes from the pointer to
-- the end of the memory that the caller owns; a function that runs past that end faults.
pub mod Lengths
pub mod Copies
mod Tests
use illinix_os.Base.{
  ℕ, zero, suc, ◌+◌, ◌-◌, ◌/◌, ◌%◌, Bool, true, false, ◌&&◌, ◌||◌, Option, none, some, List, [],
  ◌∷◌, ◌==◌, ltb, not, if◌then◌else◌, ◌>>=◌, get_elem?, set, length, u8, sub32,
}

-- A write to `buf[i]`.
abbrev pub store : List ℕ → ℕ → ℕ → Option (List ℕ)
store buf i v = if ltb i (length buf) then some (set buf i v) else none

-- `while (s[len] != '\0') len++;` at the bytes from `s[len]` on.
pub strlen_from : List ℕ → ℕ → Option ℕ
strlen_from [] len = none
strlen_from (c ∷ s) len = if c == 0 then some len else strlen_from s (len + 1)

unfoldable pub strlen : List ℕ → Option ℕ
unfolding strlen_from
strlen s = strlen_from s 0

-- The loop of `strcpy`, at `dest[i]` and the bytes from `src[i]` on.
pub strcpy_from : List ℕ → List ℕ → ℕ → Option (List ℕ)
strcpy_from dest [] i = none
strcpy_from dest (c ∷ src) i =
    if c == 0 then store dest i 0 else (store dest i c >>= λ d. strcpy_from d src (i + 1))

-- `strcpy`: the memory at `dest` afterwards.
unfoldable pub strcpy : List ℕ → List ℕ → Option (List ℕ)
unfolding strcpy_from
strcpy dest src = strcpy_from dest src 0

-- The second loop of `strncpy`, with `left` rounds to go.
pub fill_nul : List ℕ → ℕ → ℕ → Option (List ℕ)
fill_nul dest i zero = some dest
fill_nul dest i (suc left) = store dest i 0 >>= λ d. fill_nul d (i + 1) left

-- The first loop of `strncpy`, with `left` of the `n` rounds to go; `src[i]` is read before `i < n`
-- is tested.
pub strncpy_from : List ℕ → List ℕ → ℕ → ℕ → Option (List ℕ)
unfolding fill_nul
strncpy_from dest [] i left = none
strncpy_from dest (c ∷ src) i zero = some dest
strncpy_from dest (c ∷ src) i (suc left) =
    if c == 0
    then fill_nul dest i (suc left)
    else (store dest i c >>= λ d. strncpy_from d src (i + 1) left)

unfoldable pub strncpy : List ℕ → List ℕ → ℕ → Option (List ℕ)
unfolding strncpy_from
strncpy dest src n = strncpy_from dest src 0 n

-- A byte as an `int8_t`, in 32 bits.
abbrev pub signed : ℕ → ℕ
signed c = if ltb c 128 then c else c + 4294967040

-- `strncmp`, with `n` rounds to go.
unfoldable pub strncmp : List ℕ → List ℕ → ℕ → Option ℕ
strncmp s1 s2 zero = some 0
strncmp [] s2 (suc n) = none
strncmp (x ∷ s1) [] (suc n) = none
strncmp (x ∷ s1) (y ∷ s2) (suc n) =
    if not (x == y) || (x == 0) then some (sub32 (signed x) (signed y)) else strncmp s1 s2 n
