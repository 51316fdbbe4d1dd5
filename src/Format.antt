-- ===== src/Format.antt =====
-- lib.c: the conversion of numbers to text and the formatted output. What is printed is the list of
-- the characters that are handed to putc.
pub mod Reversing
pub mod Numerals
pub mod Padded
mod Tests
use illinix_os.Base.{
  ℕ, zero, suc, ◌+◌, ◌-◌, ◌*◌, ◌/◌, ◌%◌, Bool, true, false, Option, none, some, List, [], ◌∷◌, ◌++◌,
  ◌==◌, ltb, if◌then◌else◌, ◌>>=◌, get_elem?, set, length, take, drop, negative, sub32, u8,
}
use illinix_os.Libc.{strlen, store}

-- `lookup`, with its NUL.
abbrev pub lookup : List ℕ
lookup =
    48 ∷ 49 ∷ 50 ∷ 51 ∷ 52 ∷ 53 ∷ 54 ∷ 55 ∷ 56 ∷ 57 ∷ 65 ∷ 66 ∷ 67 ∷ 68 ∷ 69 ∷ 70 ∷ 71 ∷ 72 ∷ 73
    ∷ 74 ∷ 75 ∷ 76 ∷ 77 ∷ 78 ∷ 79 ∷ 80 ∷ 81 ∷ 82 ∷ 83 ∷ 84 ∷ 85 ∷ 86 ∷ 87 ∷ 88 ∷ 89 ∷ 90 ∷ 0 ∷ []

-- The loop of `strrev`, with `rounds` rounds to go.
pub strrev_from : ℕ → ℕ → ℕ → List ℕ → Option (List ℕ)
strrev_from zero beg end s = none
strrev_from (suc rounds) beg end s =
    if ltb beg end
    then (get_elem? s end >>= λ tmp.
        get_elem? s beg >>= λ c. strrev_from rounds (beg + 1) (end - 1) (set (set s end c) beg tmp))
    else some s

-- `strrev`. Of the empty text, `end` is -1 in the code and 0 here: neither is above `beg`.
unfoldable pub strrev : List ℕ → Option (List ℕ)
unfolding strrev_from
strrev s = strlen s >>= λ len. strrev_from (len + 1) 0 (len - 1) s

-- The loop of `itoa`, at `newbuf = buf + i`: the `i` and the buffer at the end. Each round writes a
-- byte, so that the loop faults before it has run `length buf + 1` rounds, or has ended.
pub itoa_from : ℕ → ℕ → ℕ → ℕ → List ℕ → Option (ℕ × List ℕ)
itoa_from zero newval i radix buf = none
itoa_from (suc rounds) newval i radix buf =
    if newval == 0
    then some (i, buf)
    else (get_elem? lookup (newval % radix) >>= λ c.
        store buf i c >>= λ buf'. itoa_from rounds (newval / radix) (i + 1) radix buf')

-- `itoa`: a radix of 0 is a division by zero.
unfoldable pub itoa : ℕ → List ℕ → ℕ → Option (List ℕ)
unfolding itoa_from
itoa value buf radix =
    if value == 0
    then (store buf 0 0x30 >>= λ buf'. store buf' 1 0)
    else if radix == 0
    then none
    else (itoa_from (length buf + 1) value 0 radix buf >>= λ r.
        store r.1 r.0 0 >>= λ buf'. strrev buf')

-- The loop of `puts`, at `s[index]`: the value, and what is printed.
pub puts_from : List ℕ → ℕ → Option (ℕ × List ℕ)
puts_from [] index = none
puts_from (c ∷ s) index =
    if c == 0 then some (index, []) else (puts_from s (index + 1) >>= λ r. some (r.0, c ∷ r.1))

unfoldable pub puts : List ℕ → Option (ℕ × List ℕ)
unfolding puts_from
puts s = puts_from s 0

-- What stands on the stack behind the format: a word, or a pointer to bytes.
pub data Argument : Type 0 where
  word : ℕ → Argument
  pointer : List ℕ → Argument

-- `while(i < 8) { conv_buf[i] = '0'; i++; }`, with `left` rounds to go.
pub pad_zeros : ℕ → ℕ → List ℕ → Option (List ℕ)
pad_zeros zero i buf = some buf
pad_zeros (suc left) i buf = store buf i 0x30 >>= λ buf'. pad_zeros left (i + 1) buf'

-- `%x` and `%#x` of a word, where `conv_buf` holds what the stack holds.
abbrev pub print_hex : Bool → List ℕ → ℕ → Option (List ℕ)
unfolding pad_zeros puts itoa
print_hex false conv_buf v = itoa v conv_buf 16 >>= λ text. puts text >>= λ r. some r.1
print_hex true conv_buf v = itoa v (drop 8 conv_buf) 16 >>= λ text.
    strlen text >>= λ starting_index.
    pad_zeros (8 - starting_index) starting_index (take 8 conv_buf ++ text) >>= λ buf.
    puts (drop starting_index buf) >>= λ r. some r.1

-- `%d` of a word.
abbrev pub print_signed : List ℕ → ℕ → Option (List ℕ)
unfolding puts itoa
print_signed conv_buf v =
    if negative v
    then (store conv_buf 0 0x2D >>= λ buf.
        itoa (sub32 0 v) (drop 1 buf) 10 >>= λ text. puts (take 1 buf ++ text) >>= λ r. some r.1)
    else (itoa v conv_buf 10 >>= λ text. puts text >>= λ r. some r.1)

-- One conversion: what it prints, and the arguments that are left. An unknown one prints nothing.
pub convert : List ℕ → Bool → ℕ → List Argument → Option (List ℕ × List Argument)
unfolding print_hex print_signed
convert stack alternate c args =
    if c == 0x25
    then some (0x25 ∷ [], args)
    else if c == 0x78
    then elim args [
      | word v ∷ rest ↦ print_hex alternate stack v >>= λ out. some (out, rest)
      | _ ↦ none
    ]
    else if c == 0x75
    then elim args [
      | word v ∷ rest ↦ itoa v (take 36 stack) 10 >>= λ text. puts text >>= λ r. some (r.1, rest)
      | _ ↦ none
    ]
    else if c == 0x64
    then elim args [
      | word v ∷ rest ↦ print_signed (take 36 stack) v >>= λ out. some (out, rest)
      | _ ↦ none
    ]
    else if c == 0x63
    then elim args [ word v ∷ rest ↦ some (u8 v ∷ [], rest) | _ ↦ none ]
    else if c == 0x73
    then elim args [ pointer s ∷ rest ↦ puts s >>= λ r. some (r.1, rest) | _ ↦ none ]
    else some ([], args)

-- Where `printf` stands: in the text, or in a conversion, with `alternate`.
pub data Mode : Type 0 where
  plain : Mode
  conversion : Bool → Mode

-- The loop of `printf`, at the `count`-th byte of the format: the value, and what is printed.
pub printf_from : List ℕ → Mode → List ℕ → ℕ → List Argument → Option (ℕ × List ℕ)
unfolding convert
printf_from stack mode [] count args = none
printf_from stack plain (c ∷ format) count args =
    let next : Mode × List ℕ = if c == 0x25 then (conversion false, []) else (plain, c ∷ []) in
    let rest = printf_from stack next.0 format (count + 1) args in
    if c == 0 then some (count, []) else (rest >>= λ r. some (r.0, next.1 ++ r.1))
printf_from stack (conversion alternate) (c ∷ format) count args =
    if c == 0x23
    then printf_from stack (conversion true) format (count + 1) args
    else (convert stack alternate c args >>= λ out.
        printf_from stack plain format (count + 1) out.1 >>= λ r. some (r.0, out.0 ++ r.1))

-- `printf`, where `stack` is what its 64 bytes of `conv_buf` hold.
unfoldable pub printf : List ℕ → List ℕ → List Argument → Option (ℕ × List ℕ)
unfolding printf_from
printf stack format args = printf_from stack plain format 0 args
