-- ===== src/Format/Padded.antt =====
-- lib.c: the conversions `%#x` and `%d` of printf.
use mathlib.Core.List.{reverse-append, reverse-cons}
use illinix_os.Base.{
  ℕ, zero, suc, ◌+◌, ◌-◌, ◌*◌, ◌^◌, ◌≤◌, ◌<◌, ◌≡◌, refl, ◌∙◌, ap, ap₂, sym, some, List, [], ◌∷◌,
  ◌++◌, reverse, arith, length, length-append, length-drop, length-take, take-append-drop, dec_lt,
  length-replicate, take, drop, replicate, true, sub32, if◌then◌else◌, ltb, ==_ne, lt→ltb,
  le→ltb_false, lt→leb_false, le→leb,
}
use illinix_os.Libc.Lengths.{HasNoNul, strlen-append}
use illinix_os.Libc.Copies.{assoc, store_here}
use illinix_os.Format.{puts, puts_from, pad_zeros, print_hex, print_signed}
use illinix_os.Format.Numerals.{value_of, digit_value, IsNumeral, itoa_lem}

puts_from-text :
    (s r : List ℕ) (index : ℕ)
    → HasNoNul s
    → puts_from (s ++ 0 ∷ r) index ≡ some (index + length s, s)
unfolding puts_from
puts_from-text [] r index plain = ap (λ i. some (i, [])) (omega arith)
puts_from-text (c ∷ s) r index plain =
    rw (==_ne c 0 plain.0, puts_from-text s r (index + 1) plain.1)
      (ap (λ i. some (i, c ∷ s)) (omega arith))

puts-text : (s r : List ℕ) → HasNoNul s → puts (s ++ 0 ∷ r) ≡ some (length s, s)
unfolding puts
puts-text s r plain = puts_from-text s r 0 plain ∙ ap (λ i. some (i, s)) (omega arith)

-- The loop that fills up with the character 0 writes over `length mid` bytes.
pad_zeros-over :
    (left : ℕ) (d mid r : List ℕ)
    → length mid ≡ left
    → pad_zeros left (length d) (d ++ (mid ++ r)) ≡ some (d ++ (replicate left 0x30 ++ r))
unfolding pad_zeros
pad_zeros-over zero d [] r e = refl
pad_zeros-over zero d (x ∷ mid) r e = absurd (omega arith)
pad_zeros-over (suc left) d [] r e = absurd (omega arith)
pad_zeros-over (suc left) d (x ∷ mid) r e = rw (store_here d (mid ++ r) x 0x30) (
    ap₂ (pad_zeros left) (sym (length-append d (0x30 ∷ []))) (sym (assoc d (0x30 ∷ []) (mid ++ r)))
    ∙ pad_zeros-over left (d ++ 0x30 ∷ []) mid r (omega arith)
    ∙ ap some (assoc d (0x30 ∷ []) (replicate left 0x30 ++ r)))

drop_front : (d r : List ℕ) (n : ℕ) → length d ≡ n → drop n (d ++ r) ≡ r
drop_front [] r zero e = refl
drop_front [] r (suc n) e = absurd (omega arith)
drop_front (x ∷ d) r zero e = absurd (omega arith)
drop_front (x ∷ d) r (suc n) e = drop_front d r n (omega arith)

-- Zeros in front of a numeral.
replicate-snoc : (k x : ℕ) → replicate k x ++ x ∷ [] ≡ x ∷ replicate k x
replicate-snoc zero x = refl
replicate-snoc (suc k) x = ap (λ l. x ∷ l) (replicate-snoc k x)

reverse-replicate : (k x : ℕ) → reverse (replicate k x) ≡ replicate k x
reverse-replicate zero x = refl
reverse-replicate (suc k) x =
    reverse-cons x (replicate k x)
    ∙ ap (λ l. l ++ x ∷ []) (reverse-replicate k x)
    ∙ replicate-snoc k x

value_of-zeros : (radix k : ℕ) → value_of radix (replicate k 0x30) ≡ 0
value_of-zeros radix zero = refl
value_of-zeros radix (suc k) = rw (value_of-zeros radix k) (omega arith)

value_of-append_zeros :
    (radix k : ℕ) (s : List ℕ) → value_of radix (s ++ replicate k 0x30) ≡ value_of radix s
value_of-append_zeros radix k [] = value_of-zeros radix k
value_of-append_zeros radix k (c ∷ s) =
    ap (λ n. digit_value c + radix * n) (value_of-append_zeros radix k s)

zeros-HasNoNul : (k : ℕ) (s : List ℕ) → HasNoNul s → HasNoNul (replicate k 0x30 ++ s)
zeros-HasNoNul zero s h = h
zeros-HasNoNul (suc k) s h = (λ e. omega arith, zeros-HasNoNul k s h)

padded :
    (front text rest : List ℕ)
    → length front ≡ 8
    → length text ≤ 8
    → pad_zeros (8 - length text) (length text) (front ++ (text ++ 0 ∷ rest))
      ≡ some (take (length text) front ++ (replicate (8 - length text) 0x30 ++ (text ++ 0 ∷ rest)))
padded front text rest eight short =
    let k = length text in
    ap₂ (pad_zeros (8 - k)) (omega (arith, length-take k front)) (
      ap (λ l. l ++ (text ++ 0 ∷ rest)) (sym (take-append-drop k front))
      ∙ assoc (take k front) (drop k front) (text ++ 0 ∷ rest))
    ∙ pad_zeros-over (8 - k) (take k front) (drop k front) (text ++ 0 ∷ rest)
        (omega (arith, length-drop k front))

-- `%#x` of a word prints eight characters, whatever the stack held before in `conv_buf`: read as a
-- hexadecimal number, they are the word.
pub print_hex_lem :
    (conv_buf : List ℕ) (v : ℕ)
    → length conv_buf ≡ 64
    → v < 2 ^ 32
    → (out : List ℕ) × (print_hex true conv_buf v ≡ some out)
      × (length out ≡ 8)
      × (value_of 16 (reverse out) ≡ v)
unfolding print_hex
print_hex_lem conv_buf v size small =
    let n =
      itoa_lem 8 v 16 (drop 8 conv_buf) (omega arith) (omega arith) (omega arith)
        (omega (arith, length-drop 8 conv_buf)) (omega (arith, length-drop 8 conv_buf)) in
    let text = n.text in
    let k = length text in
    let short : k ≤ 8 = n.short (omega arith) in
    let rest = drop (suc k) (drop 8 conv_buf) in
    let front = take 8 conv_buf in
    let eight : length front ≡ 8 = omega (arith, length-take 8 conv_buf) in
    let zeros = replicate (8 - k) 0x30 in
    let plain = zeros-HasNoNul (8 - k) text n.plain in
    let shown : puts (zeros ++ (text ++ 0 ∷ rest)) ≡ some (length (zeros ++ text), zeros ++ text) =
      ap puts (sym (assoc zeros text (0 ∷ rest))) ∙ puts-text (zeros ++ text) rest plain in
    (
      zeros ++ text,
      rw
          (
            n.result,
            strlen-append text rest n.plain,
            padded front text rest eight short,
            drop_front (take k front) (zeros ++ (text ++ 0 ∷ rest)) k
                (omega (arith, length-take k front)),
            shown,
          )
          refl,
      omega (arith, length-append zeros text, length-replicate {A = ℕ} (8 - k) 0x30),
      ap (value_of 16) (
            reverse-append zeros text
            ∙ ap (λ l. reverse text ++ l) (reverse-replicate (8 - k) 0x30))
          ∙ value_of-append_zeros 16 (8 - k) (reverse text)
          ∙ n.reads,
    )

print_plus :
    (conv_buf : List ℕ) (v : ℕ) (n : IsNumeral 10 v conv_buf 10)
    → v < 2 ^ 31
    → print_signed conv_buf v ≡ some n.text
unfolding print_signed
print_plus conv_buf v n low =
    rw
      (
        lt→leb_false 2147483648 v low,
        n.result,
        puts-text n.text (drop (suc (length n.text)) conv_buf) n.plain,
      )
      refl

print_minus :
    (c : ℕ) (conv_buf : List ℕ) (v : ℕ) (n : IsNumeral 10 (sub32 0 v) conv_buf 10)
    → 2 ^ 31 ≤ v
    → print_signed (c ∷ conv_buf) v ≡ some (0x2D ∷ n.text)
unfolding print_signed
print_minus c conv_buf v n high =
    rw
      (
        le→leb 2147483648 v high,
        lt→ltb 0 (suc (length conv_buf)) (omega arith),
        n.result,
        puts-text (0x2D ∷ n.text) (drop (suc (length n.text)) conv_buf) (λ e. omega arith, n.plain),
      )
      refl

-- `%d` of a word prints the number that it is as an `int`, whatever the stack held before: a word
-- below 2 ^ 31 as its decimal numeral, and a word that stands for a negative number as a minus sign
-- and the numeral of the amount.
pub print_signed_lem :
    (conv_buf : List ℕ) (v : ℕ)
    → length conv_buf ≡ 36
    → v < 2 ^ 32
    → (text : List ℕ) × (print_signed conv_buf v
        ≡ some (if ltb v (2 ^ 31) then text else 0x2D ∷ text))
      × (value_of 10 (reverse text) ≡ (if ltb v (2 ^ 31) then v else 2 ^ 32 - v))
print_signed_lem [] v size small = absurd (omega arith)
print_signed_lem (c ∷ conv_buf) v size small = elim (dec_lt v (2 ^ 31)) [
  | yes low ↦
      let n =
        itoa_lem 10 v 10 (c ∷ conv_buf) (omega arith) (omega arith) (omega arith) (omega arith)
          (omega arith) in
      (
        n.text,
        print_plus (c ∷ conv_buf) v n low
            ∙ ap (λ b. some (if b then n.text else 0x2D ∷ n.text)) (sym (lt→ltb v (2 ^ 31) low)),
        n.reads ∙ ap (λ b. if b then v else 2 ^ 32 - v) (sym (lt→ltb v (2 ^ 31) low)),
      )
  | no high ↦
      let amount : sub32 0 v ≡ 2 ^ 32 - v = omega arith in
      let n =
        itoa_lem 10 (sub32 0 v) 10 conv_buf (omega arith) (omega arith) (omega arith) (omega arith)
          (omega arith) in
      let over = le→ltb_false v (2 ^ 31) (omega arith) in
      (
        n.text,
        print_minus c conv_buf v n (omega arith)
            ∙ ap (λ b. some (if b then n.text else 0x2D ∷ n.text)) (sym over),
        n.reads ∙ amount ∙ ap (λ b. if b then v else 2 ^ 32 - v) (sym over),
      )
]
