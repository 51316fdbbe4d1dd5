-- ===== src/Format/Numerals.antt =====
-- lib.c: `itoa` writes a number that can be read back.
use mathlib.Core.List.{reverse-reverse, reverse-cons}
use native.Mathlib.Nat.{
  mod-eq-sub-mul-div, mul-div-le, div-lt_iff_lt-mul, pow-suc, pow-zero, mod-lt,
}
use illinix_os.Base.{
  ℕ, zero, suc, ◌+◌, ◌-◌, ◌*◌, ◌/◌, ◌%◌, ◌^◌, ◌≤◌, ◌<◌, ◌≡◌, refl, ◌≢◌, ◌∙◌, ap, ap₂, sym, subst,
  none, some, List, [], ◌∷◌, ◌++◌, reverse, arith, get_elem?, length, length-append, drop, lt→ltb,
  ==_ne, ==_iff, ℕ_discrete, if◌then◌else◌, Bool, true, false, ◌&&◌, all_below, all_below_sound,
  ◌==◌, Option, leb, leb→le,
}
use illinix_os.Libc.Lengths.{HasNoNul}
use illinix_os.Libc.Copies.{assoc, overlay, store_here}
use illinix_os.Format.{lookup, itoa, itoa_from}
use illinix_os.Format.Reversing.{strrev_lem}

-- The value of a digit, 0 to 9 and A to Z.
abbrev pub digit_value : ℕ → ℕ
digit_value c = if leb 65 c then c - 55 else c - 48

-- The value of a numeral, its first digit the lowest.
abbrev pub value_of : ℕ → List ℕ → ℕ
value_of radix [] = 0
value_of radix (c ∷ cs) = digit_value c + radix * value_of radix cs

-- The table: a digit below 36 is a character, no NUL, with that value.
abbrev is_digit : ℕ → Option ℕ → Bool
is_digit d none = false
is_digit d (some c) = leb 1 c && digit_value c == d

lookup_table : all_below 36 (λ d. is_digit d (get_elem? lookup d)) ≡ true
unfolding all_below
lookup_table = refl

both : (a b : Bool) → (a && b) ≡ true → (a ≡ true) × (b ≡ true)
both true b h = (refl, h)
both false b h = absurd (ground arith)

digit : (d : ℕ) → d < 36 → (c : ℕ) × (get_elem? lookup d ≡ some c) × (c ≢ 0) × (digit_value c ≡ d)
digit d low =
    read (get_elem? lookup d) refl
      (all_below_sound 36 (λ d. is_digit d (get_elem? lookup d)) d lookup_table low)
  where
    read :
        (o : Option ℕ)
        → get_elem? lookup d ≡ o
        → is_digit d o ≡ true
        → (c : ℕ) × (get_elem? lookup d ≡ some c) × (c ≢ 0) × (digit_value c ≡ d)
    read none e h = absurd (ground arith)
    read (some c) e h =
        let (above, value) = both (leb 1 c) (digit_value c == d) h in
        (c, e, λ z. omega (arith, leb→le 1 c above), (==_iff (digit_value c) d).0 value)

-- One place of a number.
place : (radix n : ℕ) → n % radix + radix * (n / radix) ≡ n
place radix n = omega (arith, mod-eq-sub-mul-div n radix, mul-div-le n radix)

shrinks : (radix n m : ℕ) → 0 < radix → n < radix ^ suc m → n / radix < radix ^ m
shrinks radix n m pos h = (div-lt_iff_lt-mul pos).1 (omega (arith, h, pow-suc radix m))

-- What the loop of `itoa` leaves: the digits of `value`, the lowest first, at the place `length d`.
record IsWritten (m fuel value radix : ℕ) (d r : List ℕ) : Type 0 where
  pub text : List ℕ
  pub result :
      itoa_from fuel value (length d) radix (d ++ r)
      ≡ some (length d + length text, d ++ overlay text r)
  pub fits : length text < length r
  pub short : length text ≤ m
  pub plain : HasNoNul text
  pub reads : value_of radix text ≡ value

nothing :
    (m fuel value radix : ℕ) (d r : List ℕ)
    → value ≡ 0
    → 0 < length r
    → IsWritten m (suc fuel) value radix d r
unfolding itoa_from
nothing m fuel value radix d r e room = record {
  text = [];
  result = rw ((==_iff value 0).1 e) (ap (λ i. some (i, d ++ r)) (omega arith));
  fits = room;
  short = omega arith;
  plain = tt;
  reads = sym e;
}

rest_lt : (radix n : ℕ) → 1 < radix → n % radix < radix
rest_lt radix n two = mod-lt n (omega arith)

itoa_from-IsWritten :
    (m fuel value radix : ℕ) (d r : List ℕ)
    → 1 < radix
    → radix ≤ 36
    → value < radix ^ m
    → m < length r
    → m < fuel
    → IsWritten m fuel value radix d r
unfolding itoa_from
itoa_from-IsWritten m zero value radix d r two few small room enough = absurd (omega arith)
itoa_from-IsWritten zero (suc fuel) value radix d r two few small room enough =
    nothing zero fuel value radix d r (omega (arith, small, pow-zero radix)) room
itoa_from-IsWritten (suc m) (suc fuel) value radix d [] two few small room enough =
    absurd (omega arith)
itoa_from-IsWritten (suc m) (suc fuel) value radix d (x ∷ r) two few small room enough =
    elim (ℕ_discrete value 0) [
      | yes e ↦ nothing (suc m) fuel value radix d (x ∷ r) e (omega arith)
      | no more ↦
          let (c, look, plain, reads) =
            digit (value % radix) (omega (arith, rest_lt radix value two)) in
          let w =
            itoa_from-IsWritten m fuel (value / radix) radix (d ++ c ∷ []) r two few
              (shrinks radix value m (omega arith) small) (omega arith) (omega arith) in
          let grown = length-append d (c ∷ []) in
          record {
            text = c ∷ w.text;
            result =
                rw (==_ne value 0 more, look, store_here d r x c)
                  (ap₂ (λ i mem. itoa_from fuel (value / radix) i radix mem) (sym grown)
                      (sym (assoc d (c ∷ []) r))
                    ∙ w.result
                    ∙ ap₂ (λ i mem. some (i, mem)) (omega (arith, grown))
                        (assoc d (c ∷ []) (overlay w.text r)));
            fits = omega (arith, w.fits);
            short = omega (arith, w.short);
            plain = (plain, w.plain);
            reads = ap₂ (λ v n. v + radix * n) reads w.reads ∙ place radix value;
          }
    ]

length-reverse : (s : List ℕ) → length (reverse s) ≡ length s
length-reverse [] = refl
length-reverse (x ∷ s) =
    ap length (reverse-cons x s)
    ∙ omega (arith, length-append (reverse s) (x ∷ []), length-reverse s)

append-HasNoNul : (s t : List ℕ) → HasNoNul s → HasNoNul t → HasNoNul (s ++ t)
append-HasNoNul [] t hs ht = ht
append-HasNoNul (x ∷ s) t hs ht = (hs.0, append-HasNoNul s t hs.1 ht)

reverse-HasNoNul : (s : List ℕ) → HasNoNul s → HasNoNul (reverse s)
reverse-HasNoNul [] h = tt
reverse-HasNoNul (x ∷ s) h =
    subst HasNoNul (sym (reverse-cons x s))
      (append-HasNoNul (reverse s) (x ∷ []) (reverse-HasNoNul s h.1) (h.0, tt))

drop_at : (n : ℕ) (buf : List ℕ) → n < length buf → (x : ℕ) × (drop n buf ≡ x ∷ drop (suc n) buf)
drop_at n [] h = absurd (omega arith)
drop_at zero (x ∷ buf) h = (x, refl)
drop_at (suc n) (x ∷ buf) h = drop_at n buf (omega arith)

-- What `itoa` has done: a text of at least one character, its NUL, and the buffer behind.
pub record IsNumeral (m value : ℕ) (buf : List ℕ) (radix : ℕ) : Type 0 where
  pub text : List ℕ
  pub result : itoa value buf radix ≡ some (text ++ 0 ∷ drop (suc (length text)) buf)
  pub plain : HasNoNul text
  pub reads : value_of radix (reverse text) ≡ value
  pub fits : length text < length buf
  pub short : 0 < m → length text ≤ m

zero-IsNumeral :
    (m value radix : ℕ) (buf : List ℕ) → value ≡ 0 → 1 < length buf → IsNumeral m value buf radix
unfolding itoa
zero-IsNumeral m value radix [] e room = absurd (omega arith)
zero-IsNumeral m value radix (x ∷ []) e room = absurd (omega arith)
zero-IsNumeral m value radix (x ∷ y ∷ buf) e room = record {
  text = 48 ∷ [];
  result =
      rw
        (
          (==_iff value 0).1 e,
          lt→ltb 0 (suc (suc (length buf))) (omega arith),
          lt→ltb 1 (suc (suc (length buf))) (omega arith),
        )
        refl;
  plain = (λ z. omega arith, tt);
  reads = omega arith;
  fits = omega arith;
  short = λ pos. omega arith;
}

itoa-digits :
    (text rest : List ℕ) (x : ℕ) (buf : List ℕ) (value radix : ℕ)
    → value ≢ 0
    → 0 < radix
    → HasNoNul text
    → itoa_from (length buf + 1) value 0 radix buf ≡ some (length text, text ++ x ∷ rest)
    → itoa value buf radix ≡ some (reverse text ++ 0 ∷ rest)
unfolding itoa
itoa-digits text rest x buf value radix more pos plain done =
    rw (==_ne value 0 more, ==_ne radix 0 (λ e. omega arith), done, store_here text rest x 0)
      (strrev_lem text rest plain)

pub itoa_lem :
    (m value radix : ℕ) (buf : List ℕ)
    → 1 < radix
    → radix ≤ 36
    → value < radix ^ m
    → m < length buf
    → 1 < length buf
    → IsNumeral m value buf radix
itoa_lem m value radix buf two few small room pair = elim (ℕ_discrete value 0) [
  | yes e ↦ zero-IsNumeral m value radix buf e pair
  | no more ↦
      let w =
        itoa_from-IsWritten m (length buf + 1) value radix [] buf two few small room
          (omega arith) in
      let (x, split) = drop_at (length w.text) buf w.fits in
      let size = length-reverse w.text in
      record {
        text = reverse w.text;
        result =
            itoa-digits w.text (drop (suc (length w.text)) buf) x buf value radix more (omega arith)
              w.plain
              (w.result ∙ ap₂ (λ i mem. some (i, mem)) (omega arith) (ap (λ l. w.text ++ l) split))
            ∙ ap (λ n. some (reverse w.text ++ 0 ∷ drop (suc n) buf)) (sym size);
        plain = reverse-HasNoNul w.text w.plain;
        reads = ap (value_of radix) (reverse-reverse w.text) ∙ w.reads;
        fits = omega (arith, size, w.fits);
        short = λ pos. omega (arith, size, w.short);
      }
]
