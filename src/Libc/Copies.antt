-- ===== src/Libc/Copies.antt =====
-- lib.c: `strcpy`, `strncpy` and `strncmp` against texts without NUL.
use illinix_os.Base.{
  ℕ, zero, suc, ◌+◌, ◌≤◌, ◌<◌, ◌≡◌, refl, ◌≢◌, ◌∙◌, ap, sym, some, List, [], ◌∷◌, ◌++◌, arith, set,
  length, drop, take, replicate, ap₂, length-append, sub32, ◌↔◌, ℕ_discrete, ==_ne, ==_iff, lt→ltb,
}
use illinix_os.Libc.{store, strcpy, strcpy_from, strncpy, strncpy_from, fill_nul, strncmp, signed}
use illinix_os.Libc.Lengths.{HasNoNul}

-- The text `s` at the front of the memory `m`.
abbrev pub overlay : List ℕ → List ℕ → List ℕ
overlay s m = s ++ drop (length s) m

pub assoc : (a b c : List ℕ) → (a ++ b) ++ c ≡ a ++ (b ++ c)
assoc [] b c = refl
assoc (x ∷ a) b c = ap (λ ys. x ∷ ys) (assoc a b c)

set_here : (d r : List ℕ) (x v : ℕ) → set (d ++ x ∷ r) (length d) v ≡ d ++ v ∷ r
set_here [] r x v = refl
set_here (y ∷ d) r x v = ap (λ ys. y ∷ ys) (set_here d r x v)

pub store_here : (d r : List ℕ) (x v : ℕ) → store (d ++ x ∷ r) (length d) v ≡ some (d ++ v ∷ r)
store_here d r x v =
    rw
      (
        lt→ltb (length d) (length (d ++ x ∷ r)) (omega (arith, length-append d (x ∷ r))),
        set_here d r x v,
      )
      refl

-- One more byte behind those that are written.
more : (d r : List ℕ) (v : ℕ) → d ++ v ∷ r ≡ (d ++ v ∷ []) ++ r
more d r v = sym (assoc d (v ∷ []) r)

length_more : (d : List ℕ) (v : ℕ) → length (d ++ v ∷ []) ≡ length d + 1
length_more d v = length-append d (v ∷ [])

strcpy_from-overlay :
    (d r s t : List ℕ)
    → HasNoNul s
    → length s < length r
    → strcpy_from (d ++ r) (s ++ 0 ∷ t) (length d) ≡ some (d ++ overlay (s ++ 0 ∷ []) r)
unfolding strcpy_from
strcpy_from-overlay d [] s t text room = absurd (omega arith)
strcpy_from-overlay d (x ∷ r) [] t text room = store_here d r x 0
strcpy_from-overlay d (x ∷ r) (c ∷ s) t text room =
    let next = strcpy_from-overlay (d ++ c ∷ []) r s t text.1 (omega arith) in
    rw (==_ne c 0 text.0, store_here d r x c)
      (ap₂ (λ m i. strcpy_from m (s ++ 0 ∷ t) i) (more d r c) (sym (length_more d c))
        ∙ next
        ∙ ap some (assoc d (c ∷ []) (overlay (s ++ 0 ∷ []) r)))

-- `strcpy` of a text with its NUL, into memory that has room for both: the text and the NUL come to
-- the front, and no other byte changes.
pub strcpy_lem :
    (dest s t : List ℕ)
    → HasNoNul s
    → length s < length dest
    → strcpy dest (s ++ 0 ∷ t) ≡ some (overlay (s ++ 0 ∷ []) dest)
unfolding strcpy
strcpy_lem dest s t text room = strcpy_from-overlay [] dest s t text room

fill_nul-overlay :
    (d r : List ℕ) (n : ℕ)
    → n ≤ length r
    → fill_nul (d ++ r) (length d) n ≡ some (d ++ (replicate n 0 ++ drop n r))
unfolding fill_nul
fill_nul-overlay d r zero room = refl
fill_nul-overlay d [] (suc n) room = absurd (omega arith)
fill_nul-overlay d (x ∷ r) (suc n) room = rw (store_here d r x 0) (
    ap₂ (λ m i. fill_nul m i n) (more d r 0) (sym (length_more d 0))
    ∙ fill_nul-overlay (d ++ 0 ∷ []) r n (omega arith)
    ∙ ap some (assoc d (0 ∷ []) (replicate n 0 ++ drop n r)))

-- What `strncpy` writes of a text: its first `n` bytes, or all of it and NULs up to `n`.
abbrev pub padded : List ℕ → ℕ → List ℕ
padded s zero = []
padded [] (suc n) = replicate (suc n) 0
padded (c ∷ s) (suc n) = c ∷ padded s n

strncpy_from-padded :
    (d r s t : List ℕ) (n : ℕ)
    → HasNoNul s
    → n ≤ length r
    → strncpy_from (d ++ r) (s ++ 0 ∷ t) (length d) n ≡ some (d ++ (padded s n ++ drop n r))
unfolding strncpy_from
strncpy_from-padded d r [] t zero text room = refl
strncpy_from-padded d r (c ∷ s) t zero text room = refl
strncpy_from-padded d r [] t (suc n) text room = fill_nul-overlay d r (suc n) room
strncpy_from-padded d [] (c ∷ s) t (suc n) text room = absurd (omega arith)
strncpy_from-padded d (x ∷ r) (c ∷ s) t (suc n) text room =
    rw (==_ne c 0 text.0, store_here d r x c)
      (ap₂ (λ m i. strncpy_from m (s ++ 0 ∷ t) i n) (more d r c) (sym (length_more d c))
        ∙ strncpy_from-padded (d ++ c ∷ []) r s t n text.1 (omega arith)
        ∙ ap some (assoc d (c ∷ []) (padded s n ++ drop n r)))

-- `strncpy` of a text into memory of at least `n` bytes writes exactly the first `n` bytes: those of
-- the text, and NULs if the text is shorter. A text of `n` bytes or more gets no NUL.
pub strncpy_lem :
    (dest s t : List ℕ) (n : ℕ)
    → HasNoNul s
    → n ≤ length dest
    → strncpy dest (s ++ 0 ∷ t) n ≡ some (padded s n ++ drop n dest)
unfolding strncpy
strncpy_lem dest s t n text room = strncpy_from-padded [] dest s t n text room

-- Bytes.
abbrev pub AreBytes : List ℕ → Type 0
AreBytes [] = Unit
AreBytes (c ∷ s) = (c < 256) × AreBytes s

difference : (x y : ℕ) → x < 256 → y < 256 → x ≢ y → sub32 (signed x) (signed y) ≢ 0
difference x y hx hy ne e = ne (ground arith)

-- What `strncmp` looks for: the two texts agree in the first `n` bytes.
abbrev pub Agree : List ℕ → List ℕ → ℕ → Type 0
Agree s t n = take n s ≡ take n t

nil≢cons : (c : ℕ) (t : List ℕ) → [] ≢ (c ∷ t)
nil≢cons c t e = absurd (cc e)

strncmp-unequal :
    (x y : ℕ) (s t : List ℕ) (n : ℕ)
    → x ≢ y
    → strncmp (x ∷ s) (y ∷ t) (suc n) ≡ some (sub32 (signed x) (signed y))
unfolding strncmp
strncmp-unequal x y s t n ne = rw (==_ne x y ne) refl

strncmp-equal :
    (x y : ℕ) (s t : List ℕ) (n : ℕ)
    → x ≡ y
    → x ≢ 0
    → strncmp (x ∷ s) (y ∷ t) (suc n) ≡ strncmp s t n
unfolding strncmp
strncmp-equal x y s t n same pos = rw ((==_iff x y).1 same, ==_ne x 0 pos) refl

-- `strncmp` of two texts returns 0 if and only if their first `n` bytes agree.
pub strncmp_lem :
    (s t r q : List ℕ) (n : ℕ)
    → HasNoNul s
    → HasNoNul t
    → AreBytes s
    → AreBytes t
    → (v : ℕ) × (strncmp (s ++ 0 ∷ r) (t ++ 0 ∷ q) n ≡ some v) × (v ≡ 0 ↔ Agree s t n)
strncmp_lem s t r q zero hs ht bs bt = (0, unfold strncmp in refl, ((λ e. refl), (λ e. refl)))
strncmp_lem [] [] r q (suc n) hs ht bs bt = (0, unfold strncmp in refl, ((λ e. refl), (λ e. refl)))
strncmp_lem [] (y ∷ t) r q (suc n) hs ht bs bt = (
  sub32 0 (signed y),
  strncmp-unequal 0 y r (t ++ 0 ∷ q) n (λ e. ht.0 (sym e)),
  (
    (λ e. absurd (difference 0 y (omega arith) bt.0 (λ z. ht.0 (sym z)) e)),
    (λ e. absurd (nil≢cons y (take n t) e)),
  ),
)
strncmp_lem (x ∷ s) [] r q (suc n) hs ht bs bt = (
  sub32 (signed x) 0,
  strncmp-unequal x 0 (s ++ 0 ∷ r) q n hs.0,
  (
    (λ e. absurd (difference x 0 bs.0 (omega arith) hs.0 e)),
    (λ e. absurd (nil≢cons x (take n s) (sym e))),
  ),
)
strncmp_lem (x ∷ s) (y ∷ t) r q (suc n) hs ht bs bt = elim (ℕ_discrete x y) [
  | yes same ↦
      let (v, e, (to, from)) = strncmp_lem s t r q n hs.1 ht.1 bs.1 bt.1 in
      (
        v,
        strncmp-equal x y (s ++ 0 ∷ r) (t ++ 0 ∷ q) n same hs.0 ∙ e,
        ((λ z. ap₂ (λ c m. c ∷ m) same (to z)), (λ z. from (cc z))),
      )
  | no ne ↦ (
    sub32 (signed x) (signed y),
    strncmp-unequal x y (s ++ 0 ∷ r) (t ++ 0 ∷ q) n ne,
    ((λ e. absurd (difference x y bs.0 bt.0 ne e)), (λ e. absurd (ne (cc e)))),
  )
]
