-- ===== src/Format/Reversing.antt =====
-- lib.c: `strrev` turns a text around.
use mathlib.Core.List.{reverse-cons, reverse-append}
use illinix_os.Base.{
  ℕ, zero, suc, ◌+◌, ◌-◌, ◌≤◌, ◌<◌, ◌≡◌, refl, ◌⊎◌, inl, inr, ◌∙◌, ap, ap₂, sym, some, List, [],
  ◌∷◌, ◌++◌, reverse, arith, get_elem?, set, length, length-append, lt→ltb, le→ltb_false,
}
use illinix_os.Libc.Lengths.{HasNoNul, strlen-append}
use illinix_os.Libc.Copies.{assoc}
use illinix_os.Format.{strrev, strrev_from}

set_at : (d r : List ℕ) (x v n : ℕ) → n ≡ length d → set (d ++ x ∷ r) n v ≡ d ++ v ∷ r
set_at [] r x v n e = ap (λ i. set (x ∷ r) i v) e
set_at (y ∷ d) r x v n e =
    ap (λ i. set (y ∷ (d ++ x ∷ r)) i v) e ∙ ap (λ ys. y ∷ ys) (set_at d r x v (length d) refl)

get_at : (d r : List ℕ) (x n : ℕ) → n ≡ length d → get_elem? (d ++ x ∷ r) n ≡ some x
get_at [] r x n e = ap (λ i. get_elem? (x ∷ r) i) e
get_at (y ∷ d) r x n e = ap (λ i. get_elem? (y ∷ (d ++ x ∷ r)) i) e ∙ get_at d r x (length d) refl

-- A list is empty or has a last element.
last_of : (s : List ℕ) → (s ≡ []) ⊎ ((m : List ℕ) × (y : ℕ) × (s ≡ m ++ y ∷ []))
last_of [] = inl refl
last_of (x ∷ s) = elim (last_of s) [
  | inl e ↦ inr ([], x, ap (λ t. x ∷ t) e)
  | inr (m, y, e) ↦ inr (x ∷ m, y, ap (λ t. x ∷ t) e)
]

stop : (rounds beg end : ℕ) (s : List ℕ) → end ≤ beg → strrev_from (suc rounds) beg end s ≡ some s
unfolding strrev_from
stop rounds beg end s h = rw (le→ltb_false beg end h) refl

-- One round, on the part `x m y` of the memory.
swapped :
    (rounds : ℕ) (pre m post : List ℕ) (x y : ℕ)
    → strrev_from (suc rounds) (length pre) (length pre + length m + 1) (pre ++ x ∷ (m ++ y ∷ post))
      ≡ strrev_from rounds
          (length (pre ++ y ∷ []))
          (length (pre ++ y ∷ []) + length m - 1)
          ((pre ++ y ∷ []) ++ (m ++ x ∷ post))
unfolding strrev_from
swapped rounds pre m post x y =
    let n = length pre + length m + 1 in
    let split = assoc pre (x ∷ m) (y ∷ post) in
    let at : n ≡ length (pre ++ x ∷ m) = omega (arith, length-append pre (x ∷ m)) in
    let g1 : get_elem? (pre ++ x ∷ (m ++ y ∷ post)) n ≡ some y =
      ap (λ l. get_elem? l n) (sym split) ∙ get_at (pre ++ x ∷ m) post y n at in
    let g0 = get_at pre (m ++ y ∷ post) x (length pre) refl in
    let s1 : set (pre ++ x ∷ (m ++ y ∷ post)) n x ≡ pre ++ x ∷ (m ++ x ∷ post) =
      ap (λ l. set l n x) (sym split)
      ∙ set_at (pre ++ x ∷ m) post y x n at
      ∙ assoc pre (x ∷ m) (x ∷ post) in
    let s2 = set_at pre (m ++ x ∷ post) x y (length pre) refl in
    rw (lt→ltb (length pre) n (omega arith), g1, g0, s1, s2)
      (next (length-append pre (y ∷ [])) (sym (assoc pre (y ∷ []) (m ++ x ∷ post))))
  where
    next :
        {l : ℕ} {mem mem' : List ℕ}
        → l ≡ length pre + 1
        → mem ≡ mem'
        → strrev_from rounds (length pre + 1) (length pre + length m + 1 - 1) mem
          ≡ strrev_from rounds l (l + length m - 1) mem'
    next {l} {mem} {mem'} e same =
        ap (strrev_from rounds (length pre + 1) (length pre + length m + 1 - 1)) same
        ∙ ap₂ (λ b n. strrev_from rounds b n mem') (sym e) (omega (arith, e))

reverse_ends :
    (m post : List ℕ) (x y : ℕ) → reverse (x ∷ (m ++ y ∷ [])) ++ post ≡ y ∷ (reverse m ++ x ∷ post)
reverse_ends m post x y =
    ap (λ l. l ++ post)
      (reverse-cons x (m ++ y ∷ []) ∙ ap (λ l. l ++ x ∷ []) (reverse-append m (y ∷ [])))
    ∙ assoc (y ∷ reverse m) (x ∷ []) post

-- The loop, on the part `s` of the memory.
strrev_from-segment :
    (rounds : ℕ) (pre s post : List ℕ)
    → length s < rounds + rounds
    → strrev_from rounds (length pre) (length pre + length s - 1) (pre ++ (s ++ post))
      ≡ some (pre ++ (reverse s ++ post))
strrev_from-segment zero pre s post enough = absurd (omega arith)
strrev_from-segment (suc rounds) pre [] post enough =
    stop rounds (length pre) (length pre + 0 - 1) (pre ++ post) (omega arith)
strrev_from-segment (suc rounds) pre (x ∷ s) post enough = elim (last_of s) [
  | inl e ↦
      ap
        (λ l.
          strrev_from (suc rounds) (length pre) (length pre + suc (length l) - 1)
            (pre ++ (x ∷ l ++ post)))
        e
      ∙ stop rounds (length pre) (length pre + 1 - 1) (pre ++ x ∷ post) (omega arith)
      ∙ ap (λ l. some (pre ++ (reverse (x ∷ l) ++ post))) (sym e)
  | inr (m, y, e) ↦
      let grown = length-append m (y ∷ []) in
      ap
        (λ l.
          strrev_from (suc rounds) (length pre) (length pre + suc (length l) - 1)
            (pre ++ (x ∷ l ++ post)))
        e
      ∙ ap₂ (strrev_from (suc rounds) (length pre)) (omega (arith, grown))
          (ap (λ l. pre ++ x ∷ l) (assoc m (y ∷ []) post))
      ∙ swapped rounds pre m post x y
      ∙ strrev_from-segment rounds (pre ++ y ∷ []) m (x ∷ post) (omega (arith, grown, ap length e))
      ∙ ap some (
          assoc pre (y ∷ []) (reverse m ++ x ∷ post)
          ∙ ap (λ l. pre ++ l) (sym (reverse_ends m post x y)))
      ∙ ap (λ l. some (pre ++ (reverse (x ∷ l) ++ post))) (sym e)
]

-- `strrev` of a text with its NUL: the text stands the other way round, and no other byte changes.
pub strrev_lem :
    (s post : List ℕ) → HasNoNul s → strrev (s ++ 0 ∷ post) ≡ some (reverse s ++ 0 ∷ post)
unfolding strrev
strrev_lem s post text = rw (strlen-append s post text) (
    ap (λ n. strrev_from (length s + 1) 0 (n - 1) (s ++ 0 ∷ post)) (omega arith)
    ∙ strrev_from-segment (length s + 1) [] s (0 ∷ post) (omega arith))
