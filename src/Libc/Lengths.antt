-- ===== src/Libc/Lengths.antt =====
-- lib.c: `strlen` against texts without NUL.
use illinix_os.Base.{
  >>=-eq-some, ==_ne, ℕ_discrete, ℕ, ◌+◌, ◌≡◌, refl, ◌≢◌, List, [], ◌∷◌, ◌++◌, some, ◌>>=◌, length,
  ◌==◌, if◌then◌else◌, arith,
}
use illinix_os.Libc.{strlen, strlen_from}

-- The bytes of a text hold no NUL.
abbrev pub HasNoNul : List ℕ → Type 0
HasNoNul [] = Unit
HasNoNul (c ∷ s) = (c ≢ 0) × HasNoNul s

strlen_from-append :
    (t r : List ℕ) (len : ℕ) → HasNoNul t → strlen_from (t ++ 0 ∷ r) len ≡ some (len + length t)
unfolding strlen_from
strlen_from-append [] r len h = ground arith
strlen_from-append (c ∷ t) r len h = ground (arith, strlen_from-append t r (len + 1) h.1)

pub strlen-append : (t r : List ℕ) → HasNoNul t → strlen (t ++ 0 ∷ r) ≡ some (length t)
unfolding strlen
strlen-append t r h = ground (arith, strlen_from-append t r 0 h)

strlen_from-suc :
    (s : List ℕ) (len : ℕ) → strlen_from s (len + 1) ≡ (strlen_from s len >>= λ n. some (n + 1))
unfolding strlen_from
strlen_from-suc [] len = refl
strlen_from-suc (c ∷ s) len = ground (arith, strlen_from-suc s (len + 1))

-- `strlen` as a recursion on the text.
pub strlen-cons :
    (c : ℕ) (s : List ℕ)
    → strlen (c ∷ s) ≡ (if c == 0 then some 0 else (strlen s >>= λ n. some (n + 1)))
unfolding strlen strlen_from
strlen-cons c s = rw (strlen_from-suc s 0)

pub strlen-append_left : (s r : List ℕ) {n : ℕ} → strlen s ≡ some n → strlen (s ++ r) ≡ some n
strlen-append_left [] r h = absurd (unfold strlen strlen_from in cc h)
strlen-append_left (c ∷ s) r {n} h = elim (ℕ_discrete c 0) [
  | yes e ↦ ground (arith, strlen-cons c s, strlen-cons c (s ++ r))
  | no e ↦
      let (k, ek, es) =
        >>=-eq-some (strlen s) (λ m. some (m + 1))
          (rw (==_ne c 0 e) at (rw (strlen-cons c s) at h)) in
      rw (strlen-cons c (s ++ r), ==_ne c 0 e, strlen-append_left s r ek) es
]
