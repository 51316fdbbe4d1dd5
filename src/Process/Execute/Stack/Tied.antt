-- ===== src/Process/Execute/Stack/Tied.antt =====
-- system_call_handler.c: the pages that are free and the pages that the processes use.
use illinix_os.Base.{
  ℕ, ◌+◌, ◌≤◌, ◌<◌, ◌≡◌, ◌≢◌, ◌∙◌, subst, true, some, List, [], ◌∷◌, ◌++◌, ltb, if◌then◌else◌,
  arith, get_elem?, set, length, length-set, length-append, ℕ_discrete, ltb→lt,
}
use illinix_os.Process.Execute.Stack.{count, total, uses, free_bit, free_at}
use illinix_os.Process.Execute.Stack.Counts.{
  count-append, count-one, total-set, total-le, free_at-get, free_at-set_self, free_at-set_ne,
  exists_at,
}

-- A page of the six.
abbrev pub one_of_six : ℕ → ℕ
one_of_six p = if ltb p 6 then 1 else 0

-- Each of the six pages is free or is used once, no other page is used, and all are accounted for.
pub record IsTied (pages : List ℕ) (ss : List (List ℕ)) : Type 0 where
  pub six : length pages ≡ 6
  pub once : (p : ℕ) → uses p ss + free_at pages p ≡ one_of_six p
  pub balance : total length ss + total free_bit pages ≡ 6

module _ (pages : List ℕ) (ss : List (List ℕ)) (r i : ℕ) (s : List ℕ) (tied : IsTied pages ss) where
  one_le : (p : ℕ) → one_of_six p ≤ 1
  one_le p = ground arith

  -- A page that is free is not in use.
  pub unused_of : (a : ℕ) → get_elem? pages i ≡ some a → a ≢ 0 → uses i ss ≡ 0
  unused_of a page free =
      let e = free_at-get pages i page in
      let small = one_le i in let bit : free_bit a ≡ 1 = ground arith in omega (arith, tied.once i)

  other : (p : ℕ) → i ≢ p → count p (i ∷ []) ≡ 0
  other p ne = count-one p i ∙ ground arith

  taken :
      (a : ℕ)
      → get_elem? pages i ≡ some a
      → a ≢ 0
      → get_elem? ss r ≡ some s
      → uses i (set ss r (s ++ i ∷ [])) + free_at (set pages i 0) i ≡ one_of_six i
  taken a page free there = omega (
    arith,
    total-set (count i) ss r (s ++ i ∷ []) there,
    count-append i s (i ∷ []),
    self,
    free_at-set_self pages i 0 page,
    unused_of a page free,
    free_at-get pages i page,
    bit,
    tied.once i,
  )
    where
      self : count i (i ∷ []) ≡ 1
      self = count-one i i ∙ ground arith

      bit : free_bit a ≡ 1
      bit = ground arith

  pub grow-IsTied :
      (a : ℕ)
      → get_elem? pages i ≡ some a
      → a ≢ 0
      → get_elem? ss r ≡ some s
      → IsTied (set pages i 0) (set ss r (s ++ i ∷ []))
  grow-IsTied a page free there = record {
    six = length-set pages i 0 ∙ tied.six;
    once = λ p. elim (ℕ_discrete i p) [
      | yes e ↦
          subst (λ q. uses q (set ss r (s ++ i ∷ [])) + free_at (set pages i 0) q ≡ one_of_six q) e
            (taken a page free there)
      | no ne ↦ omega (
        arith,
        total-set (count p) ss r (s ++ i ∷ []) there,
        count-append p s (i ∷ []),
        other p ne,
        free_at-set_ne pages i 0 p ne,
        tied.once p,
      )
    ];
    balance = omega (
      arith,
      total-set length ss r (s ++ i ∷ []) there,
      length-append s (i ∷ []),
      total-set free_bit pages i 0 page,
      bit,
      tied.balance,
    );
  }
    where
      bit : free_bit a ≡ 1
      bit = ground arith

  pub shrink-IsTied : get_elem? ss r ≡ some (s ++ i ∷ []) → IsTied (set pages i 1) (set ss r s)
  shrink-IsTied there =
      let self : count i (i ∷ []) ≡ 1 = count-one i i ∙ ground arith in
      let used : 1 ≤ uses i ss =
        omega (arith, total-le (count i) ss r there, count-append i s (i ∷ [])) in
      let low : i < 6 = ltb→lt i 6 (small used) in
      let (a, page) = exists_at pages i (omega (arith, tied.six)) in
      record {
        six = length-set pages i 1 ∙ tied.six;
        once = λ p. elim (ℕ_discrete i p) [
          | yes e ↦
              subst (λ q. uses q (set ss r s) + free_at (set pages i 1) q ≡ one_of_six q) e
                (omega (
                  arith,
                  total-set (count i) ss r s there,
                  count-append i s (i ∷ []),
                  self,
                  free_at-set_self pages i 1 page,
                  free_at-get pages i page,
                  tied.once i,
                  one_le i,
                  used,
                ))
          | no ne ↦ omega (
            arith,
            total-set (count p) ss r s there,
            count-append p s (i ∷ []),
            other p ne,
            free_at-set_ne pages i 1 p ne,
            tied.once p,
          )
        ];
        balance = omega (
          arith,
          total-set length ss r s there,
          length-append s (i ∷ []),
          total-set free_bit pages i 1 page,
          tied.balance,
          tied.once i,
          free_at-get pages i page,
          used,
          one_le i,
        );
      }
    where
      small : 1 ≤ uses i ss → ltb i 6 ≡ true
      small used = let e = tied.once i in ground arith
