-- ===== src/Scheduler/Places.antt =====
-- pit.c: the processes that run on two terminals are two.
use illinix_os.Base.{
  ℕ, ◌≤◌, ◌≡◌, ◌≢◌, ◌∙◌, ap, sym, some, Option, [], ◌∷◌, arith, ◌>>=◌, bind_elim, get_elem?,
}
use illinix_os.Terminal.{Terminal}
use illinix_os.Process.{Kernel, last_process}
use illinix_os.Process.Execute.Stack.{stack_of, stacks, count}
use illinix_os.Process.Execute.Stack.Places.{pop_process}
use illinix_os.Process.Execute.Stack.Counts.{count-append, count-one, total-two, get_elem?-map}
use illinix_os.Process.Execute.Stack.Tied.{one_of_six}
use illinix_os.Process.Execute.Stack.Steps.{IsOrderlyKernel}

module _ {W : Type 0} where
  -- The process that runs on a terminal.
  abbrev pub top_of : ℕ → Kernel W → Option ℕ
  top_of r k = get_elem? k.terminals r >>= λ t. last_process t.phys_mem_idx

  counted :
      (k : Kernel W) (p : ℕ) (t : Terminal) (i : ℕ)
      → IsOrderlyKernel k
      → get_elem? k.terminals i ≡ some t
      → last_process t.phys_mem_idx ≡ some p
      → 1 ≤ count p (stack_of t)
  counted k p t i orderly there last =
      let (split, packed, more) = pop_process t.phys_mem_idx p last (orderly.places i t there).0 in
      omega (arith, ap (count p) split, count-append p _ (p ∷ []), self)
    where
      self : count p (p ∷ []) ≡ 1
      self = count-one p p ∙ ground arith

  pub top_of-ne :
      (k : Kernel W) (i j p q : ℕ)
      → IsOrderlyKernel k
      → i ≢ j
      → top_of i k ≡ some p
      → top_of j k ≡ some q
      → p ≢ q
  top_of-ne k i j p q orderly ne top top' same =
      bind_elim (get_elem? k.terminals i) (λ t. last_process t.phys_mem_idx) top
        λ t there last.
          bind_elim (get_elem? k.terminals j) (λ t. last_process t.phys_mem_idx) top'
            λ u there' last'. omega (
              arith,
              total-two (count p) (stacks k) i j (get_elem?-map stack_of k.terminals i there)
                  (get_elem?-map stack_of k.terminals j there') ne,
              counted k p t i orderly there last,
              counted k p u j orderly there' (last' ∙ ap (λ n. some n) (sym same)),
              orderly.tied.once p,
              small p,
            )
    where
      small : (n : ℕ) → one_of_six n ≤ 1
      small n = ground arith
