-- ===== src/Process/Execute/Stack.antt =====
-- system_call_handler.c: what `execute` and `halt` are for. Each terminal has a stack of processes,
-- its shell at the bottom, and a process has a page of memory of its own; a program that starts is
-- pushed on the stack of the terminal that runs, and one that ends is popped.
pub mod Places
pub mod Counts
pub mod Tied
pub mod Orderly
pub mod Steps
pub mod Memory
pub mod Ends
pub mod Sharing
pub mod Files
pub mod Tests
use illinix_os.Base.{
  ℕ, zero, suc, ◌+◌, ◌<◌, ◌≡◌, none, some, Option, List, [], ◌∷◌, ◌++◌, ◌==◌, ltb, if◌then◌else◌,
  map, get_elem?, set, minus_one,
}
use illinix_os.Terminal.{Terminal}
use illinix_os.Process.{Kernel}
use illinix_os.Process.Execute.{Outcome, returns, enters, resumes}

-- The processes of a terminal, from its list of places.
unfoldable pub processes : List ℕ → List ℕ
processes [] = []
processes (p ∷ ps) = if p == minus_one then [] else p ∷ processes ps

abbrev pub stack_of : Terminal → List ℕ
stack_of t = processes t.phys_mem_idx

abbrev pub stacks : {W : Type 0} → Kernel W → List (List ℕ)
stacks k = map stack_of k.terminals

abbrev pub lists_of : List Terminal → List (List ℕ)
lists_of ts = map (λ t. t.phys_mem_idx) ts

-- What other code leaves alone: the pages and the lists of processes. Another terminal may run.
pub record IsAlike {W : Type 0} (k k' : Kernel W) : Type 0 where
  pub pages : k'.phys_addr_available ≡ k.phys_addr_available
  pub lists : lists_of k'.terminals ≡ lists_of k.terminals

-- How often a page is in use.
unfoldable pub count : ℕ → List ℕ → ℕ
count p [] = 0
count p (q ∷ qs) = (if q == p then 1 else 0) + count p qs

unfoldable pub total {ℓ} : {A : Type ℓ} → (A → ℕ) → List A → ℕ
total f [] = 0
total f (x ∷ xs) = f x + total f xs

abbrev pub uses : ℕ → List (List ℕ) → ℕ
uses p ss = total (count p) ss

-- A page that is free counts once.
abbrev pub free_bit : ℕ → ℕ
free_bit a = if a == 0 then 0 else 1

abbrev pub free_at : List ℕ → ℕ → ℕ
free_at [] p = 0
free_at (a ∷ pages) zero = free_bit a
free_at (a ∷ pages) (suc p) = free_at pages p

-- The contract of `execute` on terminal `r`: it fails and changes no stack, or it enters a program,
-- which has gone on top of the stack of the terminal with a page that nobody uses.
pub data Executed (r : ℕ) (ss : List (List ℕ)) : Outcome → List (List ℕ) → Type 0 where
  failed : Executed r ss (returns minus_one) ss
  entered :
      (s : List ℕ) (p addr_asm : ℕ)
      → get_elem? ss r ≡ some s
      → uses p ss ≡ 0
      → Executed r ss (enters addr_asm) (set ss r (s ++ p ∷ []))

-- The contract of `halt`: the process on top goes. Below the place of the shells its parent resumes;
-- a shell gives way to a new shell, or, if that cannot be started, to the stack of its parent.
pub data Halted (r : ℕ) (ss : List (List ℕ)) : Outcome → List (List ℕ) → Type 0 where
  to_parent :
      (s : List ℕ) (p esp ebp code : ℕ)
      → get_elem? ss r ≡ some (s ++ p ∷ [])
      → 2 < p
      → Halted r ss (resumes esp ebp code) (set ss r s)
  to_shell :
      (s : List ℕ) (p addr_asm : ℕ) {ss' : List (List ℕ)}
      → get_elem? ss r ≡ some (s ++ p ∷ [])
      → p < 3
      → Executed r (set ss r s) (enters addr_asm) ss'
      → Halted r ss (enters addr_asm) ss'
  without_shell :
      (s : List ℕ) (p esp ebp code : ℕ)
      → get_elem? ss r ≡ some (s ++ p ∷ [])
      → p < 3
      → Halted r ss (resumes esp ebp code) (set ss r s)
