-- ===== src/Process/Execute/Stack/Memory.antt =====
-- system_call_handler.c and page.c: the memory of the processes when a program is started.
use illinix_os.Base.{
  ℕ, ◌+◌, ◌*◌, ◌≡◌, refl, ◌≢◌, inl, inr, ◌∙◌, ap, ap₂, sym, subst, false, Bool, Option, some, List,
  [], ◌∷◌, ◌++◌, arith, bind_elim, if_elim, get_elem?, set, minus_one, get_elem?-set_ne,
}
use mathlib.Core.Option.{some-injective}
use illinix_os.FileSystem.{Image, Dentry}
use illinix_os.Page.{Layout}
use illinix_os.Page.Translate.{IsAligned, IsMapped, set_page-set_page_1, set_page_1-IsMapped}
use illinix_os.Process.{Kernel, Drivers}
use illinix_os.Process.Execute.{
  Frame, Outcome, returns, enters, push_process, launch, take_page, execute,
}
use illinix_os.Process.Execute.Branches.{begun, greet, no_command, refused, started, execute-Ran}
use illinix_os.Process.Execute.Slots.{take_page_lem}
use illinix_os.Process.Execute.Launched.{launch-IsLaunched}
use illinix_os.Process.Execute.Stack.{stack_of, stacks, count}
use illinix_os.Process.Execute.Stack.Counts.{get_elem?-map, count-entry, total-le}
use illinix_os.Process.Execute.Stack.Orderly.{push-IsOrderly}
use illinix_os.Process.Execute.Stack.Steps.{IsOrderlyKernel, greeted, launch-none}

-- The page of memory of process `p`.
abbrev pub page_at : ℕ → ℕ
page_at p = 0x800000 + p * 0x400000

-- A new process `p` between `k` and `k'`. It is on top of the stack of the terminal that runs, and its
-- page directory is loaded and shows it its page. What belongs to any process of `k`, its memory, its
-- block and its page directory, stays, and that process is not `p`.
pub record IsIsolated {W : Type 0} (at : Layout) (k k' : Kernel W) (p : ℕ) : Type 0 where
  pub top :
      (s : List ℕ) × (get_elem? (stacks k) k.curr_running_terminal_idx ≡ some s)
      × (stacks k' ≡ set (stacks k) k.curr_running_terminal_idx (s ++ p ∷ []))
  pub loaded : k'.paging.cr3 ≡ at.pde (p + 1)
  pub mapped : IsMapped at k'.paging (p + 1) (page_at p)
  pub others :
      (i j q : ℕ) (s : List ℕ)
      → get_elem? (stacks k) i ≡ some s
      → get_elem? s j ≡ some q
      → (q ≢ p)
        × (get_elem? k'.memory q ≡ get_elem? k.memory q)
        × (get_elem? k'.pcbs q ≡ get_elem? k.pcbs q)
        × ((n : ℕ) → k'.paging.pde_arr (q + 1) n ≡ k.paging.pde_arr (q + 1) n)

module _ {W : Type 0} (at : Layout) (img : Image) (frame : Frame) (aligned : IsAligned at) where
  launch_found-IsIsolated :
      (j a : ℕ) (d : Dentry) (argument : Option (List ℕ)) (k k' : Kernel W) (o : Outcome)
      → IsOrderlyKernel k
      → get_elem? k.phys_addr_available j ≡ some a
      → a ≢ 0
      → launch at img frame (some (j, set k.phys_addr_available j 0)) d argument k ≡ some (o, k')
      → IsIsolated at k k' j
  launch_found-IsIsolated j a d argument k k' o orderly page free done =
      let l =
        launch-IsLaunched at img frame (j, set k.phys_addr_available j 0) d argument k k' o done in
      let r = k.curr_running_terminal_idx in
      let t' = record (l.t) { phys_mem_idx = push_process j l.t.phys_mem_idx } in
      let (orderly', unused, stack) =
        push-IsOrderly k.phys_addr_available k.terminals r l.t t' j orderly l.terminal a page free
          refl in
      let (mapped, cr3, kept) =
        set_page_1-IsMapped at (page_at j) (j + 1) false 0 k.paging aligned (omega arith) in
      subst (λ q. IsIsolated at k q j) (sym l.result)
        (record {
          top = (stack_of l.t, get_elem?-map stack_of k.terminals r l.terminal, stack);
          loaded =
              ap (λ p. p.cr3) (set_page-set_page_1 at 32 (page_at j) (j + 1) 0 0 k.paging) ∙ cr3;
          mapped =
              subst (λ p. IsMapped at p (j + 1) (page_at j))
                (sym (set_page-set_page_1 at 32 (page_at j) (j + 1) 0 0 k.paging)) mapped;
          others = λ i m q s there here.
              let ne : j ≢ q = λ e. absurd (
                omega (
                  arith,
                  unused,
                  total-le (count j) (stacks k) i there,
                  count-entry j s m (here ∙ ap some (sym e)),
                )) in
              (
                λ e. ne (sym e),
                get_elem?-set_ne k.memory l.loaded ne,
                get_elem?-set_ne k.pcbs _ ne,
                λ n.
                    ap (λ p. p.pde_arr (q + 1) n)
                      (set_page-set_page_1 at 32 (page_at j) (j + 1) 0 0 k.paging)
                    ∙ kept (q + 1) n (λ e. ne (omega arith)),
              );
        })

module _ {W : Type 0} where
  -- The greeting changes no process.
  greet-keeps :
      (greets : Bool) (k k1 k2 : Kernel W)
      → greet greets k k1 ≡ some k2
      → (k2.memory ≡ k1.memory) × (k2.pcbs ≡ k1.pcbs) × (k2.paging ≡ k1.paging)
  greet-keeps greets k k1 k2 e =
      if_elim greets e
        (λ b e1.
          bind_elim (get_elem? k1.terminals k.curr_terminal_idx) _ e1
            (λ t there e2. subst Kept (some-injective _ _ e2) (refl, refl, refl)))
        (λ b e1. subst Kept (some-injective _ _ e1) (refl, refl, refl))
    where
      Kept : Kernel W → Type 0
      Kept q = (q.memory ≡ k1.memory) × (q.pcbs ≡ k1.pcbs) × (q.paging ≡ k1.paging)

  IsIsolated-from :
      (at : Layout) (k k2 k' : Kernel W) (p : ℕ)
      → stacks k2 ≡ stacks k
      → k2.curr_running_terminal_idx ≡ k.curr_running_terminal_idx
      → (k2.memory ≡ k.memory) × (k2.pcbs ≡ k.pcbs) × (k2.paging ≡ k.paging)
      → IsIsolated at k2 k' p
      → IsIsolated at k k' p
  IsIsolated-from at k k2 k' p alike running (memory, pcbs, paging) i = record {
    top =
        let (s, there, pushed) = i.top in
        (
          s,
          ap₂ get_elem? (sym alike) (sym running) ∙ there,
          pushed ∙ ap₂ (λ ss r. set ss r (s ++ p ∷ [])) alike running,
        );
    loaded = i.loaded;
    mapped = i.mapped;
    others = λ n j q s there here.
        let (ne, same_memory, same_block, same_directory) =
          i.others n j q s (ap (λ ss. get_elem? ss n) alike ∙ there) here in
        (
          ne,
          same_memory ∙ ap (λ m. get_elem? m q) memory,
          same_block ∙ ap (λ m. get_elem? m q) pcbs,
          λ x. same_directory x ∙ ap (λ t. t.pde_arr (q + 1) x) paging,
        );
  }

module _ {W : Type 0} (at : Layout) (img : Image) (frame : Frame) (aligned : IsAligned at) where
  launch_any-IsIsolated :
      (d : Dentry) (argument : Option (List ℕ)) (k k' : Kernel W) (addr_asm : ℕ)
      → IsOrderlyKernel k
      → launch at img frame (take_page 0 k.phys_addr_available) d argument k
        ≡ some (enters addr_asm, k')
      → (p : ℕ) × IsIsolated at k k' p
  launch_any-IsIsolated d argument k k' addr_asm orderly done =
      elim (take_page_lem 0 k.phys_addr_available) [
        | inl (j, a, page, free, taken) ↦ (
          j,
          launch_found-IsIsolated at img frame aligned j a d argument k k' (enters addr_asm) orderly
              page free
              (ap (λ p. launch at img frame p d argument k)
                  (sym (taken ∙ ap (λ n. some (n, set k.phys_addr_available j 0)) (omega arith)))
                ∙ done),
        )
        | inr full ↦ absurd (
            no_entry k k' addr_asm (
              sym (
                ap (λ p. launch at img frame p d argument k) full
                ∙ launch-none at img frame d argument k)
              ∙ done))
      ]
    where
      no_entry :
          (q q' : Kernel W) (a : ℕ)
          → ¬ (
              ◌≡◌ {A = Option (Outcome × Kernel W)}
                (some (returns minus_one, q))
                (some (enters a, q')))
      no_entry q q' a e = cc e

  -- `execute`, when it enters a program on an orderly kernel, starts a process in memory of its own.
  pub execute-IsIsolated :
      (drivers : Drivers W) (command : Option (List ℕ)) (k k' : Kernel W) (addr_asm : ℕ)
      → IsOrderlyKernel k
      → execute at img frame drivers command k ≡ some (enters addr_asm, k')
      → (p : ℕ) × IsIsolated at k k' p
  execute-IsIsolated drivers command k k' addr_asm orderly done =
      elim (execute-Ran at img frame drivers command k k' (enters addr_asm) done) [
        | no_command out same ↦ absurd (entered_ne out)
        | refused greets w e out ↦ absurd (entered_ne out)
        | started greets w k2 d argument e launching ↦
            let (alike, orderly2, running) =
              greeted k.curr_terminal_idx (begun w k) k2 greets orderly e in
            let (p, isolated) =
              launch_any-IsIsolated d argument k2 k' addr_asm orderly2 launching in
            (
              p,
              IsIsolated-from at k k2 k' p alike running (greet-keeps greets k (begun w k) k2 e)
                  isolated,
            )
      ]
    where
      entered_ne : {a v : ℕ} → ¬ (enters a ≡ returns v)
      entered_ne e = cc e
