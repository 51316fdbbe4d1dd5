-- ===== src/Process/Execute/Stack/Steps.antt =====
-- system_call_handler.c: `execute` and `halt` keep the contract of the stacks of processes.
use mathlib.Core.Option.{some-injective}
use illinix_os.Base.{
  ℕ, ◌≡◌, refl, ◌≢◌, inl, inr, ◌∙◌, ap, sym, subst, subst₂, Bool, Option, none, some, List, arith,
  if◌then◌else◌, bind_elim, if_elim, get_elem?, set, map, set-same, minus_one,
}
use illinix_os.FileSystem.{Image, Dentry}
use illinix_os.Page.{Layout}
use illinix_os.Process.{Kernel, Drivers}
use illinix_os.Process.Execute.{
  Frame, Outcome, returns, enters, push_process, launch, launched, take_page, execute, on_terminal,
}
use illinix_os.Process.Execute.Slots.{take_page_lem}
use illinix_os.Process.Execute.Branches.{begun, no_command, refused, started, execute-Ran}
use illinix_os.Process.Execute.Launched.{launch-IsLaunched}
use illinix_os.Process.Execute.Stack.{stack_of, stacks, Executed, failed, entered}
use illinix_os.Process.Execute.Stack.Counts.{get_elem?-map, map-set}
use illinix_os.Process.Execute.Stack.Tied.{IsTied}
use illinix_os.Process.Execute.Stack.Orderly.{IsOrderly, push-IsOrderly, IsPlaces-set}

module _ {W : Type 0} where
  abbrev pub IsOrderlyKernel : Kernel W → Type 0
  IsOrderlyKernel k = IsOrderly k.phys_addr_available k.terminals

  -- What holds of the stacks after `execute`.
  abbrev pub AfterExecute : Kernel W → Outcome → Kernel W → Type 0
  AfterExecute k o k' =
      Executed k.curr_running_terminal_idx (stacks k) o (stacks k')
      × IsOrderlyKernel k'
      × (k'.curr_running_terminal_idx ≡ k.curr_running_terminal_idx)

  -- A call that fails.
  kept :
      (k k' : Kernel W) (o : Outcome)
      → IsOrderlyKernel k
      → ◌≡◌ {A = Option (Outcome × Kernel W)} (some (returns minus_one, k)) (some (o, k'))
      → AfterExecute k o k'
  kept k k' o orderly e =
      let same : ◌≡◌ {A = Outcome × Kernel W} (returns minus_one, k) (o, k') =
        some-injective _ _ e in
      subst₂ (λ o k'. AfterExecute k o k') (ap (λ r. r.0) same) (ap (λ r. r.1) same)
        (failed, orderly, refl)

module _ {W : Type 0} (at : Layout) (img : Image) (frame : Frame) where
  pub launch-none :
      (d : Dentry) (argument : Option (List ℕ)) (k : Kernel W)
      → launch at img frame none d argument k ≡ some (returns minus_one, k)
  unfolding launch
  launch-none d argument k = refl

  launch_found :
      (j a : ℕ) (d : Dentry) (argument : Option (List ℕ)) (k k' : Kernel W) (o : Outcome)
      → IsOrderlyKernel k
      → get_elem? k.phys_addr_available j ≡ some a
      → a ≢ 0
      → launch at img frame (some (j, set k.phys_addr_available j 0)) d argument k ≡ some (o, k')
      → AfterExecute k o k'
  launch_found j a d argument k k' o orderly page free done =
      let l =
        launch-IsLaunched at img frame (j, set k.phys_addr_available j 0) d argument k k' o done in
      let r = k.curr_running_terminal_idx in
      let t' = record (l.t) { phys_mem_idx = push_process j l.t.phys_mem_idx } in
      let (orderly', unused, stack) =
        push-IsOrderly k.phys_addr_available k.terminals r l.t t' j orderly l.terminal a page free
          refl in
      let k1 =
        launched at img frame (j, set k.phys_addr_available j 0) l.t l.old l.arg l.loaded k in
      let pushed : Executed r (stacks k) (enters l.addr_asm) (stacks k1) =
        subst (Executed r (stacks k) (enters l.addr_asm)) (sym stack) (
          entered (stack_of l.t) j l.addr_asm (get_elem?-map stack_of k.terminals r l.terminal)
            unused) in
      subst₂ (λ e q. AfterExecute k e q) (sym l.outcome) (sym l.result) (pushed, orderly', refl)

  launch_any :
      (d : Dentry) (argument : Option (List ℕ)) (k k' : Kernel W) (o : Outcome)
      → IsOrderlyKernel k
      → launch at img frame (take_page 0 k.phys_addr_available) d argument k ≡ some (o, k')
      → AfterExecute k o k'
  launch_any d argument k k' o orderly done = elim (take_page_lem 0 k.phys_addr_available) [
    | inl (j, a, page, free, taken) ↦ launch_found j a d argument k k' o orderly page free (
        ap (λ p. launch at img frame p d argument k)
          (sym (taken ∙ ap (λ n. some (n, set k.phys_addr_available j 0)) (omega arith)))
        ∙ done)
    | inr full ↦
        kept k k' o orderly (
          sym (ap (λ p. launch at img frame p d argument k) full ∙ launch-none d argument k) ∙ done)
  ]

module _ {W : Type 0} where
  -- The flag of the greeting changes no stack.
  pub greeted :
      (i : ℕ) (k k' : Kernel W) (greets : Bool)
      → IsOrderlyKernel k
      → (if greets then on_terminal i (λ t. record t { hello_flag = 1 }) k else some k) ≡ some k'
      → (stacks k' ≡ stacks k)
        × IsOrderlyKernel k'
        × (k'.curr_running_terminal_idx ≡ k.curr_running_terminal_idx)
  greeted i k k' greets orderly e =
      if_elim greets e
        (λ b e1.
          bind_elim (get_elem? k.terminals i)
            (λ t. some (record k { terminals = set k.terminals i (record t { hello_flag = 1 }) }))
            e1
            (λ t there e2.
              let t' = record t { hello_flag = 1 } in
              let alike : map stack_of (set k.terminals i t') ≡ stacks k =
                map-set stack_of k.terminals i t'
                ∙ set-same (stacks k) i (get_elem?-map stack_of k.terminals i there) in
              subst IsLike (some-injective _ _ e2) (
                alike,
                record {
                  tied = subst (IsTied k.phys_addr_available) (sym alike) orderly.tied;
                  places =
                      IsPlaces-set k.phys_addr_available k.terminals i t' orderly
                        (orderly.places i t there);
                },
                refl,
              )))
        (λ b e1. subst IsLike (some-injective _ _ e1) (refl, orderly, refl))
    where
      IsLike : Kernel W → Type 0
      IsLike q =
          (stacks q ≡ stacks k)
          × IsOrderlyKernel q
          × (q.curr_running_terminal_idx ≡ k.curr_running_terminal_idx)

module _ {W : Type 0} (at : Layout) (img : Image) (frame : Frame) where
  -- On an orderly kernel, `execute` keeps the contract of the stacks, whatever the command and the
  -- files are: either it returns -1 and changes no stack, or it enters a program, pushed on the stack
  -- of the terminal that runs with a page that no process uses; the kernel stays orderly.
  pub execute-stacks :
      (drivers : Drivers W) (command : Option (List ℕ)) (k k' : Kernel W) (o : Outcome)
      → IsOrderlyKernel k
      → execute at img frame drivers command k ≡ some (o, k')
      → AfterExecute k o k'
  execute-stacks drivers command k k' o orderly done =
      elim (execute-Ran at img frame drivers command k k' o done) [
        | no_command e same ↦
            subst₂ (λ o k'. AfterExecute k o k') (sym e) (sym same) (failed, orderly, refl)
        | refused greets w e out ↦
            let (alike, orderly2, running) =
              greeted k.curr_terminal_idx (begun w k) k' greets orderly e in
            (
              subst₂ (λ o ss. Executed k.curr_running_terminal_idx (stacks k) o ss) (sym out)
                  (sym alike) failed,
              orderly2,
              running,
            )
        | started greets w k2 d argument e launching ↦
            let (alike, orderly2, running) =
              greeted k.curr_terminal_idx (begun w k) k2 greets orderly e in
            let (done2, orderly', running') =
              launch_any at img frame d argument k2 k' o orderly2 launching in
            (
              subst₂ (λ r ss. Executed r ss o (stacks k')) running alike done2,
              orderly',
              running' ∙ running,
            )
      ]
