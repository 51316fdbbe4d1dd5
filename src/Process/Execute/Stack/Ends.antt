-- ===== src/Process/Execute/Stack/Ends.antt =====
-- system_call_handler.c: `halt` keeps the contract of the stacks of processes.
use mathlib.Core.Option.{some-injective}
use illinix_os.Base.{
  ℕ, ◌+◌, ◌-◌, ◌<◌, ◌≡◌, refl, ◌∙◌, ap, sym, subst, subst₂, false, Option, some, List, [], ◌∷◌,
  ◌++◌, arith, ltb, ltb→lt, if◌then◌else◌, ◌>>=◌, bind_elim, if_elim, get_elem?, set, minus_one,
  add32,
}
use illinix_os.FileSystem.{Image}
use illinix_os.Page.{Layout}
use illinix_os.Terminal.{Terminal}
use illinix_os.Process.{Pcb, Kernel, Drivers, last_process, first_unused}
use illinix_os.Process.Execute.{
  Frame, Outcome, returns, enters, resumes, restarts_shell, execute, halt, end_process, exit_status,
  shell,
}
use illinix_os.Process.Execute.Stack.{
  stack_of, stacks, Executed, failed, entered, Halted, to_parent, to_shell, without_shell,
}
use illinix_os.Process.Execute.Stack.Orderly.{pop-IsOrderly}
use illinix_os.Process.Execute.Stack.Steps.{IsOrderlyKernel, AfterExecute, execute-stacks}

-- What `execute` may have done when it has not entered a program.
abbrev Cases : List (List ℕ) → Outcome → List (List ℕ) → Type 0
Cases ss (enters a) ss' = Unit
Cases ss (returns v) ss' = ss' ≡ ss
Cases ss (resumes a b c) ss' = ss' ≡ ss
Cases ss (restarts_shell a) ss' = ss' ≡ ss

Executed-Cases :
    (r : ℕ) (ss ss' : List (List ℕ)) (o : Outcome) → Executed r ss o ss' → Cases ss o ss'
Executed-Cases r ss ss' o failed = refl
Executed-Cases r ss ss' o (entered s p a there unused) = tt

-- What holds of the stacks after `halt`.
abbrev pub AfterHalt : {W : Type 0} → Kernel W → Outcome → Kernel W → Type 0
AfterHalt k o k' =
    Halted k.curr_running_terminal_idx (stacks k) o (stacks k')
    × IsOrderlyKernel k'
    × (k'.curr_running_terminal_idx ≡ k.curr_running_terminal_idx)

module _ {W : Type 0} (k k1 : Kernel W) (s : List ℕ) (p : ℕ)
    (top : get_elem? (stacks k) k.curr_running_terminal_idx ≡ some (s ++ p ∷ []))
    (left : stacks k1 ≡ set (stacks k) k.curr_running_terminal_idx s)
    (running : k1.curr_running_terminal_idx ≡ k.curr_running_terminal_idx) where
  finish :
      (o o' : Outcome) (q k' : Kernel W)
      → AfterHalt k o q
      → ◌≡◌ {A = Option (Outcome × Kernel W)} (some (o, q)) (some (o', k'))
      → AfterHalt k o' k'
  finish o o' q k' after e =
      let same : ◌≡◌ {A = Outcome × Kernel W} (o, q) (o', k') = some-injective _ _ e in
      subst₂ (λ a b. AfterHalt k a b) (ap (λ r. r.0) same) (ap (λ r. r.1) same) after

  alone :
      (esp ebp code : ℕ) (q : Kernel W)
      → p < 3
      → stacks q ≡ stacks k1
      → IsOrderlyKernel q
      → q.curr_running_terminal_idx ≡ k1.curr_running_terminal_idx
      → AfterHalt k (resumes esp ebp code) q
  alone esp ebp code q low alike orderly same = (
    subst (Halted k.curr_running_terminal_idx (stacks k) (resumes esp ebp code))
        (sym (alike ∙ left)) (without_shell s p esp ebp code top low),
    orderly,
    same ∙ running,
  )

  -- The end of a shell, after the attempt to start a new one.
  after_shell :
      (esp ebp : ℕ) (code : Kernel W → ℕ) (x o : Outcome) (q k' : Kernel W)
      → p < 3
      → AfterExecute k1 x q
      → ◌≡◌ {A = Option (Outcome × Kernel W)}
          (elim x [ enters a ↦ some (enters a, q) | _ ↦ some (resumes esp ebp (code q), q) ])
          (some (o, k'))
      → AfterHalt k o k'
  after_shell esp ebp code (enters a) o q k' low (done, orderly, same) e =
      finish (enters a) o q k'
        (
          to_shell s p a top low
              (subst₂ (λ r ss. Executed r ss (enters a) (stacks q)) running left done),
          orderly,
          same ∙ running,
        )
        e
  after_shell esp ebp code (returns v) o q k' low (done, orderly, same) e =
      finish _ o q k'
        (alone esp ebp (code q) q low (Executed-Cases _ _ _ (returns v) done) orderly same) e
  after_shell esp ebp code (resumes a b c) o q k' low (done, orderly, same) e =
      finish _ o q k'
        (alone esp ebp (code q) q low (Executed-Cases _ _ _ (resumes a b c) done) orderly same) e
  after_shell esp ebp code (restarts_shell a) o q k' low (done, orderly, same) e =
      finish _ o q k'
        (alone esp ebp (code q) q low (Executed-Cases _ _ _ (restarts_shell a) done) orderly same) e

module _ {W : Type 0} (at : Layout) (img : Image) (frame : Frame) (drivers : Drivers W) where
  -- On an orderly kernel, `halt` keeps the contract of the stacks: the process on top of the stack of
  -- the terminal that runs goes, and its page is free; a process on one of the pages from 3 on gives
  -- way to its parent, and one on another page to a new shell, or to the stack of its parent when no
  -- shell can be started; the kernel stays orderly.
  pub halt-stacks :
      (status : ℕ) (k k' : Kernel W) (o : Outcome)
      → IsOrderlyKernel k
      → halt at img frame drivers status k ≡ some (o, k')
      → AfterHalt k o k'
  unfolding halt
  halt-stacks status k k' o orderly done =
      let code = exit_status k.exception_flag status in
      let gone : Terminal → ℕ → Pcb → Kernel W =
        λ t idx pcb. end_process idx (first_unused t.phys_mem_idx - 1) t pcb k in
      let last : Terminal → ℕ → Pcb → Option (Outcome × Kernel W) = λ t idx pcb.
        let k1 = gone t idx pcb in
        let back : Kernel W → Outcome =
          λ q. resumes pcb.parent_esp pcb.parent_ebp (code + q.exception_flag) in
        if ltb idx 3
        then (execute at img frame drivers (some shell)
              (record k1 { cpu = record (k1.cpu) { esp = add32 pcb.parent_ebp 8 } })
            >>= λ r. elim (r.0) [ enters a ↦ some (enters a, r.1) | _ ↦ some (back r.1, r.1) ])
        else some (back k1, k1) in
      bind_elim (get_elem? k.terminals k.curr_running_terminal_idx)
        (λ t. last_process t.phys_mem_idx >>= λ idx. get_elem? k.pcbs idx >>= λ pcb. last t idx pcb)
        done
        λ t there d1.
          bind_elim (last_process t.phys_mem_idx)
            (λ idx. get_elem? k.pcbs idx >>= λ pcb. last t idx pcb) d1
            λ idx top d2.
              bind_elim (get_elem? k.pcbs idx) (λ pcb. last t idx pcb) d2
                λ pcb block d3.
                  let t' = record t {
                    phys_mem_idx = set t.phys_mem_idx (first_unused t.phys_mem_idx - 1) minus_one;
                    vid_on = 0;
                  } in
                  let (orderly1, here, left) =
                    pop-IsOrderly k.phys_addr_available k.terminals k.curr_running_terminal_idx t t'
                      idx orderly there top refl in
                  let k1 = gone t idx pcb in
                  let k2 = record k1 { cpu = record (k1.cpu) { esp = add32 pcb.parent_ebp 8 } } in
                  if_elim (ltb idx 3) d3
                    (λ b e.
                      bind_elim (execute at img frame drivers (some shell) k2)
                        (λ r. elim (r.0) [
                          | enters a ↦ some (enters a, r.1)
                          | _ ↦ some (
                            resumes pcb.parent_esp pcb.parent_ebp (code + (r.1).exception_flag),
                            r.1,
                          )
                        ])
                        e
                        λ r ran e'.
                          after_shell k k2 (stack_of t') idx here left refl pcb.parent_esp
                            pcb.parent_ebp (λ q. code + q.exception_flag) (r.0) o (r.1) k'
                            (ltb→lt idx 3 b)
                            (execute-stacks at img frame drivers (some shell) k2 (r.1) (r.0)
                              orderly1 ran)
                            e')
                    (λ b e.
                      finish k k1 (stack_of t') idx here left refl _ o k1 k'
                        (
                          subst
                              (Halted k.curr_running_terminal_idx (stacks k)
                                (resumes pcb.parent_esp pcb.parent_ebp (code + k1.exception_flag)))
                              (sym left)
                              (to_parent (stack_of t') idx pcb.parent_esp pcb.parent_ebp
                                (code + k1.exception_flag) here (high idx b)),
                          orderly1,
                          refl,
                        )
                        e)
    where
      high : (n : ℕ) → ltb n 3 ≡ false → 2 < n
      high n b = ground arith
