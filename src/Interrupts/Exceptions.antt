-- ===== src/Interrupts/Exceptions.antt =====
-- interrupt_desc_table.c: an exception ends the program that raised it.
use illinix_os.Base.{
  ℕ, ◌-◌, ◌<◌, ◌≡◌, refl, some, List, [], ◌∷◌, ◌++◌, get_elem?, get_elem?-set_self, length, set,
  minus_one,
}
use illinix_os.FileSystem.{Image}
use illinix_os.Page.{Layout}
use illinix_os.Terminal.{Terminal}
use illinix_os.Process.{Pcb, Kernel, Drivers, first_unused, last_process}
use illinix_os.Process.Execute.{Frame, resumes, end_process}
use illinix_os.Process.Execute.Family.{halt-enter}
use illinix_os.Process.Execute.Stack.{stacks, stack_of}
use illinix_os.Process.Execute.Stack.Orderly.{pop-IsOrderly}
use illinix_os.Process.Execute.Stack.Steps.{IsOrderlyKernel}
use illinix_os.Interrupts.{Exception, handle_exception}

module _ {W : Type 0} (at : Layout) (img : Image) (frame : Frame) (drivers : Drivers W) where
  -- On an orderly kernel, an exception of a program that is no shell does not fault: the program leaves
  -- the top of the stack of its terminal and no other stack changes, its page is free, and the parent
  -- goes on with its own stack, kernel stack and page directory and gets the status 256,
  -- whatever the exception is; the kernel stays orderly.
  pub handle_exception_lem :
      (e : Exception) (k : Kernel W) (t : Terminal) (idx : ℕ) (pcb : Pcb)
      → IsOrderlyKernel k
      → get_elem? k.terminals k.curr_running_terminal_idx ≡ some t
      → last_process t.phys_mem_idx ≡ some idx
      → get_elem? k.pcbs idx ≡ some pcb
      → 2 < idx
      → idx < length k.phys_addr_available
      → (k' : Kernel W) × (s : List ℕ) × ((handle_exception at img frame drivers e k).1
          ≡ some (resumes pcb.parent_esp pcb.parent_ebp 256, k'))
        × (get_elem? (stacks k) k.curr_running_terminal_idx ≡ some (s ++ idx ∷ []))
        × (stacks k' ≡ set (stacks k) k.curr_running_terminal_idx s)
        × (get_elem? k'.phys_addr_available idx ≡ some 1)
        × (k'.paging.cr3 ≡ pcb.parent_pdbr)
        × (k'.cpu.tss_esp0 ≡ pcb.parent_esp0)
        × IsOrderlyKernel k'
  unfolding handle_exception
  handle_exception_lem e k t idx pcb orderly there last block high page =
      let i = first_unused t.phys_mem_idx - 1 in
      let t' = record t { phys_mem_idx = set t.phys_mem_idx i minus_one; vid_on = 0 } in
      let raised = record k { exception_flag = 1 } in
      let (orderly', top, popped) =
        pop-IsOrderly k.phys_addr_available k.terminals k.curr_running_terminal_idx t t' idx orderly
          there last refl in
      (
        end_process idx i t pcb raised,
        stack_of t',
        halt-enter at img frame drivers 0 raised t idx pcb there last block high,
        top,
        popped,
        get_elem?-set_self k.phys_addr_available idx 1 page,
        refl,
        refl,
        orderly',
      )
