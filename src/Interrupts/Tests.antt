-- ===== src/Interrupts/Tests.antt =====
-- A table of zeros, and functions that lie behind each other.
use illinix_os.Base.{List, [], ◌∷◌, ◌++◌, get_elem?, set, ℕ, ◌<◌, ◌^◌, ◌≡◌, refl, some, arith}
use illinix_os.Process.Execute.{resumes, push_process}
use illinix_os.Process.Execute.Tests.{idle, at, image, frame}
use illinix_os.Process.Execute.Stack.Tests.{child, child_pcb, child_terminal, child-IsOrderly}
use illinix_os.Process.{Kernel, last_process}
use illinix_os.Process.Execute.Stack.{stacks}
use illinix_os.Process.Execute.Stack.Steps.{IsOrderlyKernel}
use illinix_os.Interrupts.{
  page_fault_expt, Handler, exception, syscall_handler, Table, idt_init, handle_exception,
}
use illinix_os.Interrupts.Gates.{offset, IsGate}
use illinix_os.Interrupts.Numbers.{at_128}
use illinix_os.Interrupts.Vectors.{idt_init-IsGate, idt_init-handler, idt_init-vacant}
use illinix_os.Interrupts.Exceptions.{handle_exception_lem}

abbrev blank : Table
blank j = record {
  offset_15_00 = 0;
  seg_selector = 0;
  reserved4 = 0;
  reserved3 = 0;
  reserved2 = 0;
  reserved1 = 0;
  size = 0;
  reserved0 = 0;
  dpl = 0;
  present = 0;
  offset_31_16 = 0;
}

abbrev address : Handler → ℕ
address (exception e) = 0x400100
address syscall_handler = 0x400200
address h = 0x400300

address-low : (h : Handler) → address h < 2 ^ 32
address-low h = ground arith

idt_init-IsGate_example : IsGate 1 3 (idt_init address blank 128)
idt_init-IsGate_example = idt_init-IsGate address blank 128 (omega arith)

idt_init-handler_example : offset (idt_init address blank 128) ≡ 0x400200
idt_init-handler_example =
    (idt_init-handler address blank 128 (omega arith) address-low).0 syscall_handler at_128

idt_init-vacant_example :
    ((idt_init address blank 34).present ≡ 1) × (offset (idt_init address blank 34) ≡ 0)
idt_init-vacant_example = idt_init-vacant address blank 34 (omega arith) address-low refl

-- A page fault of the program on page 3.
handle_exception_lem_example :
    (k' : Kernel Unit) × (s : List ℕ) × ((handle_exception at image frame idle page_fault_expt
        child).1
      ≡ some (resumes 0x7FFF00 0x7FFF80 256, k'))
    × (get_elem? (stacks child) 0 ≡ some (s ++ 3 ∷ []))
    × (stacks k' ≡ set (stacks child) 0 s)
    × (get_elem? k'.phys_addr_available 3 ≡ some 1)
    × (k'.paging.cr3 ≡ child_pcb.parent_pdbr)
    × (k'.cpu.tss_esp0 ≡ child_pcb.parent_esp0)
    × IsOrderlyKernel k'
unfolding last_process push_process
handle_exception_lem_example =
    handle_exception_lem at image frame idle page_fault_expt child child_terminal 3 child_pcb
      child-IsOrderly refl refl refl (omega arith) (omega arith)
