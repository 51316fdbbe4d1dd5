-- ===== src/Interrupts.antt =====
-- interrupt_desc_table.c and x86_desc.h: the table of the interrupts, and the handlers of the
-- exceptions.
pub mod Gates
pub mod Entries
pub mod Numbers
pub mod Vectors
pub mod Exceptions
mod Tests
use Prim.Native.String.{String}
use illinix_os.Base.{
  ℕ, zero, suc, ◌+◌, ◌-◌, ◌*◌, ◌/◌, ◌%◌, Bool, true, false, Option, List, [], ◌∷◌, ◌==◌, ltb,
  if◌then◌else◌,
}
use illinix_os.FileSystem.{Image}
use illinix_os.Page.{Layout}
use illinix_os.Process.{Kernel, Drivers}
use illinix_os.Process.Execute.{Frame, Outcome, halt}

-- The functions of interrupt_desc_table.c that handle an exception.
pub data Exception : Type 0 where
  div_by_zero_error_expt debug_expt nmi_expt breakpoint_expt : Exception
  overflow_expt br_exceed_expt invalid_op_expt dev_unavailable_expt : Exception
  double_fault_expt cop_seg_expt invalid_tss_expt seg_not_present_expt : Exception
  stack_seg_fault_expt ge_prot_fault_expt page_fault_expt float_ptr_expt : Exception
  align_expt machine_expt simd_expt virt_expt : Exception
  security_expt system_call : Exception

-- What each of them prints, with a line feed behind it.
abbrev pub message : Exception → String
message div_by_zero_error_expt = "Divide-by-zero Error Exception Occurs"
message debug_expt = "Debug Exception Occurs"
message nmi_expt = "Non-maskable Interrupt Exception Occurs"
message breakpoint_expt = "Breakpoint Exception Occurs"
message overflow_expt = "Overflow Exception Occurs"
message br_exceed_expt = "Bound Range Exceeded Exception Occurs"
message invalid_op_expt = "Invalide Opcode Exception Occurs"
message dev_unavailable_expt = "Device Not Available Exception Occurs"
message double_fault_expt = "Double Fault Exception Occurs"
message cop_seg_expt = "Coprocessor Segment Overrun Exception Occurs"
message invalid_tss_expt = "Invalid TSS Exception Occurs"
message seg_not_present_expt = "Segment Not Present Exception Occurs"
message stack_seg_fault_expt = "Stack-Segment Fault Exception Occurs"
message ge_prot_fault_expt = "General Protection Fault Exception Occurs"
message page_fault_expt = "Page Fault Exception Occurs"
message float_ptr_expt = "x87 Floating-Point Exception Occurs"
message align_expt = "Alignment Check Exception Occurs"
message machine_expt = "Machine Check Exception Occurs"
message simd_expt = "SIMD Floating-Point Exception Occurs"
message virt_expt = "Virtualization Exception Occurs"
message security_expt = "Security Exception Occurs"
message system_call = "system call coming soon..."

-- The functions that the table names.
pub data Handler : Type 0 where
  exception : Exception → Handler
  keyboard_interrupt_handler rtc_interrupt_handler pit_interrupt_handler : Handler
  mouse_interrupt_handler syscall_handler : Handler

-- `idt_desc_t`.
pub record IdtDesc : Type 0 where
  pub offset_15_00 : ℕ
  pub seg_selector : ℕ
  pub reserved4 : ℕ
  pub reserved3 : ℕ
  pub reserved2 : ℕ
  pub reserved1 : ℕ
  pub size : ℕ
  pub reserved0 : ℕ
  pub dpl : ℕ
  pub present : ℕ
  pub offset_31_16 : ℕ

-- `idt`, by the number of the vector.
abbrev pub Table : Type 0
Table = ℕ → IdtDesc

abbrev pub kernel_cs : ℕ
kernel_cs = 0x10

abbrev pub num_vec : ℕ
num_vec = 256

abbrev pub sys_call : ℕ
sys_call = 0x80

-- `idt[i] = …`
abbrev pub update : ℕ → (IdtDesc → IdtDesc) → Table → Table
update i f t j = if j == i then f (t j) else t j

-- `SET_IDT_ENTRY`, with the address of a handler.
abbrev pub set_idt_entry : ℕ → IdtDesc → IdtDesc
set_idt_entry handler d = record d {
  offset_31_16 = handler / 65536 % 65536;
  offset_15_00 = handler % 65536;
}

-- A 32-bit interrupt gate of the kernel's code segment.
abbrev pub gate : ℕ → ℕ → IdtDesc → IdtDesc
gate present dpl d = record d {
  present = present;
  dpl = dpl;
  reserved0 = 0;
  size = 1;
  reserved1 = 1;
  reserved2 = 1;
  reserved3 = 0;
  reserved4 = 0;
  seg_selector = kernel_cs;
}

-- A loop `for(i = …)` with a body that sets fields of `idt[i]`, from vector `i` on, with `left`
-- rounds to go.
pub each : (ℕ → IdtDesc → IdtDesc) → ℕ → ℕ → Table → Table
each body zero i t = t
each body (suc left) i t = each body left (i + 1) (update i (body i) t)

-- The lines `idt[i].present = 1;`.
pub mark_present : List ℕ → Table → Table
mark_present [] t = t
mark_present (i ∷ is) t = mark_present is (update i (λ d. record d { present = 1 }) t)

abbrev pub handled_exceptions : List ℕ
handled_exceptions =
    0 ∷ 1 ∷ 2 ∷ 3 ∷ 4 ∷ 5 ∷ 6 ∷ 7 ∷ 8 ∷ 9 ∷ 10 ∷ 11 ∷ 12 ∷ 13 ∷ 14 ∷ 16 ∷ 17 ∷ 18 ∷ 19 ∷ 20 ∷ 30
    ∷ []

-- The calls of `SET_IDT_ENTRY`, in their order; `address` is where the linker puts each function.
pub set_entries : (Handler → ℕ) → List (ℕ × Handler) → Table → Table
set_entries address [] t = t
set_entries address ((i, h) ∷ es) t =
    set_entries address es (update i (set_idt_entry (address h)) t)

abbrev pub exception_entries : List (ℕ × Handler)
exception_entries =
    (0, exception div_by_zero_error_expt)
    ∷ (1, exception debug_expt)
    ∷ (2, exception nmi_expt)
    ∷ (3, exception breakpoint_expt)
    ∷ (4, exception overflow_expt)
    ∷ (5, exception br_exceed_expt)
    ∷ (6, exception invalid_op_expt)
    ∷ (7, exception dev_unavailable_expt)
    ∷ (8, exception double_fault_expt)
    ∷ (9, exception cop_seg_expt)
    ∷ (10, exception invalid_tss_expt)
    ∷ (11, exception seg_not_present_expt)
    ∷ (12, exception stack_seg_fault_expt)
    ∷ (13, exception ge_prot_fault_expt)
    ∷ (14, exception page_fault_expt)
    ∷ (16, exception float_ptr_expt)
    ∷ (17, exception align_expt)
    ∷ (18, exception machine_expt)
    ∷ (19, exception simd_expt)
    ∷ (20, exception virt_expt)
    ∷ (30, exception security_expt)
    ∷ []

abbrev pub interrupt_entries : List (ℕ × Handler)
interrupt_entries =
    (33, keyboard_interrupt_handler)
    ∷ (40, rtc_interrupt_handler)
    ∷ (32, pit_interrupt_handler)
    ∷ (44, mouse_interrupt_handler)
    ∷ (sys_call, syscall_handler)
    ∷ []

-- The present bit and the privilege of vector `i` in the loop over the interrupts.
abbrev pub interrupt_present : ℕ → ℕ
interrupt_present i = if i == sys_call then 1 else if ltb i (32 + 8 * 2) then 1 else 0

abbrev pub interrupt_dpl : ℕ → ℕ
interrupt_dpl i = if i == sys_call then 3 else 0

-- `idt_init`, up to `lidt`.
unfoldable pub idt_init : (Handler → ℕ) → Table → Table
unfolding each mark_present set_entries
idt_init address t =
    let gates = each (λ i. gate 0 0) 32 0 t in
    let exceptions =
      set_entries address exception_entries (mark_present handled_exceptions gates) in
    set_entries address interrupt_entries
      (each (λ i. gate (interrupt_present i) (interrupt_dpl i)) (num_vec - 32) 32 exceptions)

-- A handler of an exception: what it prints, and how `halt` ends.
unfoldable pub handle_exception :
    {W : Type 0}
    → Layout
    → Image
    → Frame
    → Drivers W
    → Exception
    → Kernel W
    → String × Option (Outcome × Kernel W)
handle_exception at img frame drivers e k =
    (message e, halt at img frame drivers 0 (record k { exception_flag = 1 }))
