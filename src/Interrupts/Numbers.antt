-- ===== src/Interrupts/Numbers.antt =====
-- interrupt_desc_table.c: which function each vector is for, and the table of the code against it.
use illinix_os.Base.{
  ℕ, ◌<◌, ◌≡◌, refl, Bool, true, false, ◌||◌, ◌&&◌, not, Option, none, some, ◌++◌, arith, ◌==◌, leb,
  all_below, all_below_sound,
}
use illinix_os.Interrupts.{
  align_expt, br_exceed_expt, breakpoint_expt, cop_seg_expt, debug_expt, dev_unavailable_expt,
  div_by_zero_error_expt, double_fault_expt, float_ptr_expt, ge_prot_fault_expt, invalid_op_expt,
  invalid_tss_expt, keyboard_interrupt_handler, machine_expt, mouse_interrupt_handler, nmi_expt,
  overflow_expt, page_fault_expt, pit_interrupt_handler, rtc_interrupt_handler, security_expt,
  seg_not_present_expt, simd_expt, stack_seg_fault_expt, syscall_handler, virt_expt, exception,
  Handler, exception_entries, interrupt_entries,
}
use illinix_os.Interrupts.Gates.{assigned}
use illinix_os.Interrupts.Entries.{is_marked}

-- The function that a vector is for, in the numbering of the i386 and of the interrupt controllers.
pub data IsHandlerOf : ℕ → Handler → Type 0 where
  at_0 : IsHandlerOf 0 (exception div_by_zero_error_expt)
  at_1 : IsHandlerOf 1 (exception debug_expt)
  at_2 : IsHandlerOf 2 (exception nmi_expt)
  at_3 : IsHandlerOf 3 (exception breakpoint_expt)
  at_4 : IsHandlerOf 4 (exception overflow_expt)
  at_5 : IsHandlerOf 5 (exception br_exceed_expt)
  at_6 : IsHandlerOf 6 (exception invalid_op_expt)
  at_7 : IsHandlerOf 7 (exception dev_unavailable_expt)
  at_8 : IsHandlerOf 8 (exception double_fault_expt)
  at_9 : IsHandlerOf 9 (exception cop_seg_expt)
  at_10 : IsHandlerOf 10 (exception invalid_tss_expt)
  at_11 : IsHandlerOf 11 (exception seg_not_present_expt)
  at_12 : IsHandlerOf 12 (exception stack_seg_fault_expt)
  at_13 : IsHandlerOf 13 (exception ge_prot_fault_expt)
  at_14 : IsHandlerOf 14 (exception page_fault_expt)
  at_16 : IsHandlerOf 16 (exception float_ptr_expt)
  at_17 : IsHandlerOf 17 (exception align_expt)
  at_18 : IsHandlerOf 18 (exception machine_expt)
  at_19 : IsHandlerOf 19 (exception simd_expt)
  at_20 : IsHandlerOf 20 (exception virt_expt)
  at_30 : IsHandlerOf 30 (exception security_expt)
  at_32 : IsHandlerOf 32 pit_interrupt_handler
  at_33 : IsHandlerOf 33 keyboard_interrupt_handler
  at_40 : IsHandlerOf 40 rtc_interrupt_handler
  at_44 : IsHandlerOf 44 mouse_interrupt_handler
  at_128 : IsHandlerOf 128 syscall_handler

-- The vectors that have one.
abbrev pub has_handler : ℕ → Bool
has_handler j =
    leb j 14
    || ((leb 16 j && leb j 20)
        || (j == 30 || (j == 32 || (j == 33 || (j == 40 || (j == 44 || j == 128))))))

-- The vectors that are to be present.
abbrev pub is_present : ℕ → Bool
is_present j =
    leb j 14 || ((leb 16 j && leb j 20) || (j == 30 || ((leb 32 j && leb j 47) || j == 128)))

pub IsHandlerOf-assigned :
    (j : ℕ) (h : Handler)
    → IsHandlerOf j h
    → assigned j (exception_entries ++ interrupt_entries) ≡ some h
unfolding assigned
IsHandlerOf-assigned j h at_0 = refl
IsHandlerOf-assigned j h at_1 = refl
IsHandlerOf-assigned j h at_2 = refl
IsHandlerOf-assigned j h at_3 = refl
IsHandlerOf-assigned j h at_4 = refl
IsHandlerOf-assigned j h at_5 = refl
IsHandlerOf-assigned j h at_6 = refl
IsHandlerOf-assigned j h at_7 = refl
IsHandlerOf-assigned j h at_8 = refl
IsHandlerOf-assigned j h at_9 = refl
IsHandlerOf-assigned j h at_10 = refl
IsHandlerOf-assigned j h at_11 = refl
IsHandlerOf-assigned j h at_12 = refl
IsHandlerOf-assigned j h at_13 = refl
IsHandlerOf-assigned j h at_14 = refl
IsHandlerOf-assigned j h at_16 = refl
IsHandlerOf-assigned j h at_17 = refl
IsHandlerOf-assigned j h at_18 = refl
IsHandlerOf-assigned j h at_19 = refl
IsHandlerOf-assigned j h at_20 = refl
IsHandlerOf-assigned j h at_30 = refl
IsHandlerOf-assigned j h at_32 = refl
IsHandlerOf-assigned j h at_33 = refl
IsHandlerOf-assigned j h at_40 = refl
IsHandlerOf-assigned j h at_44 = refl
IsHandlerOf-assigned j h at_128 = refl

abbrev is_none : Option Handler → Bool
is_none none = true
is_none (some h) = false

-- The vectors of the table against those of the code, one by one.
unassigned_table :
    all_below 256
      (λ j. has_handler j || is_none (assigned j (exception_entries ++ interrupt_entries)))
    ≡ true
unfolding all_below assigned
unassigned_table = refl

pub unassigned :
    (j : ℕ)
    → j < 256
    → has_handler j ≡ false
    → assigned j (exception_entries ++ interrupt_entries) ≡ none
unassigned j low free =
    take (has_handler j) (assigned j (exception_entries ++ interrupt_entries)) free (
      all_below_sound 256
        (λ j. has_handler j || is_none (assigned j (exception_entries ++ interrupt_entries))) j
        unassigned_table low)
  where
    take : (b : Bool) (o : Option Handler) → b ≡ false → (b || is_none o) ≡ true → o ≡ none
    take false none e h = refl
    take false (some g) e h = absurd (ground arith)
    take true o e h = absurd (ground arith)

abbrev same : Bool → Bool → Bool
same a b = (a && b) || (not a && not b)

present_table : all_below 256 (λ j. same (is_marked j) (is_present j)) ≡ true
unfolding all_below
present_table = refl

pub marked-present : (j : ℕ) → j < 256 → is_marked j ≡ is_present j
marked-present j low =
    agree (is_marked j) (is_present j)
      (all_below_sound 256 (λ j. same (is_marked j) (is_present j)) j present_table low)
  where
    agree : (a b : Bool) → same a b ≡ true → a ≡ b
    agree true true h = refl
    agree false false h = refl
    agree true false h = absurd (ground arith)
    agree false true h = absurd (ground arith)
