-- ===== src/Interrupts/Vectors.antt =====
-- interrupt_desc_table.c: the vectors that the processor finds present, their privilege and their
-- handlers.
use illinix_os.Base.{
  ℕ, ◌^◌, ◌<◌, ◌≡◌, refl, ◌∙◌, ap, sym, subst, subst₂, Bool, true, false, ◌||◌, ◌&&◌, none, some,
  ◌++◌, arith, ◌==◌, leb, if◌then◌else◌, dec_lt,
}
use illinix_os.Interrupts.{
  Handler, IdtDesc, Table, sys_call, gate, each, mark_present, handled_exceptions, set_entries,
  exception_entries, interrupt_entries, idt_init,
}
use illinix_os.Interrupts.Gates.{
  offset, IsGate, assigned, placed, member, each-below, each-in, each-above, set_entries_lem,
  mark_present_lem,
}
use illinix_os.Interrupts.Entries.{
  is_marked, placed-IsGate, offset-placed, gate-IsGate, marked-IsGate, marked-offset, member-above,
  low_vector, high_vector, body, assigned-append, offset-later,
}
use illinix_os.Interrupts.Numbers.{
  IsHandlerOf, has_handler, is_present, IsHandlerOf-assigned, unassigned, marked-present,
}

module _ (address : Handler → ℕ) (t : Table) where
  abbrev exceptions : Table
  exceptions =
      set_entries address exception_entries
        (mark_present handled_exceptions (each (λ i. gate 0 0) 32 0 t))

  idt_init-loops :
      (j : ℕ)
      → idt_init address t j
        ≡ placed address (assigned j interrupt_entries) (each body 224 32 exceptions j)
  unfolding idt_init
  idt_init-loops j = set_entries_lem address interrupt_entries (each body 224 32 exceptions) j

  exceptions_lem :
      (j : ℕ)
      → exceptions j
        ≡ placed address (assigned j exception_entries) (
            let d = each (λ i. gate 0 0) 32 0 t j in
            if member j handled_exceptions then record d { present = 1 } else d)
  exceptions_lem j =
      set_entries_lem address exception_entries
        (mark_present handled_exceptions (each (λ i. gate 0 0) 32 0 t)) j
      ∙ ap (placed address (assigned j exception_entries))
          (mark_present_lem handled_exceptions (each (λ i. gate 0 0) 32 0 t) j)

  -- The descriptor of a vector, from what stood there before.
  idt_init-entry :
      (j : ℕ)
      → j < 256
      → (d : IdtDesc) × (idt_init address t j ≡ placed address (assigned j interrupt_entries) d)
        × (IsGate (if is_marked j then 1 else 0) (if j == sys_call then 3 else 0) d)
        × (offset d ≡ offset (placed address (assigned j exception_entries) (t j)))
  idt_init-entry j low = elim (dec_lt j 32) [
    | yes exc ↦
        let first = each-in (λ i. gate 0 0) 32 0 j t (omega arith) (omega arith) in
        let b = member j handled_exceptions in
        let d = if b then record (gate 0 0 (t j)) { present = 1 } else gate 0 0 (t j) in
        let (presence, privilege) = low_vector j exc in
        (
          placed address (assigned j exception_entries) d,
          idt_init-loops j
              ∙ ap (placed address (assigned j interrupt_entries)) (
                  each-below body 224 32 j exceptions exc
                  ∙ exceptions_lem j
                  ∙ ap
                      (λ c.
                        placed address (assigned j exception_entries)
                          (if b then record c { present = 1 } else c))
                      first),
          placed-IsGate address (assigned j exception_entries) _ _ d
              (subst₂ (λ p l. IsGate p l d) presence privilege (marked-IsGate b (t j))),
          offset-placed address (assigned j exception_entries) d (t j) (marked-offset b (t j)),
        )
    | no int ↦
        let first = each-above (λ i. gate 0 0) 32 0 j t (omega arith) in
        let (presence, privilege) = high_vector j (omega arith) in
        let absent = member-above 32 j handled_exceptions refl (omega arith) in
        (
          body j (exceptions j),
          idt_init-loops j
              ∙ ap (placed address (assigned j interrupt_entries))
                  (each-in body 224 32 j exceptions (omega arith) (omega arith)),
          subst₂ (λ p l. IsGate p l (body j (exceptions j))) presence privilege
              (gate-IsGate _ _ (exceptions j)),
          ap offset (exceptions_lem j)
              ∙ ap
                  (λ b.
                    let d = each (λ i. gate 0 0) 32 0 t j in
                    offset (
                      placed address (assigned j exception_entries)
                        (if b then record d { present = 1 } else d)))
                  absent
              ∙ ap (λ d. offset (placed address (assigned j exception_entries) d)) first,
        )
  ]

  -- The gates. After `idt_init` each of the 256 vectors is a 32-bit interrupt gate into the kernel's
  -- code segment, whatever was in the table before. The vectors that are present are the exceptions 0
  -- to 14, 16 to 20 and 30, the lines 32 to 47 of the interrupt controllers and the system call 0x80;
  -- a user program may call 0x80 only.
  pub idt_init-IsGate :
      (j : ℕ)
      → j < 256
      → IsGate (if is_present j then 1 else 0) (if j == 128 then 3 else 0) (idt_init address t j)
  idt_init-IsGate j low =
      let (d, e, gate, same) = idt_init-entry j low in
      subst (λ b. IsGate (if b then 1 else 0) (if j == 128 then 3 else 0) (idt_init address t j))
        (marked-present j low)
        (subst (IsGate _ _) (sym e)
          (placed-IsGate address (assigned j interrupt_entries) _ _ d gate))

  named-handler :
      (j : ℕ)
      → j < 256
      → ((h : Handler) → address h < 2 ^ 32)
      → ((h : Handler)
          → assigned j (exception_entries ++ interrupt_entries) ≡ some h
          → offset (idt_init address t j) ≡ address h)
        × (assigned j (exception_entries ++ interrupt_entries) ≡ none
            → offset (idt_init address t j) ≡ offset (t j))
  named-handler j low small =
      let (d, e, gate, same) = idt_init-entry j low in
      let split = assigned-append j exception_entries interrupt_entries in
      let (named, kept) =
        offset-later address (assigned j interrupt_entries) (assigned j exception_entries) d (t j)
          small same in
      (λ h is. ap offset e ∙ named h (sym split ∙ is), λ is. ap offset e ∙ kept (sym split ∙ is))

  -- The handlers. If the addresses of the functions have 32 bits, the address that the processor takes
  -- from a vector after `idt_init` is that of the function for this exception, in the numbering of the
  -- i386, for the timer at 32, the keyboard at 33, the clock at 40, the mouse at 44 and the system call
  -- at 0x80; each other vector keeps the address that it had.
  pub idt_init-handler :
      (j : ℕ)
      → j < 256
      → ((h : Handler) → address h < 2 ^ 32)
      → ((h : Handler) → IsHandlerOf j h → offset (idt_init address t j) ≡ address h)
        × (has_handler j ≡ false → offset (idt_init address t j) ≡ offset (t j))
  idt_init-handler j low small = (
    λ h is. (named-handler j low small).0 h (IsHandlerOf-assigned j h is),
    λ free. (named-handler j low small).1 (unassigned j low free),
  )

-- The lines of the interrupt controllers without a handler.
abbrev pub is_vacant : ℕ → Bool
is_vacant j = leb 34 j && leb j 39 || (leb 41 j && leb j 43 || leb 45 j && leb j 47)

-- The vectors 34 to 39, 41 to 43 and 45 to 47, where no handler is put, are marked present: their
-- gates enter the kernel at the address that the table held before `idt_init`.
pub idt_init-vacant :
    (address : Handler → ℕ) (t : Table) (j : ℕ)
    → j < 256
    → ((h : Handler) → address h < 2 ^ 32)
    → is_vacant j ≡ true
    → ((idt_init address t j).present ≡ 1) × (offset (idt_init address t j) ≡ offset (t j))
idt_init-vacant address t j low small vacant =
    let there : is_present j ≡ true = ground arith in
    let free : has_handler j ≡ false = ground arith in
    (
      (idt_init-IsGate address t j low).presence ∙ ap (λ b. if b then 1 else 0) there,
      (idt_init-handler address t j low small).1 free,
    )
