-- ===== src/Interrupts/Gates.antt =====
-- interrupt_desc_table.c: what `idt_init` leaves in each vector.
use illinix_os.Base.{
  ℕ, zero, suc, ◌+◌, ◌*◌, ◌<◌, ◌≤◌, ◌≡◌, refl, ◌≢◌, ◌∙◌, ap, sym, Bool, true, false, ◌||◌, Option,
  none, some, List, [], ◌∷◌, arith, ◌==◌, if◌then◌else◌, ℕ_discrete, ==_iff, ==_ne,
}
use illinix_os.Interrupts.{
  Handler, IdtDesc, Table, kernel_cs, update, set_idt_entry, each, mark_present, set_entries,
}

-- The address that the processor takes from a descriptor.
abbrev pub offset : IdtDesc → ℕ
offset d = d.offset_31_16 * 65536 + d.offset_15_00

-- A gate that enters the kernel's code segment with the interrupts off: a present bit, a privilege,
-- and the type 0b01110.
pub record IsGate (present dpl : ℕ) (d : IdtDesc) : Type 0 where
  pub presence : d.present ≡ present
  pub privilege : d.dpl ≡ dpl
  pub segment : d.seg_selector ≡ kernel_cs
  pub type :
      (d.reserved0 ≡ 0) × (d.size ≡ 1) × (d.reserved1 ≡ 1) × (d.reserved2 ≡ 1) × (d.reserved3 ≡ 0)

-- The last handler that a list of entries gives to a vector.
unfoldable pub assigned : ℕ → List (ℕ × Handler) → Option Handler
assigned j [] = none
assigned j ((i, h) ∷ es) = elim (assigned j es) [
  | some h' ↦ some h'
  | none ↦ if j == i then some h else none
]

update_self : (i j : ℕ) (f : IdtDesc → IdtDesc) (t : Table) → j ≡ i → update i f t j ≡ f (t j)
update_self i j f t e = rw ((==_iff j i).1 e) refl

update_ne : (i j : ℕ) (f : IdtDesc → IdtDesc) (t : Table) → j ≢ i → update i f t j ≡ t j
update_ne i j f t ne = rw (==_ne j i ne) refl

-- A loop reaches each of its vectors once, and no other.
pub each-below :
    (body : ℕ → IdtDesc → IdtDesc) (left i j : ℕ) (t : Table) → j < i → each body left i t j ≡ t j
unfolding each
each-below body zero i j t low = refl
each-below body (suc left) i j t low =
    each-below body left (i + 1) j (update i (body i) t) (omega arith)
    ∙ update_ne i j (body i) t (λ e. omega arith)

pub each-in :
    (body : ℕ → IdtDesc → IdtDesc) (left i j : ℕ) (t : Table)
    → i ≤ j
    → j < i + left
    → each body left i t j ≡ body j (t j)
unfolding each
each-in body zero i j t low high = absurd (omega arith)
each-in body (suc left) i j t low high = elim (ℕ_discrete j i) [
  | yes e ↦
      each-below body left (i + 1) j (update i (body i) t) (omega arith)
      ∙ update_self i j (body i) t e
      ∙ ap (λ n. body n (t j)) (sym e)
  | no ne ↦
      each-in body left (i + 1) j (update i (body i) t) (omega arith) (omega arith)
      ∙ ap (body j) (update_ne i j (body i) t ne)
]

pub each-above :
    (body : ℕ → IdtDesc → IdtDesc) (left i j : ℕ) (t : Table)
    → i + left ≤ j
    → each body left i t j ≡ t j
unfolding each
each-above body zero i j t high = refl
each-above body (suc left) i j t high =
    each-above body left (i + 1) j (update i (body i) t) (omega arith)
    ∙ update_ne i j (body i) t (λ e. omega arith)

-- The descriptor with the address of its handler, if it has one.
abbrev pub placed : (Handler → ℕ) → Option Handler → IdtDesc → IdtDesc
placed address none d = d
placed address (some h) d = set_idt_entry (address h) d

pub set_entries_lem :
    (address : Handler → ℕ) (es : List (ℕ × Handler)) (t : Table) (j : ℕ)
    → set_entries address es t j ≡ placed address (assigned j es) (t j)
unfolding set_entries assigned
set_entries_lem address [] t j = refl
set_entries_lem address ((i, h) ∷ es) t j =
    set_entries_lem address es (update i (set_idt_entry (address h)) t) j ∙ last (assigned j es)
  where
    last :
        (o : Option Handler)
        → placed address o (update i (set_idt_entry (address h)) t j)
          ≡ placed address
              (elim o [ some h' ↦ some h' | none ↦ if j == i then some h else none ])
              (t j)
    last none = elim (ℕ_discrete j i) [
      | yes e ↦ rw ((==_iff j i).1 e) refl
      | no ne ↦ rw (==_ne j i ne) refl
    ]
    last (some h') = elim (ℕ_discrete j i) [
      | yes e ↦ rw ((==_iff j i).1 e) refl
      | no ne ↦ rw (==_ne j i ne) refl
    ]

abbrev pub member : ℕ → List ℕ → Bool
member j [] = false
member j (i ∷ is) = j == i || member j is

pub mark_present_lem :
    (is : List ℕ) (t : Table) (j : ℕ)
    → mark_present is t j ≡ (if member j is then record (t j) { present = 1 } else t j)
unfolding mark_present
mark_present_lem [] t j = refl
mark_present_lem (i ∷ is) t j =
    mark_present_lem is (update i (λ d. record d { present = 1 }) t) j ∙ marked (member j is)
  where
    marked :
        (b : Bool)
        → (let d = update i (λ d. record d { present = 1 }) t j in
            if b then record d { present = 1 } else d)
          ≡ (if j == i || b then record (t j) { present = 1 } else t j)
    marked b = elim (ℕ_discrete j i) [
      | yes e ↦ rw ((==_iff j i).1 e) (twice b)
      | no ne ↦ rw (==_ne j i ne) refl
    ]
      where
        twice :
            (b : Bool)
            → (if b then record (t j) { present = 1 } else record (t j) { present = 1 })
              ≡ record (t j) { present = 1 }
        twice true = refl
        twice false = refl
