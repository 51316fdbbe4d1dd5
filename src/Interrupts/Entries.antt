-- ===== src/Interrupts/Entries.antt =====
-- interrupt_desc_table.c: which vectors are to be present, and what a descriptor keeps when its gate or
-- its handler is set.
use mathlib.Core.Option.{some-injective, none-ne-some}
use illinix_os.Base.{
  ℕ, ◌^◌, ◌<◌, ◌≤◌, ◌≡◌, refl, ◌∙◌, ap, sym, Bool, true, false, ◌||◌, ◌&&◌, Option, none, some,
  List, [], ◌∷◌, ◌++◌, arith, ◌==◌, ltb, leb, if◌then◌else◌, ==_ne, lt→leb_false, le→leb,
}
use illinix_os.Interrupts.{
  Handler, IdtDesc, sys_call, set_idt_entry, gate, handled_exceptions, interrupt_present,
  interrupt_dpl,
}
use illinix_os.Interrupts.Gates.{offset, IsGate, assigned, placed, member}

-- The vectors that the code marks.
abbrev pub is_marked : ℕ → Bool
is_marked j = member j handled_exceptions || ((leb 32 j && ltb j 48) || j == sys_call)

pub placed-IsGate :
    (address : Handler → ℕ) (o : Option Handler) (p l : ℕ) (d : IdtDesc)
    → IsGate p l d
    → IsGate p l (placed address o d)
placed-IsGate address none p l d g = g
placed-IsGate address (some h) p l d g = record {
  presence = g.presence;
  privilege = g.privilege;
  segment = g.segment;
  type = g.type;
}

pub offset-placed :
    (address : Handler → ℕ) (o : Option Handler) (d d' : IdtDesc)
    → offset d ≡ offset d'
    → offset (placed address o d) ≡ offset (placed address o d')
offset-placed address none d d' e = e
offset-placed address (some h) d d' e = refl

pub gate-IsGate : (p l : ℕ) (d : IdtDesc) → IsGate p l (gate p l d)
gate-IsGate p l d = record {
  presence = refl;
  privilege = refl;
  segment = refl;
  type = (refl, refl, refl, refl, refl);
}

pub marked-IsGate :
    (b : Bool) (d : IdtDesc)
    → IsGate (if b then 1 else 0) 0 (if b then record (gate 0 0 d) { present = 1 } else gate 0 0 d)
marked-IsGate true d = record {
  presence = refl;
  privilege = refl;
  segment = refl;
  type = (refl, refl, refl, refl, refl);
}
marked-IsGate false d = gate-IsGate 0 0 d

pub marked-offset :
    (b : Bool) (d : IdtDesc)
    → offset (if b then record (gate 0 0 d) { present = 1 } else gate 0 0 d) ≡ offset d
marked-offset true d = refl
marked-offset false d = refl

-- A list of numbers below a bound.
abbrev below : ℕ → List ℕ → Bool
below bound [] = true
below bound (i ∷ is) = ltb i bound && below bound is

pub member-above :
    (bound j : ℕ) (is : List ℕ) → below bound is ≡ true → bound ≤ j → member j is ≡ false
member-above bound j [] all high = refl
member-above bound j (i ∷ is) all high = ground (arith, member-above bound j is)

pub low_vector :
    (j : ℕ)
    → j < 32
    → ◌≡◌ {A = ℕ} (if member j handled_exceptions then 1 else 0) (if is_marked j then 1 else 0)
      × ◌≡◌ {A = ℕ} 0 (if j == sys_call then 3 else 0)
low_vector j low =
    let under = lt→leb_false 32 j low in
    let other = ==_ne j sys_call (λ e. omega arith) in
    rw (under, other) (or_false (member j handled_exceptions), refl)
  where
    or_false : (b : Bool) → ◌≡◌ {A = ℕ} (if b then 1 else 0) (if b || false then 1 else 0)
    or_false true = refl
    or_false false = refl

pub high_vector :
    (j : ℕ)
    → 32 ≤ j
    → (interrupt_present j ≡ (if is_marked j then 1 else 0))
      × (interrupt_dpl j ≡ (if j == sys_call then 3 else 0))
high_vector j high =
    let absent = member-above 32 j handled_exceptions refl high in
    rw (absent, le→leb 32 j high) (bits j, refl)
  where
    bits : (j : ℕ) → interrupt_present j ≡ (if (ltb j 48) || (j == sys_call) then 1 else 0)
    bits j = ground arith

abbrev pub body : ℕ → IdtDesc → IdtDesc
body i = gate (interrupt_present i) (interrupt_dpl i)

-- The later of two.
abbrev pub later : Option Handler → Option Handler → Option Handler
later (some h) first = some h
later none first = first

later-none : (o : Option Handler) → later o none ≡ o
later-none none = refl
later-none (some h) = refl

later-step :
    (b : Bool) (h : Handler) (o o' : Option Handler)
    → (elim (later o o') [ some g ↦ some g | none ↦ if b then some h else none ])
      ≡ later o (elim o' [ some g ↦ some g | none ↦ if b then some h else none ])
later-step b h none none = refl
later-step b h none (some g) = refl
later-step b h (some g) o' = refl

pub assigned-append :
    (j : ℕ) (xs ys : List (ℕ × Handler))
    → assigned j (xs ++ ys) ≡ later (assigned j ys) (assigned j xs)
unfolding assigned
assigned-append j [] ys = sym (later-none (assigned j ys))
assigned-append j ((i, h) ∷ xs) ys =
    ap (λ o. elim o [ some g ↦ some g | none ↦ if j == i then some h else none ])
      (assigned-append j xs ys)
    ∙ later-step (j == i) h (assigned j ys) (assigned j xs)

offset-entry :
    (address : Handler → ℕ) (h : Handler) (d : IdtDesc)
    → address h < 2 ^ 32
    → offset (set_idt_entry (address h) d) ≡ address h
offset-entry address h d small = omega arith

pub offset-later :
    (address : Handler → ℕ) (o o' : Option Handler) (d d' : IdtDesc)
    → ((h : Handler) → address h < 2 ^ 32)
    → offset d ≡ offset (placed address o' d')
    → ((h : Handler) → later o o' ≡ some h → offset (placed address o d) ≡ address h)
      × (later o o' ≡ none → offset (placed address o d) ≡ offset d')
offset-later address (some g) o' d d' small e = (
  λ h same. offset-entry address g d (small g) ∙ ap address (some-injective _ _ same),
  λ same. absurd (none-ne-some _ (sym same)),
)
offset-later address none (some g) d d' small e = (
  λ h same. e ∙ offset-entry address g d' (small g) ∙ ap address (some-injective _ _ same),
  λ same. absurd (none-ne-some _ (sym same)),
)
offset-later address none none d d' small e = (λ h same. absurd (none-ne-some _ same), λ same. e)
