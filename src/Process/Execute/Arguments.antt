-- ===== src/Process/Execute/Arguments.antt =====
-- system_call_handler.c: `getargs` against the argument of the process.
use illinix_os.Base.{
  ℕ, ◌<◌, ◌≤◌, ◌≡◌, refl, inl, inr, true, some, List, [], ◌∷◌, ◌++◌, if◌then◌else◌, get_elem?,
  length, drop, ==_ne, ltb, Bool-cases,
}
use illinix_os.Libc.Lengths.{HasNoNul, strlen-append}
use illinix_os.Libc.Copies.{overlay, padded, strcpy_lem, strncpy_lem}
use illinix_os.Process.{Pcb, Kernel, current}
use illinix_os.Process.Execute.{getargs}

-- What `getargs` leaves in the buffer: a longer argument is copied whole, with its NUL, whatever
-- `nbytes` says; any other comes with NULs up to `nbytes`.
abbrev pub delivered : List ℕ → List ℕ → ℕ → List ℕ
delivered buf s nbytes =
    if ltb nbytes (length s) then overlay (s ++ 0 ∷ []) buf else padded s nbytes ++ drop nbytes buf

-- `getargs` of a process that was given the argument `c ∷ s`, with a buffer that has room for the
-- argument with its NUL and for `nbytes` bytes: it returns 0 and leaves in the buffer what
-- `delivered` says.
pub getargs_lem :
    {W : Type 0} (buf : List ℕ) (nbytes : ℕ) (k : Kernel W) (p c : ℕ) (s rest : List ℕ) (pcb : Pcb)
    → current k ≡ some p
    → get_elem? k.pcbs p ≡ some pcb
    → pcb.arg ≡ (c ∷ s) ++ 0 ∷ rest
    → HasNoNul (c ∷ s)
    → length (c ∷ s) < length buf
    → nbytes ≤ length buf
    → getargs buf nbytes k ≡ some (0, delivered buf (c ∷ s) nbytes, record k { interrupts = true })
unfolding getargs
getargs_lem buf nbytes k p c s rest pcb here block e text room fits =
    elim (Bool-cases (ltb nbytes (length (c ∷ s)))) [
      | inl less ↦
          rw
            (
              here,
              block,
              e,
              ==_ne c 0 text.0,
              strlen-append (c ∷ s) rest text,
              less,
              strcpy_lem buf (c ∷ s) rest text room,
            )
            refl
      | inr other ↦
          rw
            (
              here,
              block,
              e,
              ==_ne c 0 text.0,
              strlen-append (c ∷ s) rest text,
              other,
              strncpy_lem buf (c ∷ s) rest nbytes text fits,
            )
            refl
    ]
