-- ===== src/Process/Closing.antt =====
-- system_call_handler.c: `close` on the table of the running process, and after `open`.
use illinix_os.Base.{
  ℕ, zero, suc, ◌≤◌, ◌<◌, ◌≡◌, refl, ◌≢◌, ◌⊎◌, inl, inr, ◌∙◌, ap, sym, some, List, [], ◌∷◌, arith,
  get_elem?, set, length, get_elem?-set_self, get_elem?-lt, set-set, set-same, ℕ_discrete, ==_iff,
  ==_ne, ltb, negative, minus_one, true, false, ◌||◌, dec_lt, lt→ltb, le→ltb_false,
}
use mathlib.Core.Option.{some-injective}
use illinix_os.Descriptor.{FileDescriptor}
use illinix_os.FileSystem.{Image, Dentry, read_dentry_by_name}
use illinix_os.Process.{
  Pcb, Kernel, Drivers, opened, cleared, cli, put_table, call_open, sys_open, sys_close,
}
use illinix_os.Process.Table.{IsTable, IsTable-set, cleared-HasDriver, opened-flags}
use illinix_os.Process.Calls.{IsRunning, taken, no_descriptor, sys_open_lem}

-- The descriptors that `close` does not close.
abbrev pub Refused : ℕ → List FileDescriptor → Type 0
Refused fd fds =
    (fd < 2) ⊎ ((8 ≤ fd) ⊎ ((f : FileDescriptor) × (get_elem? fds fd ≡ some f) × (f.flags ≡ 0)))

-- A descriptor of the table is there.
pub descriptor :
    (fds : List FileDescriptor) (fd : ℕ)
    → fd < length fds
    → (f : FileDescriptor) × (get_elem? fds fd ≡ some f)
descriptor [] fd h = absurd (omega arith)
descriptor (f ∷ fds) zero h = (f, refl)
descriptor (f ∷ fds) (suc fd) h = descriptor fds fd (omega arith)

pub out_of_range : (fd : ℕ) → 8 ≤ fd → (negative fd || ltb 7 fd) ≡ true
out_of_range fd h = ground arith

pub in_range : (fd : ℕ) → fd < 8 → (negative fd || ltb 7 fd) ≡ false
in_range fd h = ground arith

module _ {W : Type 0} where
  -- `close` of a descriptor of the running process, whose block is whole: those of the terminal,
  -- numbers out of range and descriptors not in use are refused with -1 and nothing changes; any
  -- other is cleared, the others stay, and the block stays whole.
  pub sys_close_lem :
      (fd : ℕ) (k : Kernel W) (p : ℕ) (pcb : Pcb)
      → IsRunning k p pcb
      → (Refused fd pcb.file_descriptor_tabele × (sys_close fd k ≡ some (minus_one, k)))
        ⊎ ((2 ≤ fd)
            × (fd < 8)
            × ((f : FileDescriptor) × (get_elem? pcb.file_descriptor_tabele fd ≡ some f)
                × (f.flags ≢ 0))
            × (sys_close fd k
                ≡ some (0, put_table p pcb (set pcb.file_descriptor_tabele fd cleared) k))
            × IsTable (set pcb.file_descriptor_tabele fd cleared))
  unfolding sys_close
  sys_close_lem fd k p pcb r = elim (dec_lt fd 8) [
    | no high ↦ inl (inr (inl (omega arith)), rw (out_of_range fd (omega arith)) refl)
    | yes low ↦
        let (f, e) = descriptor pcb.file_descriptor_tabele fd (omega (arith, r.table.eight)) in
        elim (dec_lt fd 2) [
          | yes console ↦
              inl (inl console, rw (in_range fd low, r.here, r.block, e, lt→ltb fd 2 console) refl)
          | no other ↦ elim (ℕ_discrete f.flags 0) [
            | yes free ↦ inl (
              inr (inr (f, e, free)),
              rw
                  (
                    in_range fd low,
                    r.here,
                    r.block,
                    e,
                    le→ltb_false fd 2 (omega arith),
                    (==_iff f.flags 0).1 free,
                  )
                  refl,
            )
            | no used ↦ inr (
              omega arith,
              low,
              (f, e, used),
              rw
                  (
                    in_range fd low,
                    r.here,
                    r.block,
                    e,
                    le→ltb_false fd 2 (omega arith),
                    ==_ne f.flags 0 used,
                  )
                  refl,
              IsTable-set _ fd cleared r.table (omega arith) cleared-HasDriver (λ free. refl),
            )
          ]
        ]
  ]

module _ {W : Type 0} where
  -- The block of a process that has taken descriptor `fd`, cleared again.
  clear_again :
      (k : Kernel W) (p fd : ℕ) (pcb : Pcb) (f : FileDescriptor)
      → get_elem? k.pcbs p ≡ some pcb
      → get_elem? pcb.file_descriptor_tabele fd ≡ some cleared
      → set
          (set k.pcbs p
            (record pcb { file_descriptor_tabele = set pcb.file_descriptor_tabele fd f }))
          p
          (record pcb {
            file_descriptor_tabele = set (set pcb.file_descriptor_tabele fd f) fd cleared;
          })
        ≡ k.pcbs
  clear_again k p fd pcb f here free =
      let table =
        set-set pcb.file_descriptor_tabele fd f cleared
        ∙ set-same pcb.file_descriptor_tabele fd free in
      set-set k.pcbs p _ _
      ∙ ap (λ fds. set k.pcbs p (record pcb { file_descriptor_tabele = fds })) table
      ∙ set-same k.pcbs p here

  -- The descriptor that `open` has filled in can be closed, and everything is as it was before, but
  -- for the driver and the interrupt flag.
  close_taken :
      (k : Kernel W) (p fd : ℕ) (pcb : Pcb) (f : FileDescriptor) (w : W)
      → IsRunning k p pcb
      → 2 ≤ fd
      → fd < 8
      → f.flags ≡ 1
      → get_elem? pcb.file_descriptor_tabele fd ≡ some cleared
      → sys_close fd
          (record (put_table p pcb (set pcb.file_descriptor_tabele fd f) (cli k)) { world = w })
        ≡ some (0, record (cli k) { world = w })
  unfolding sys_close
  close_taken k p fd pcb f w r high low used free =
      let there =
        get_elem?-set_self k.pcbs p
          (record pcb { file_descriptor_tabele = set pcb.file_descriptor_tabele fd f })
          (get_elem?-lt k.pcbs p r.block) in
      let back =
        get_elem?-set_self pcb.file_descriptor_tabele fd f (omega (arith, r.table.eight)) in
      rw
        (
          in_range fd low,
          r.here,
          there,
          back,
          le→ltb_false fd 2 high,
          ==_ne f.flags 0 (omega arith),
        )
        (ap (λ ps. some (0, record (cli k) { pcbs = ps; world = w }))
          (clear_again k p fd pcb f r.block free))

  -- What `open` has opened, `close` closes: if `open` on a whole block has returned a number other
  -- than -1, `close` of that number returns 0, and the state is that before `open`, but for what the
  -- driver keeps and for the interrupt flag.
  pub sys_close-sys_open :
      (drivers : Drivers W) (img : Image) (blank : Dentry) (filename : List ℕ) (d : Dentry)
      (k : Kernel W) (p : ℕ) (pcb : Pcb) (w : W) (fd : ℕ) (k' : Kernel W)
      → IsRunning k p pcb
      → read_dentry_by_name img (some filename) blank ≡ some (0, d)
      → call_open drivers (opened d) filename k.world ≡ some w
      → sys_open drivers img blank (some filename) k ≡ some (fd, k')
      → fd ≢ minus_one
      → sys_close fd k' ≡ some (0, record (cli k) { world = w })
  sys_close-sys_open drivers img blank filename d k p pcb w fd k' r looked called returned valid =
      elim (sys_open_lem drivers img blank filename d k p pcb w r looked called) [
        | taken j high low free e whole ↦
            let same = some-injective _ _ (sym returned ∙ e) in
            rw (ap (λ t. t.0) same, ap (λ t. t.1) same)
              (close_taken k p j pcb (opened d) w r high low (opened-flags d) free)
        | no_descriptor used e ↦
            absurd (valid (ap (λ t. t.0) (some-injective _ _ (sym returned ∙ e))))
      ]
