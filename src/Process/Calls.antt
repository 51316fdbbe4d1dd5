-- ===== src/Process/Calls.antt =====
-- system_call_handler.c: `open` on the table of the running process.
use illinix_os.Base.{
  ℕ, zero, suc, ◌≤◌, ◌<◌, ◌≡◌, refl, ◌≢◌, ◌∙◌, ap, sym, Option, some, List, arith, get_elem?, set,
  get_elem?-lt, minus_one,
}
use mathlib.Core.Option.{some-injective}
use illinix_os.Descriptor.{FileDescriptor}
use illinix_os.FileSystem.{Image, Dentry, read_dentry_by_name}
use illinix_os.Process.{
  Pcb, Kernel, Drivers, free_descriptor, opened, cleared, cli, current, put_table, call_open,
  open_entry, sys_open,
}
use illinix_os.Process.Table.{
  IsTable, found, full, free_descriptor_lem, IsTable-set, opened-HasDriver, opened-flags,
}

module _ {W : Type 0} where
  -- Process `p` runs, and its block is whole.
  pub record IsRunning (k : Kernel W) (p : ℕ) (pcb : Pcb) : Type 0 where
    pub here : current k ≡ some p
    pub block : get_elem? k.pcbs p ≡ some pcb
    pub table : IsTable pcb.file_descriptor_tabele

-- What `open` does for an entry that was found, in the table of a process: the descriptor that it
-- takes, which is none of the terminal's and was not in use; or none is free.
pub data Opened {W : Type 0} (k : Kernel W) (p : ℕ) (pcb : Pcb) (d : Dentry) (w : W)
    (result : Option (ℕ × Kernel W)) : Type 0 where
  taken :
      (fd : ℕ)
      → 2 ≤ fd
      → fd < 8
      → get_elem? pcb.file_descriptor_tabele fd ≡ some cleared
      → result
        ≡ some (
          fd,
          record (put_table p pcb (set pcb.file_descriptor_tabele fd (opened d)) (cli k)) {
            world = w;
          },
        )
      → IsTable (set pcb.file_descriptor_tabele fd (opened d))
      → Opened k p pcb d w result
  no_descriptor :
      ((j : ℕ) (f : FileDescriptor) → get_elem? pcb.file_descriptor_tabele j ≡ some f → f.flags ≢ 0)
      → result ≡ some (minus_one, cli k)
      → Opened k p pcb d w result

-- The first two descriptors are in use.
free_is_high :
    (fds : List FileDescriptor) (j : ℕ) (f : FileDescriptor)
    → IsTable fds
    → get_elem? fds j ≡ some f
    → f.flags ≡ 0
    → 2 ≤ j
free_is_high fds zero f t h free =
    let (g, e, ptr, flag) = t.input in
    let same : f ≡ g = some-injective _ _ (sym h ∙ e) in
    absurd (omega (arith, ap (λ d. d.flags) same))
free_is_high fds (suc zero) f t h free =
    let (g, e, ptr, flag) = t.output in
    let same : f ≡ g = some-injective _ _ (sym h ∙ e) in
    absurd (omega (arith, ap (λ d. d.flags) same))
free_is_high fds (suc (suc j)) f t h free = omega arith

module _ {W : Type 0} (drivers : Drivers W) where
  open_entry_lem :
      (filename : List ℕ) (d : Dentry) (k : Kernel W) (p : ℕ) (pcb : Pcb) (w : W)
      → IsRunning (cli k) p pcb
      → call_open drivers (opened d) filename k.world ≡ some w
      → Opened k p pcb d w (open_entry drivers filename d (cli k))
  unfolding open_entry
  open_entry_lem filename d k p pcb w r called =
      elim (free_descriptor_lem 0 pcb.file_descriptor_tabele) [
        | found j f h free e ↦
            let clear : get_elem? pcb.file_descriptor_tabele j ≡ some cleared =
              h ∙ ap some (r.table.tidy j f h free) in
            let at : free_descriptor 0 pcb.file_descriptor_tabele ≡ some j =
              e ∙ ap some (omega arith) in
            taken j (free_is_high _ j f r.table h free)
              (omega (arith, get_elem?-lt _ j h, r.table.eight)) clear
              (rw (r.here, r.block, at, called) refl)
              (IsTable-set _ j (opened d) r.table (free_is_high _ j f r.table h free)
                (opened-HasDriver d) (λ z. absurd (omega (arith, opened-flags d))))
        | full used e ↦ no_descriptor used (rw (r.here, r.block, e) refl)
      ]

  -- `open` for a name that is found, by a process whose block is whole, with a driver that does not
  -- fault: it takes a descriptor of 2 to 7 that is free, fills it in by the type of the file
  -- and returns its number, and the block stays whole; or, if all are in use, it returns -1. No other
  -- descriptor and no other process changes.
  pub sys_open_lem :
      (img : Image) (blank : Dentry) (filename : List ℕ) (d : Dentry) (k : Kernel W) (p : ℕ)
      (pcb : Pcb) (w : W)
      → IsRunning k p pcb
      → read_dentry_by_name img (some filename) blank ≡ some (0, d)
      → call_open drivers (opened d) filename k.world ≡ some w
      → Opened k p pcb d w (sys_open drivers img blank (some filename) k)
  unfolding sys_open
  sys_open_lem img blank filename d k p pcb w r looked called = rw looked (
      open_entry_lem filename d k p pcb w
        (record { here = r.here; block = r.block; table = r.table }) called)
