-- ===== src/Process/Driving.antt =====
-- lib.h and system_call_handler.c: what drivers promise, and the block of a process across `read`.
use illinix_os.Base.{
  ℕ, ◌≡◌, ◌≢◌, inl, inr, ◌∙◌, ap, sym, subst, Option, some, List, get_elem?, set, length-set,
  get_elem?-set_self, >>=-eq-some, get_elem?-set_ne, get_elem?-lt, get_elem?-set, ℕ_discrete,
}
use mathlib.Core.Option.{some-injective}
use illinix_os.Descriptor.{FileOperationTable, FileDescriptor}
use illinix_os.Process.{Pcb, Kernel, Drivers, sys_read}
use illinix_os.Process.Table.{HasDriver, IsTidy, IsTable}
use illinix_os.Process.Calls.{IsRunning}
use illinix_os.Process.Transfer.{sys_read_lem}

-- A driver may move the position of a descriptor, but leaves its jump table and its flag alone.
pub record IsDriver {W : Type 0} (drivers : Drivers W) : Type 0 where
  pub pointer :
      (t : FileOperationTable) (f f' : FileDescriptor) (buf buf' : Option (List ℕ)) (n v : ℕ)
      (w w' : W)
      → drivers.on_read t f buf n w ≡ some (v, f', buf', w')
      → f'.file_operation_table_ptr ≡ f.file_operation_table_ptr
  pub flag :
      (t : FileOperationTable) (f f' : FileDescriptor) (buf buf' : Option (List ℕ)) (n v : ℕ)
      (w w' : W)
      → drivers.on_read t f buf n w ≡ some (v, f', buf', w')
      → f'.flags ≡ f.flags

-- A table stays whole when a descriptor in use keeps its jump table and its flag.
IsTable-move :
    (fds : List FileDescriptor) (i : ℕ) (f f' : FileDescriptor)
    → IsTable fds
    → get_elem? fds i ≡ some f
    → f.flags ≢ 0
    → f'.file_operation_table_ptr ≡ f.file_operation_table_ptr
    → f'.flags ≡ f.flags
    → IsTable (set fds i f')
IsTable-move fds i f f' t here used same_ptr same_flag = record {
  eight = length-set fds i f' ∙ t.eight;
  drivers = λ j g h. elim (get_elem?-set fds i j f' h) [
    | inl e ↦
        let (table, p) = t.drivers i f here used in
        subst HasDriver (sym e) (λ _. (table, same_ptr ∙ p))
    | inr e ↦ t.drivers j g e
  ];
  tidy = λ j g h. elim (get_elem?-set fds i j f' h) [
    | inl e ↦ subst IsTidy (sym e) (λ free. absurd (used (sym same_flag ∙ free)))
    | inr e ↦ t.tidy j g e
  ];
  input = elim (ℕ_discrete i 0) [
    | yes e ↦
        let (g, eg, ptr, flag) = t.input in
        let same : f ≡ g = some-injective _ _ (sym here ∙ (ap (get_elem? fds) e ∙ eg)) in
        (
          f',
          rw (sym e) (get_elem?-set_self fds i f' (get_elem?-lt fds i here)),
          same_ptr ∙ (ap (λ d. d.file_operation_table_ptr) same ∙ ptr),
          same_flag ∙ (ap (λ d. d.flags) same ∙ flag),
        )
    | no ne ↦ let (g, eg, ptr, flag) = t.input in (g, get_elem?-set_ne fds f' ne ∙ eg, ptr, flag)
  ];
  output = elim (ℕ_discrete i 1) [
    | yes e ↦
        let (g, eg, ptr, flag) = t.output in
        let same : f ≡ g = some-injective _ _ (sym here ∙ (ap (get_elem? fds) e ∙ eg)) in
        (
          f',
          rw (sym e) (get_elem?-set_self fds i f' (get_elem?-lt fds i here)),
          same_ptr ∙ (ap (λ d. d.file_operation_table_ptr) same ∙ ptr),
          same_flag ∙ (ap (λ d. d.flags) same ∙ flag),
        )
    | no ne ↦ let (g, eg, ptr, flag) = t.output in (g, get_elem?-set_ne fds f' ne ∙ eg, ptr, flag)
  ];
}

module _ {W : Type 0} (drivers : Drivers W) where
  -- After a `read` that did not fault, with drivers that keep to their interface, the same process
  -- runs and its block is whole.
  pub sys_read-IsRunning :
      (fd : ℕ) (buf : Option (List ℕ)) (n : ℕ) (k : Kernel W) (p : ℕ) (pcb : Pcb) {v : ℕ}
      {out : Option (List ℕ)} {k' : Kernel W}
      → IsDriver drivers
      → IsRunning k p pcb
      → sys_read drivers fd buf n k ≡ some (v, out, k')
      → (pcb' : Pcb) × IsRunning k' p pcb'
  sys_read-IsRunning fd buf n k p pcb law r done = elim (sys_read_lem drivers fd buf n k p pcb r) [
    | inl (why, e) ↦
        let same = some-injective _ _ (sym e ∙ done) in
        (
          pcb,
          subst (λ q. IsRunning q p pcb) (ap (λ t. t.2) same)
              (record { here = r.here; block = r.block; table = r.table }),
        )
    | inr (ne, low, f, t, s, e) ↦
        let ((v, f', b, w), called, result) = >>=-eq-some _ _ (sym e ∙ done) in
        let same = some-injective _ _ result in
        let fds = set pcb.file_descriptor_tabele fd f' in
        let pcb' = record pcb { file_descriptor_tabele = fds } in
        (
          pcb',
          subst (λ q. IsRunning q p pcb') (ap (λ t. t.2) same)
              (record {
                here = r.here;
                block = get_elem?-set_self k.pcbs p pcb' (get_elem?-lt k.pcbs p r.block);
                table =
                    IsTable-move pcb.file_descriptor_tabele fd f f' r.table s.there s.used
                      (law.pointer t f f' buf b n v k.world w called)
                      (law.flag t f f' buf b n v k.world w called);
              }),
        )
  ]
