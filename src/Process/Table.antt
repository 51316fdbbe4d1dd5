-- ===== src/Process/Table.antt =====
-- system_call_handler.h: the table of file descriptors of a process.
use illinix_os.Base.{
  ℕ, zero, suc, ◌+◌, ◌≤◌, ◌≡◌, refl, ◌≢◌, inl, inr, ◌∙◌, ap, sym, subst, none, some, List, [], ◌∷◌,
  arith, get_elem?, set, length, length-set, get_elem?-set_ne, get_elem?-set, ℕ_discrete, ==_iff,
  ==_ne,
}
use mathlib.Core.Option.{some-injective, none-ne-some}
use illinix_os.Descriptor.{FileOperationTable, FileDescriptor}
use illinix_os.FileSystem.{Dentry}
use illinix_os.Process.{free_descriptor, opened, cleared}

-- A descriptor in use has a jump table, so that a call through it does not fault.
abbrev pub HasDriver : FileDescriptor → Type 0
HasDriver f = f.flags ≢ 0 → (t : FileOperationTable) × (f.file_operation_table_ptr ≡ some t)

-- A descriptor that is not in use is clear.
abbrev pub IsTidy : FileDescriptor → Type 0
IsTidy f = f.flags ≡ 0 → f ≡ cleared

-- Eight descriptors, of which the first two are the terminal's.
pub record IsTable (fds : List FileDescriptor) : Type 0 where
  pub eight : length fds ≡ 8
  pub drivers : (i : ℕ) (f : FileDescriptor) → get_elem? fds i ≡ some f → HasDriver f
  pub tidy : (i : ℕ) (f : FileDescriptor) → get_elem? fds i ≡ some f → IsTidy f
  pub input :
      (f : FileDescriptor) × (get_elem? fds 0 ≡ some f)
      × (f.file_operation_table_ptr ≡ some FileOperationTable.stdin)
      × (f.flags ≡ 1)
  pub output :
      (f : FileDescriptor) × (get_elem? fds 1 ≡ some f)
      × (f.file_operation_table_ptr ≡ some FileOperationTable.stdout)
      × (f.flags ≡ 1)

-- What the search for a free descriptor finds.
pub data Search (i : ℕ) (fds : List FileDescriptor) : Type 0 where
  found :
      (j : ℕ) (f : FileDescriptor)
      → get_elem? fds j ≡ some f
      → f.flags ≡ 0
      → free_descriptor i fds ≡ some (i + j)
      → Search i fds
  full :
      ((j : ℕ) (f : FileDescriptor) → get_elem? fds j ≡ some f → f.flags ≢ 0)
      → free_descriptor i fds ≡ none
      → Search i fds

all_used :
    (g : FileDescriptor) (fds : List FileDescriptor)
    → g.flags ≢ 0
    → ((j : ℕ) (f : FileDescriptor) → get_elem? fds j ≡ some f → f.flags ≢ 0)
    → (j : ℕ) (f : FileDescriptor) → get_elem? (g ∷ fds) j ≡ some f
    → f.flags ≢ 0
all_used g fds used rest zero f h = subst (λ d. d.flags ≢ 0) (some-injective _ _ h) used
all_used g fds used rest (suc j) f h = rest j f h

pub free_descriptor_lem : (i : ℕ) (fds : List FileDescriptor) → Search i fds
unfolding free_descriptor
free_descriptor_lem i [] = full (λ j f h. ground arith) refl
free_descriptor_lem i (g ∷ fds) = elim (ℕ_discrete g.flags 0) [
  | yes free ↦ found 0 g refl free (rw ((==_iff g.flags 0).1 free) (ap some (omega arith)))
  | no used ↦ elim (free_descriptor_lem (i + 1) fds) [
    | found j f h free e ↦
        found (suc j) f h free (rw (==_ne g.flags 0 used) (e ∙ ap some (omega arith)))
    | full none_free e ↦ full (all_used g fds used none_free) (rw (==_ne g.flags 0 used) e)
  ]
]

pub IsTable-set :
    (fds : List FileDescriptor) (i : ℕ) (f : FileDescriptor)
    → IsTable fds
    → 2 ≤ i
    → HasDriver f
    → IsTidy f
    → IsTable (set fds i f)
IsTable-set fds i f t low d tidy = record {
  eight = length-set fds i f ∙ t.eight;
  drivers = λ j g h. elim (get_elem?-set fds i j f h) [
    | inl e ↦ subst HasDriver (sym e) d
    | inr e ↦ t.drivers j g e
  ];
  tidy = λ j g h. elim (get_elem?-set fds i j f h) [
    | inl e ↦ subst IsTidy (sym e) tidy
    | inr e ↦ t.tidy j g e
  ];
  input =
      let (g, e, ptr, flag) = t.input in
      (g, get_elem?-set_ne fds f (λ e. omega arith) ∙ e, ptr, flag);
  output =
      let (g, e, ptr, flag) = t.output in
      (g, get_elem?-set_ne fds f (λ e. omega arith) ∙ e, ptr, flag);
}

pub opened-HasDriver : (d : Dentry) → HasDriver (opened d)
opened-HasDriver d used = elim (ℕ_discrete d.file_type 0) [
  | yes e ↦ (FileOperationTable.rtc, rw ((==_iff d.file_type 0).1 e) refl)
  | no ne ↦ elim (ℕ_discrete d.file_type 1) [
    | yes e ↦ (FileOperationTable.dir, rw (==_ne d.file_type 0 ne, (==_iff d.file_type 1).1 e) refl)
    | no ne' ↦ (FileOperationTable.file, rw (==_ne d.file_type 0 ne, ==_ne d.file_type 1 ne') refl)
  ]
]

pub opened-flags : (d : Dentry) → (opened d).flags ≡ 1
opened-flags d = ground arith

pub cleared-HasDriver : HasDriver cleared
cleared-HasDriver used = absurd (used refl)

-- A property of every descriptor of a table.
abbrev pub Every : (FileDescriptor → Type 0) → List FileDescriptor → Type 0
Every P [] = Unit
Every P (f ∷ fds) = P f × Every P fds

pub every :
    (P : FileDescriptor → Type 0) (fds : List FileDescriptor)
    → Every P fds
    → (i : ℕ) (f : FileDescriptor) → get_elem? fds i ≡ some f
    → P f
every P [] all i f h = absurd (none-ne-some _ h)
every P (g ∷ fds) all zero f h = subst P (some-injective _ _ h) all.0
every P (g ∷ fds) all (suc i) f h = every P fds all.1 i f h
