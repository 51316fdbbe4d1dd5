-- ===== src/Process/Transfer.antt =====
-- system_call_handler.c: `read` and `write` on the table of the running process.
use illinix_os.Base.{
  ℕ, ◌≤◌, ◌<◌, ◌≡◌, refl, ◌≢◌, ◌⊎◌, inl, inr, Option, some, List, arith, get_elem?, set, ◌>>=◌,
  get_elem?-lt, ℕ_discrete, ==_iff, ==_ne, minus_one, dec_lt,
}
use illinix_os.Descriptor.{FileOperationTable, FileDescriptor}
use illinix_os.Process.{Pcb, Kernel, Drivers, cli, put_table, sys_read, sys_write}
use illinix_os.Process.Table.{IsTable}
use illinix_os.Process.Calls.{IsRunning}
use illinix_os.Process.Closing.{descriptor, out_of_range, in_range}

-- The descriptors that `read` (with `console` 1) and `write` (with 0) do not serve.
abbrev pub NotServed : ℕ → ℕ → List FileDescriptor → Type 0
NotServed console fd fds =
    (fd ≡ console)
    ⊎ ((8 ≤ fd) ⊎ ((f : FileDescriptor) × (get_elem? fds fd ≡ some f) × (f.flags ≡ 0)))

-- A descriptor in use, and its jump table.
pub record IsServed (fds : List FileDescriptor) (fd : ℕ) (f : FileDescriptor)
    (t : FileOperationTable) : Type 0 where
  pub there : get_elem? fds fd ≡ some f
  pub used : f.flags ≢ 0
  pub driver : f.file_operation_table_ptr ≡ some t

-- A number is one that a call does not serve, or a descriptor in use.
IsServed-or_not :
    (console fd : ℕ) (fds : List FileDescriptor)
    → IsTable fds
    → NotServed console fd fds
      ⊎ ((fd ≢ console)
          × (fd < 8)
          × (f : FileDescriptor) × (t : FileOperationTable) × IsServed fds fd f t)
IsServed-or_not console fd fds table = elim (ℕ_discrete fd console) [
  | yes e ↦ inl (inl e)
  | no ne ↦ elim (dec_lt fd 8) [
    | no high ↦ inl (inr (inl (omega arith)))
    | yes low ↦
        let (f, e) = descriptor fds fd (omega (arith, table.eight)) in
        elim (ℕ_discrete f.flags 0) [
          | yes free ↦ inl (inr (inr (f, e, free)))
          | no used ↦
              let (t, d) = table.drivers fd f e used in
              inr (ne, low, f, t, record { there = e; used = used; driver = d })
        ]
  ]
]

module _ {W : Type 0} (drivers : Drivers W) where
  -- What `read` does once it has reached the driver.
  abbrev pub served_read :
      FileOperationTable
      → FileDescriptor
      → ℕ
      → Option (List ℕ)
      → ℕ
      → ℕ
      → Pcb
      → Kernel W
      → Option (ℕ × Option (List ℕ) × Kernel W)
  served_read t f fd buf n p pcb k = drivers.on_read t f buf n k.world >>= λ r. some (
    r.0,
    r.2,
    record (put_table p pcb (set pcb.file_descriptor_tabele fd r.1) (cli k)) { world = r.3 },
  )

  -- `read` of a descriptor in use, but for standard output, goes to its driver.
  pub sys_read-served :
      (fd : ℕ) (buf : Option (List ℕ)) (n : ℕ) (k : Kernel W) (p : ℕ) (pcb : Pcb)
      (f : FileDescriptor) (t : FileOperationTable)
      → IsRunning k p pcb
      → fd ≢ 1
      → fd < 8
      → IsServed pcb.file_descriptor_tabele fd f t
      → sys_read drivers fd buf n k ≡ served_read t f fd buf n p pcb k
  unfolding sys_read
  sys_read-served fd buf n k p pcb f t r ne low s =
      rw
        (==_ne fd 1 ne, in_range fd low, r.here, r.block, s.there, ==_ne f.flags 0 s.used, s.driver)
        refl

  -- `read` by a process whose block is whole: standard output, numbers out of range and descriptors
  -- not in use are refused with -1, and nothing changes but the interrupt flag; any other goes to
  -- the driver of its jump table, so that no null pointer is called.
  pub sys_read_lem :
      (fd : ℕ) (buf : Option (List ℕ)) (n : ℕ) (k : Kernel W) (p : ℕ) (pcb : Pcb)
      → IsRunning k p pcb
      → (NotServed 1 fd pcb.file_descriptor_tabele
          × (sys_read drivers fd buf n k ≡ some (minus_one, buf, cli k)))
        ⊎ ((fd ≢ 1)
            × (fd < 8)
            × (f : FileDescriptor) × (t : FileOperationTable) × IsServed pcb.file_descriptor_tabele
                fd f t
            × (sys_read drivers fd buf n k ≡ served_read t f fd buf n p pcb k))
  unfolding sys_read
  sys_read_lem fd buf n k p pcb r = elim (IsServed-or_not 1 fd pcb.file_descriptor_tabele r.table) [
    | inl (inl e) ↦ inl (inl e, rw ((==_iff fd 1).1 e) refl)
    | inl (inr (inl high)) ↦
        inl (inr (inl high), rw (==_ne fd 1 (λ e. omega arith), out_of_range fd high) refl)
    | inl (inr (inr (f, e, free))) ↦ elim (ℕ_discrete fd 1) [
      | yes one ↦ inl (inl one, rw ((==_iff fd 1).1 one) refl)
      | no ne ↦ inl (
        inr (inr (f, e, free)),
        rw
            (
              ==_ne fd 1 ne,
              in_range fd (omega (arith, get_elem?-lt _ fd e, r.table.eight)),
              r.here,
              r.block,
              e,
              (==_iff f.flags 0).1 free,
            )
            refl,
      )
    ]
    | inr (ne, low, f, t, s) ↦
        inr (ne, low, f, t, s, sys_read-served fd buf n k p pcb f t r ne low s)
  ]

  -- In the same way `write` refuses standard input, numbers out of range and descriptors not in use,
  -- and passes the others to the driver of their jump table; it changes no descriptor.
  pub sys_write_lem :
      (fd : ℕ) (buf : Option (List ℕ)) (n : ℕ) (k : Kernel W) (p : ℕ) (pcb : Pcb)
      → IsRunning k p pcb
      → (NotServed 0 fd pcb.file_descriptor_tabele
          × (sys_write drivers fd buf n k ≡ some (minus_one, cli k)))
        ⊎ ((fd ≢ 0)
            × (fd < 8)
            × (f : FileDescriptor) × (t : FileOperationTable) × IsServed pcb.file_descriptor_tabele
                fd f t
            × (sys_write drivers fd buf n k ≡ (
                drivers.on_write t fd buf n k.world >>= λ r.
                some (r.0, record (cli k) { world = r.1 }))))
  unfolding sys_write
  sys_write_lem fd buf n k p pcb r =
      elim (IsServed-or_not 0 fd pcb.file_descriptor_tabele r.table) [
        | inl (inl e) ↦ inl (inl e, rw ((==_iff fd 0).1 e) refl)
        | inl (inr (inl high)) ↦
            inl (inr (inl high), rw (==_ne fd 0 (λ e. omega arith), out_of_range fd high) refl)
        | inl (inr (inr (f, e, free))) ↦ elim (ℕ_discrete fd 0) [
          | yes nought ↦ inl (inl nought, rw ((==_iff fd 0).1 nought) refl)
          | no ne ↦ inl (
            inr (inr (f, e, free)),
            rw
                (
                  ==_ne fd 0 ne,
                  in_range fd (omega (arith, get_elem?-lt _ fd e, r.table.eight)),
                  r.here,
                  r.block,
                  e,
                  (==_iff f.flags 0).1 free,
                )
                refl,
          )
        ]
        | inr (ne, low, f, t, s) ↦ inr (
          ne,
          low,
          f,
          t,
          s,
          rw
              (
                ==_ne fd 0 ne,
                in_range fd low,
                r.here,
                r.block,
                s.there,
                ==_ne f.flags 0 s.used,
                s.driver,
              )
              refl,
        )
      ]
