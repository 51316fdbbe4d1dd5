-- ===== src/Process/Execute/Family.antt =====
-- system_call_handler.c: `execute` of a child and `halt` of it.
use mathlib.Core.Option.{some-injective}
use illinix_os.Base.{
  ℕ, ◌+◌, ◌-◌, ◌*◌, ◌<◌, ◌≡◌, refl, ◌≢◌, ◌∙◌, ap, ap₂, sym, false, Option, some, List, arith,
  get_elem?, set, length, get_elem?-set_self, get_elem?-lt, set-set, set-same, minus_one, lt→ltb,
  le→ltb_false,
}
use illinix_os.FileSystem.{Image, Dentry}
use illinix_os.Page.{Layout, Paging, set_page}
use illinix_os.Terminal.{Terminal}
use illinix_os.Process.{Pcb, Cpu, Kernel, Drivers, first_unused, last_process}
use illinix_os.Process.Execute.{
  Frame, Outcome, resumes, push_process, new_pcb, launch, launched, halt, end_process, exit_status,
}
use illinix_os.Process.Execute.Slots.{
  IsPacked, first_unused-push_process, last_process-push_process, pop-push_process,
}
use illinix_os.Process.Execute.Launched.{launch-IsLaunched}

-- The state `k` when the process `idx` ends: the program may have done anything with files,
-- memory and drivers since `start`, but other than that it runs on the same terminal and what its
-- block says of the parent stands.
pub record IsChild {W : Type 0} (start k : Kernel W) (idx : ℕ) : Type 0 where
  pub terminals : k.terminals ≡ start.terminals
  pub running : k.curr_running_terminal_idx ≡ start.curr_running_terminal_idx
  pub available : k.phys_addr_available ≡ start.phys_addr_available
  pub first : Pcb
  pub now : Pcb
  pub block_first : get_elem? start.pcbs idx ≡ some first
  pub block_now : get_elem? k.pcbs idx ≡ some now
  pub esp : now.parent_esp ≡ first.parent_esp
  pub ebp : now.parent_ebp ≡ first.parent_ebp
  pub pdbr : now.parent_pdbr ≡ first.parent_pdbr
  pub esp0 : now.parent_esp0 ≡ first.parent_esp0
  pub ss0 : now.parent_ss0 ≡ first.parent_ss0

-- What the parent `k` gets back from `halt`: its pages of memory, its terminal's list of processes,
-- its page directory and its kernel stack.
pub record IsBack {W : Type 0} (k k' : Kernel W) (t : Terminal) : Type 0 where
  pub available : k'.phys_addr_available ≡ k.phys_addr_available
  pub terminals :
      k'.terminals ≡ set k.terminals k.curr_running_terminal_idx (record t { vid_on = 0 })
  pub cr3 : k'.paging.cr3 ≡ k.paging.cr3
  pub esp0 : k'.cpu.tss_esp0 ≡ k.cpu.tss_esp0
  pub ss0 : k'.cpu.tss_ss0 ≡ k.cpu.tss_ss0

module _ {W : Type 0} (at : Layout) (img : Image) (frame : Frame) (drivers : Drivers W) where
  -- `halt` of a process that is no shell, with its list and its block at hand.
  pub halt-enter :
      (status : ℕ) (k : Kernel W) (t : Terminal) (idx : ℕ) (pcb : Pcb)
      → get_elem? k.terminals k.curr_running_terminal_idx ≡ some t
      → last_process t.phys_mem_idx ≡ some idx
      → get_elem? k.pcbs idx ≡ some pcb
      → 2 < idx
      → halt at img frame drivers status k
        ≡ some (
          resumes pcb.parent_esp pcb.parent_ebp
              (exit_status k.exception_flag status + k.exception_flag),
          end_process idx (first_unused t.phys_mem_idx - 1) t pcb k,
        )
  unfolding halt
  halt-enter status k t idx pcb terminal last block high =
      rw (terminal, last, block, le→ltb_false idx 3 high) refl

  new_pcb-parent :
      (idx : ℕ) (arg : List ℕ) (cpu : Cpu) (before after : Paging) (old : Pcb)
      → 2 < idx
      → let pcb = new_pcb idx arg cpu before after old in
        (pcb.parent_esp ≡ cpu.esp)
        × (pcb.parent_ebp ≡ cpu.ebp)
        × (pcb.parent_pdbr ≡ before.cr3)
        × (pcb.parent_esp0 ≡ cpu.tss_esp0)
        × (pcb.parent_ss0 ≡ cpu.tss_ss0)
  new_pcb-parent idx arg cpu before after old high =
      rw (lt→ltb 2 idx high) (refl, refl, refl, refl, refl)

  halt-launched :
      (idx : ℕ) (k start now : Kernel W) (t : Terminal) (old : Pcb) (arg loaded : List ℕ)
      (status : ℕ)
      → 2 < idx
      → idx < 6
      → get_elem? k.phys_addr_available idx ≡ some 1
      → get_elem? k.terminals k.curr_running_terminal_idx ≡ some t
      → get_elem? k.pcbs idx ≡ some old
      → IsPacked t.phys_mem_idx
      → first_unused t.phys_mem_idx < length t.phys_mem_idx
      → start ≡ launched at img frame (idx, set k.phys_addr_available idx 0) t old arg loaded k
      → IsChild start now idx
      → (k' : Kernel W) × (halt at img frame drivers status now
          ≡ some (
            resumes k.cpu.esp k.cpu.ebp
                (exit_status now.exception_flag status + now.exception_flag),
            k',
          ))
        × IsBack k k' t
  halt-launched idx k start now t old arg loaded status high low free terminal block packed room e
        c =
      let t' = record t { phys_mem_idx = push_process idx t.phys_mem_idx } in
      let ne : idx ≢ minus_one = λ z. omega arith in
      let there : get_elem? now.terminals now.curr_running_terminal_idx ≡ some t' =
        ap₂ get_elem? (c.terminals ∙ ap (λ s. s.terminals) e)
          (c.running ∙ ap (λ s. s.curr_running_terminal_idx) e)
        ∙ get_elem?-set_self k.terminals k.curr_running_terminal_idx t'
            (get_elem?-lt k.terminals k.curr_running_terminal_idx terminal) in
      let last = last_process-push_process idx t.phys_mem_idx ne room packed in
      let made =
        new_pcb idx arg k.cpu k.paging
          (set_page at 32 (0x800000 + idx * 0x400000) (idx + 1) false 0 k.paging) old in
      let same : c.first ≡ made = some-injective _ _ (
        sym c.block_first
        ∙ ap (λ s. get_elem? s.pcbs idx) e
        ∙ get_elem?-set_self k.pcbs idx made (get_elem?-lt k.pcbs idx block)) in
      let (esp, ebp, pdbr, esp0, ss0) =
        new_pcb-parent idx arg k.cpu k.paging
          (set_page at 32 (0x800000 + idx * 0x400000) (idx + 1) false 0 k.paging) old high in
      let gone : first_unused (t'.phys_mem_idx) - 1 ≡ first_unused t.phys_mem_idx =
        omega (arith, first_unused-push_process idx t.phys_mem_idx ne room packed) in
      let list : set t'.phys_mem_idx (first_unused t'.phys_mem_idx - 1) minus_one ≡ t.phys_mem_idx =
        ap (λ i. set t'.phys_mem_idx i minus_one) gone ∙ pop-push_process idx t.phys_mem_idx room in
      let k' = end_process idx (first_unused t'.phys_mem_idx - 1) t' c.now now in
      (
        k',
        halt-enter status now t' idx c.now there last c.block_now high
            ∙ ap₂
                (λ a b.
                  some
                    (resumes a b (exit_status now.exception_flag status + now.exception_flag), k'))
                (c.esp ∙ ap (λ b. b.parent_esp) same ∙ esp)
                (c.ebp ∙ ap (λ b. b.parent_ebp) same ∙ ebp),
        record {
          available =
              ap (λ a. set a idx 1) (c.available ∙ ap (λ s. s.phys_addr_available) e)
              ∙ set-set k.phys_addr_available idx 0 1
              ∙ set-same k.phys_addr_available idx free;
          terminals =
              ap₂
                (λ ts r. set ts r (record t' {
                  phys_mem_idx = set t'.phys_mem_idx (first_unused t'.phys_mem_idx - 1) minus_one;
                  vid_on = 0;
                }))
                (c.terminals ∙ ap (λ s. s.terminals) e)
                (c.running ∙ ap (λ s. s.curr_running_terminal_idx) e)
              ∙ set-set k.terminals k.curr_running_terminal_idx t' _
              ∙ ap
                  (λ ps.
                    set k.terminals k.curr_running_terminal_idx
                      (record t { phys_mem_idx = ps; vid_on = 0 }))
                  list;
          cr3 = c.pdbr ∙ ap (λ b. b.parent_pdbr) same ∙ pdbr;
          esp0 = c.esp0 ∙ ap (λ b. b.parent_esp0) same ∙ esp0;
          ss0 = c.ss0 ∙ ap (λ b. b.parent_ss0) same ∙ ss0;
        },
      )

  -- The way to a child and back. If the search for a page has found page `idx`, not one of the three
  -- of the shells, and the running terminal's list of processes is packed and has room, and the
  -- program was entered, then `halt` of the child, whatever it has done with files, memory and
  -- drivers and whatever its exception flag, resumes the parent on its stack with the status (255
  -- and the flag added, after an exception); the pages, the list of processes, the page directory
  -- and the kernel stack are as they were before.
  pub halt-launch :
      (idx : ℕ) (d : Dentry) (argument : Option (List ℕ)) (k start now : Kernel W) (o : Outcome)
      (t : Terminal) (status : ℕ)
      → 2 < idx
      → idx < 6
      → get_elem? k.phys_addr_available idx ≡ some 1
      → get_elem? k.terminals k.curr_running_terminal_idx ≡ some t
      → IsPacked t.phys_mem_idx
      → first_unused t.phys_mem_idx < length t.phys_mem_idx
      → launch at img frame (some (idx, set k.phys_addr_available idx 0)) d argument k
        ≡ some (o, start)
      → IsChild start now idx
      → (k' : Kernel W) × (halt at img frame drivers status now
          ≡ some (
            resumes k.cpu.esp k.cpu.ebp
                (exit_status now.exception_flag status + now.exception_flag),
            k',
          ))
        × IsBack k k' t
  halt-launch idx d argument k start now o t status high low free terminal packed room entered
        child =
      let l =
        launch-IsLaunched at img frame (idx, set k.phys_addr_available idx 0) d argument k start o
          entered in
      let same : l.t ≡ t = some-injective _ _ (sym l.terminal ∙ terminal) in
      halt-launched idx k start now t l.old l.arg l.loaded status high low free terminal l.block
        packed room
        (l.result
          ∙ ap
              (λ u.
                launched at img frame (idx, set k.phys_addr_available idx 0) u l.old l.arg l.loaded
                  k)
              same)
        child
