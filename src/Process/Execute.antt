-- ===== src/Process/Execute.antt =====
-- The system calls that start, end and ask about processes: `execute`, `halt`, `getargs`, `vidmap`,
-- and the two that do nothing, `set_handler` and `sigreturn`.
pub mod Command
pub mod Launched
pub mod Branches
pub mod Slots
pub mod Stack
pub mod Tests
pub mod Fresh
pub mod Family
pub mod Arguments
use Command.{Parsed, parse_command, elf_magic, is_executable, is_hello, shell}
use illinix_os.Base.{
  ℕ, zero, suc, ◌+◌, ◌-◌, ◌*◌, Bool, true, false, ◌||◌, ◌&&◌, not, Option, none, some, List, [],
  ◌∷◌, ◌++◌, ◌==◌, ltb, leb, if◌then◌else◌, ◌>>=◌, get_elem?, set, length, take, drop, minus_one,
  negative, add32, sub32, u8,
}
use illinix_os.Libc.{strlen, strcpy, strncpy, strncmp}
use illinix_os.Descriptor.{FileOperationTable, FileDescriptor}
use illinix_os.FileSystem.{Image, Dentry, read_dentry_by_name, read_data}
use illinix_os.Page.{Layout, Paging, set_page, set_page_1}
use illinix_os.Terminal.{Terminal}
use illinix_os.Process.{
  Pcb, Cpu, Kernel, Drivers, first_unused, last_process, cleared, cli, current,
}

-- The loop that takes the first page of memory that is free, from page `i` on.
pub take_page : ℕ → List ℕ → Option (ℕ × List ℕ)
take_page i [] = none
take_page i (a ∷ rest_of) =
    let rest = take_page (i + 1) rest_of in
    if not (a == 0) then some (i, 0 ∷ rest_of) else (rest >>= λ r. some (r.0, a ∷ r.1))

-- The loop that puts a process into the first free place of the terminal's list.
unfoldable pub push_process : ℕ → List ℕ → List ℕ
push_process p [] = []
push_process p (q ∷ qs) = if q == minus_one then p ∷ qs else q ∷ push_process p qs

-- The program that `execute` starts and the block that it gets, from the old contents of the block.
-- The two first descriptors are the terminal's, the others are clear.
abbrev pub console : FileOperationTable → FileDescriptor
console t = record { file_operation_table_ptr = some t; inode = 0; file_position = 0; flags = 1 }

abbrev pub new_table : List FileDescriptor
new_table =
    console FileOperationTable.stdin
    ∷ console FileOperationTable.stdout
    ∷ cleared
    ∷ cleared
    ∷ cleared
    ∷ cleared
    ∷ cleared
    ∷ cleared
    ∷ []

-- `curr_PCB->arg` afterwards.
abbrev pub new_arg : Option (List ℕ) → List ℕ → Option (List ℕ)
new_arg none old = some (set old 0 0)
new_arg (some argument) old = strcpy old (argument ++ 0 ∷ [])

-- EIGHTMB - i * EIGHTKB: the top of the kernel stack of process `i`.
abbrev pub stack_top : ℕ → ℕ
stack_top i = 0x800000 - i * 0x2000

abbrev pub kernel_ds : ℕ
kernel_ds = 0x18

-- How a call ends: it returns to its caller, enters a program at an address, goes back to the
-- parent of the process that ends, with the parent's stack and the value for the parent, or, for a
-- shell, starts the shell again on the stack at `ebp + 8`.
pub data Outcome : Type 0 where
  returns : ℕ → Outcome
  enters : ℕ → Outcome
  resumes : ℕ → ℕ → ℕ → Outcome
  restarts_shell : ℕ → Outcome

module _ {W : Type 0} where
  abbrev pub on_terminal : ℕ → (Terminal → Terminal) → Kernel W → Option (Kernel W)
  on_terminal i f k =
      get_elem? k.terminals i >>= λ t. some (record k { terminals = set k.terminals i (f t) })

-- What the stack of `execute` holds in `curr_dentry`, `buf_elf` and `instruct_start`.
pub record Frame : Type 0 where
  pub curr_dentry : Dentry
  pub buf_elf : List ℕ
  pub instruct_start : List ℕ

-- `addr_asm`.
abbrev pub entry_point : List ℕ → Option ℕ
entry_point s = get_elem? s 0 >>= λ a. get_elem? s 1 >>= λ b.
    get_elem? s 2 >>= λ c. get_elem? s 3 >>= λ d. some (d * 16777216 + c * 65536 + b * 256 + a)

-- The block of the new process `idx`, from the old contents of the block; `after` are the page
-- tables after `set_page`.
abbrev pub new_pcb : ℕ → List ℕ → Cpu → Paging → Paging → Pcb → Pcb
new_pcb idx arg cpu before after old =
    if ltb 2 idx
    then record old {
      file_descriptor_tabele = new_table;
      arg = arg;
      parent_ebp = cpu.ebp;
      parent_esp = cpu.esp;
      parent_pdbr = before.cr3;
      parent_esp0 = cpu.tss_esp0;
      parent_ss0 = cpu.tss_ss0;
    }
    else record old {
      file_descriptor_tabele = new_table;
      arg = arg;
      parent_ebp = cpu.ebp;
      parent_esp = cpu.esp;
      parent_pdbr = after.cr3;
      parent_esp0 = stack_top idx;
      parent_ss0 = kernel_ds;
    }

module _ {W : Type 0} (at : Layout) (img : Image) (frame : Frame) where
  -- The program comes into the memory of process `idx`; with it, the address of its first
  -- instruction.
  pub load_program : ℕ → Dentry → Kernel W → Option (List ℕ × ℕ)
  load_program idx d k = get_elem? k.memory idx >>= λ mem.
      get_elem? img.inode_addr d.inode_idx >>= λ node.
      read_data img d.inode_idx 0 mem node.length >>= λ loaded.
      read_data img d.inode_idx 24 frame.instruct_start 4 >>= λ start.
      entry_point start.1 >>= λ addr_asm. some (loaded.1, addr_asm)

  -- The state on entering the program, as process `page.0` of the running terminal `t`, where
  -- `page.1` are the pages that are still free.
  abbrev pub launched : ℕ × List ℕ → Terminal → Pcb → List ℕ → List ℕ → Kernel W → Kernel W
  launched page t old arg loaded k =
      let idx = page.0 in
      let paging = set_page at 32 (0x800000 + idx * 0x400000) (idx + 1) false 0 k.paging in
      record k {
        phys_addr_available = page.1;
        terminals =
            set k.terminals k.curr_running_terminal_idx
              (record t { phys_mem_idx = push_process idx t.phys_mem_idx });
        pcbs = set k.pcbs idx (new_pcb idx arg k.cpu k.paging paging old);
        paging = paging;
        memory = set k.memory idx loaded;
        cpu = record (k.cpu) { tss_ss0 = kernel_ds; tss_esp0 = stack_top idx };
      }

  -- `execute` from the search for a page on, at its result.
  pub launch :
      Option (ℕ × List ℕ) → Dentry → Option (List ℕ) → Kernel W → Option (Outcome × Kernel W)
  unfolding push_process load_program
  launch none d argument k = some (returns minus_one, k)
  launch (some page) d argument k = get_elem? k.terminals k.curr_running_terminal_idx >>= λ t.
      get_elem? k.pcbs (page.0) >>= λ old. new_arg argument old.arg >>= λ arg.
      load_program (page.0) d k >>= λ loaded.
      some (enters loaded.1, launched page t old arg loaded.0 k)

  -- `execute` from the look-up of the file on.
  pub execute_file : Parsed → Kernel W → Option (Outcome × Kernel W)
  unfolding launch take_page
  execute_file p k =
      read_dentry_by_name img (some (p.filename ++ 0 ∷ [])) frame.curr_dentry >>= λ r.
      if r.0 == minus_one
      then some (returns minus_one, k)
      else (read_data img (r.1).inode_idx 0 frame.buf_elf 4 >>= λ head.
          if not (is_executable head.1 elf_magic)
          then some (returns minus_one, k)
          else launch (take_page 0 k.phys_addr_available) r.1 p.argument k)

  -- `execute`; `none` is the null pointer.
  unfoldable pub execute : Drivers W → Option (List ℕ) → Kernel W → Option (Outcome × Kernel W)
  unfolding execute_file parse_command
  execute drivers none k = some (returns minus_one, cli k)
  execute drivers (some command) k = strlen command >>= λ len. is_hello command len >>= λ greets.
      let k' = record (cli k) { exception_flag = 0; world = drivers.enable_irq 0 k.world } in
      (if greets
        then on_terminal k.curr_terminal_idx (λ t. record t { hello_flag = 1 }) k'
        else some k')
      >>= λ k''. parse_command command >>= λ p. execute_file p k''

-- What `halt` leaves of the block of process `idx`.
abbrev pub ended : ℕ → Pcb → Pcb
ended idx pcb =
    let gone = record pcb {
      parent_esp0 = 0;
      parent_ss0 = 0;
      parent_ebp = 0;
      parent_esp = 0;
      parent_pdbr = 0;
    } in
    if ltb 2 idx
    then record gone {
      file_descriptor_tabele =
          cleared ∷ cleared ∷ cleared ∷ cleared ∷ cleared ∷ cleared ∷ cleared ∷ cleared ∷ [];
    }
    else gone

-- The status that `halt` puts into `eax`.
abbrev pub exit_status : ℕ → ℕ → ℕ
exit_status exception_flag status = if exception_flag == 1 then 255 else status

module _ {W : Type 0} where
  -- `halt` of process `idx`, at place `i` of the list of the running terminal `t`, up to the switch
  -- of the stack.
  abbrev pub end_process : ℕ → ℕ → Terminal → Pcb → Kernel W → Kernel W
  end_process idx i t pcb k = record (cli k) {
    terminals =
        set k.terminals k.curr_running_terminal_idx
          (record t { phys_mem_idx = set t.phys_mem_idx i minus_one; vid_on = 0 });
    phys_addr_available = set k.phys_addr_available idx 1;
    pcbs = set k.pcbs idx (ended idx pcb);
    cpu = record (k.cpu) { tss_esp0 = pcb.parent_esp0; tss_ss0 = pcb.parent_ss0 };
    paging = record (k.paging) { cr3 = pcb.parent_pdbr };
  }

  -- `halt`: a shell is started again, and any other process gives way to its parent. If the shell
  -- cannot be started, `halt` goes on to the parent's stack all the same. The exception flag is added
  -- to the status.
  unfoldable pub halt :
      Layout → Image → Frame → Drivers W → ℕ → Kernel W → Option (Outcome × Kernel W)
  unfolding execute
  halt at img frame drivers status k = get_elem? k.terminals k.curr_running_terminal_idx >>= λ t.
      last_process t.phys_mem_idx >>= λ idx. get_elem? k.pcbs idx >>= λ pcb.
      let k' = end_process idx (first_unused t.phys_mem_idx - 1) t pcb k in
      let code = exit_status k.exception_flag status in
      let back : Kernel W → Outcome =
        λ q. resumes pcb.parent_esp pcb.parent_ebp (code + q.exception_flag) in
      if ltb idx 3
      then (execute at img frame drivers (some shell)
            (record k' { cpu = record (k'.cpu) { esp = add32 pcb.parent_ebp 8 } })
          >>= λ r. elim (r.0) [ enters a ↦ some (enters a, r.1) | _ ↦ some (back r.1, r.1) ])
      else some (back k', k')

  -- `getargs`: the value, the caller's buffer and the state.
  unfoldable pub getargs : List ℕ → ℕ → Kernel W → Option (ℕ × List ℕ × Kernel W)
  getargs buf nbytes k = current k >>= λ p. get_elem? k.pcbs p >>= λ pcb.
      get_elem? pcb.arg 0 >>= λ c.
      if c == 0
      then some (minus_one, buf, cli k)
      else (strlen pcb.arg >>= λ len.
          (if ltb nbytes len then strcpy buf pcb.arg else strncpy buf pcb.arg nbytes) >>= λ out.
          some (0, out, record k { interrupts = true }))

  -- `vidmap` at the address `screen_start`: the value, the pointer that is stored there, and the
  -- state.
  unfoldable pub vidmap : Layout → ℕ → Kernel W → Option (ℕ × Option ℕ × Kernel W)
  vidmap at screen_start k =
      if ltb screen_start 0x8000000 || leb 0x8400000 screen_start
      then some (minus_one, none, k)
      else (get_elem? k.terminals k.curr_terminal_idx >>= λ t. last_process t.phys_mem_idx >>= λ p.
          some (
            0,
            some (0x8801000 + 4096 * k.curr_terminal_idx),
            record k {
              terminals = set k.terminals k.curr_terminal_idx (record t { vid_on = 1 });
              paging =
                  set_page_1 at 32 (0x800000 + p * 0x400000) (p + 1) true k.curr_terminal_idx
                    k.paging;
            },
          ))

-- `set_handler` and `sigreturn`.
unfoldable pub set_handler : ℕ → ℕ → ℕ
set_handler signum handler_address = 0

unfoldable pub sigreturn : ℕ
sigreturn = 0
