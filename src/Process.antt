-- ===== src/Process.antt =====
-- system_call_handler.h and system_call_handler.c: the process control blocks and the system calls.
-- The file system, the clock and the terminals stand behind jump tables: here an interface.
pub mod Execute
pub mod Table
pub mod Calls
pub mod Transfer
pub mod Driving
pub mod Filing
pub mod Closing
mod Tests
use illinix_os.Base.{
  ℕ, zero, suc, ◌+◌, ◌-◌, ◌*◌, Bool, true, false, ◌||◌, ◌&&◌, not, Option, none, some, List, [],
  ◌∷◌, ◌==◌, ltb, leb, if◌then◌else◌, ◌>>=◌, get_elem?, set, minus_one, negative,
}
use illinix_os.Descriptor.{FileOperationTable, FileDescriptor}
use illinix_os.FileSystem.{Image, Dentry, read_dentry_by_name}
use illinix_os.Page.{Layout, Paging}
use illinix_os.Terminal.{Terminal}

-- `PCB_t`.
pub record Pcb : Type 0 where
  pub file_descriptor_tabele : List FileDescriptor
  pub arg : List ℕ
  pub parent_esp0 : ℕ
  pub parent_ss0 : ℕ
  pub parent_ebp : ℕ
  pub parent_esp : ℕ
  pub parent_pdbr : ℕ
  pub curr_ebp : ℕ
  pub curr_esp : ℕ
  pub curr_pdbr : ℕ
  pub curr_esp0 : ℕ

-- The registers and the fields of the `tss` that the system calls save and load.
pub record Cpu : Type 0 where
  pub esp : ℕ
  pub ebp : ℕ
  pub tss_esp0 : ℕ
  pub tss_ss0 : ℕ

-- The globals. `pcbs` are the blocks at `EIGHTMB-(i+1)*EIGHTKB`, `memory` the bytes of page `i`
-- of user memory from VMSTART on, and `world` is what the drivers keep.
pub record Kernel (W : Type 0) : Type 0 where
  pub interrupts : Bool
  pub terminals : List Terminal
  pub curr_terminal_idx : ℕ
  pub curr_running_terminal_idx : ℕ
  pub phys_addr_available : List ℕ
  pub pcbs : List Pcb
  pub exception_flag : ℕ
  pub cpu : Cpu
  pub paging : Paging
  pub memory : List (List ℕ)
  pub world : W

-- What the functions in a jump table do: `none` is a fault. The value of `open` is not looked at.
-- `read` is given the descriptor itself, `write` its number; a buffer of `none` is the null pointer.
pub record Drivers (W : Type 0) : Type 0 where
  pub on_open : FileOperationTable → List ℕ → W → Option W
  pub on_read :
      FileOperationTable
      → FileDescriptor
      → Option (List ℕ)
      → ℕ
      → W
      → Option (ℕ × FileDescriptor × Option (List ℕ) × W)
  pub on_write : FileOperationTable → ℕ → Option (List ℕ) → ℕ → W → Option (ℕ × W)
  pub enable_irq : ℕ → W → W

-- `for (i=0; i<SIX; i++) if (phys_mem_idx[i] == -1) break;`: the `i` at the end.
unfoldable pub first_unused : List ℕ → ℕ
first_unused [] = 0
first_unused (p ∷ ps) = if p == minus_one then 0 else first_unused ps + 1

-- `phys_mem_idx[i-1]` behind that loop: the process that runs on a terminal. At `i = 0` this is no
-- element of the array.
unfoldable pub last_process : List ℕ → Option ℕ
unfolding first_unused
last_process ps = let i = first_unused ps in if i == 0 then none else get_elem? ps (i - 1)

-- The first descriptor that is not in use.
pub free_descriptor : ℕ → List FileDescriptor → Option ℕ
free_descriptor i [] = none
free_descriptor i (fd ∷ fds) = if fd.flags == 0 then some i else free_descriptor (i + 1) fds

abbrev pub cleared : FileDescriptor
cleared = record { file_operation_table_ptr = none; inode = 0; file_position = 0; flags = 0 }

-- What `open` puts into the descriptor, by the type of the file.
abbrev pub opened : Dentry → FileDescriptor
opened d =
    if d.file_type == 0
    then record {
      file_operation_table_ptr = some FileOperationTable.rtc;
      inode = 0;
      file_position = 0;
      flags = 1;
    }
    else if d.file_type == 1
    then record {
      file_operation_table_ptr = some FileOperationTable.dir;
      inode = 0;
      file_position = 0;
      flags = 1;
    }
    else record {
      file_operation_table_ptr = some FileOperationTable.file;
      inode = d.inode_idx;
      file_position = 0;
      flags = 1;
    }

module _ {W : Type 0} where
  abbrev pub cli : Kernel W → Kernel W
  cli k = record k { interrupts = false }

  -- The number of the process that runs on the current running terminal.
  abbrev pub current : Kernel W → Option ℕ
  current k = get_elem? k.terminals k.curr_running_terminal_idx >>= λ t. last_process t.phys_mem_idx

  abbrev pub put_table : ℕ → Pcb → List FileDescriptor → Kernel W → Kernel W
  put_table p pcb fds k = record k {
    pcbs = set k.pcbs p (record pcb { file_descriptor_tabele = fds });
  }

  module _ (drivers : Drivers W) where
    -- The call through the pointer of a descriptor: a null pointer faults.
    abbrev pub call_open : FileDescriptor → List ℕ → W → Option W
    call_open fd filename w =
        fd.file_operation_table_ptr >>= λ table. drivers.on_open table filename w

    -- `open` from the search for a descriptor on, at its result.
    pub open_at : List ℕ → Dentry → ℕ → Pcb → Kernel W → Option ℕ → Option (ℕ × Kernel W)
    open_at filename d p pcb k none = some (minus_one, k)
    open_at filename d p pcb k (some fd) = call_open (opened d) filename k.world >>= λ w. some (
      fd,
      record (put_table p pcb (set pcb.file_descriptor_tabele fd (opened d)) k) { world = w },
    )

    -- The rest of `open`, for an entry that was found.
    pub open_entry : List ℕ → Dentry → Kernel W → Option (ℕ × Kernel W)
    unfolding open_at
    open_entry filename d k = current k >>= λ p. get_elem? k.pcbs p >>= λ pcb.
        open_at filename d p pcb k (free_descriptor 0 pcb.file_descriptor_tabele)

    -- `open`; `blank` is what the stack holds in `curr_dentry_open`, and `none` the null pointer.
    unfoldable pub sys_open : Image → Dentry → Option (List ℕ) → Kernel W → Option (ℕ × Kernel W)
    unfolding open_entry
    sys_open img blank none k = some (minus_one, cli k)
    sys_open img blank (some filename) k = read_dentry_by_name img (some filename) blank >>= λ r.
        if r.0 == minus_one then some (minus_one, cli k) else open_entry filename r.1 (cli k)

  -- `close`.
  unfoldable pub sys_close : ℕ → Kernel W → Option (ℕ × Kernel W)
  sys_close fd k =
      if negative fd || ltb 7 fd
      then some (minus_one, k)
      else (current k >>= λ p. get_elem? k.pcbs p >>= λ pcb.
          get_elem? pcb.file_descriptor_tabele fd >>= λ f.
          if ltb fd 2 || (f.flags == 0)
          then some (minus_one, k)
          else some (0, put_table p pcb (set pcb.file_descriptor_tabele fd cleared) k))

  module _ (drivers : Drivers W) where
    abbrev pub call_read :
        FileDescriptor → Option (List ℕ) → ℕ → W → Option (ℕ × FileDescriptor × Option (List ℕ) × W)
    call_read f buf nbytes w =
        f.file_operation_table_ptr >>= λ table. drivers.on_read table f buf nbytes w

    -- `read`: the value, the buffer and the state. The driver may change the descriptor.
    unfoldable pub sys_read :
        ℕ → Option (List ℕ) → ℕ → Kernel W → Option (ℕ × Option (List ℕ) × Kernel W)
    sys_read fd buf nbytes k =
        if (fd == 1) || (negative fd || ltb 7 fd)
        then some (minus_one, buf, cli k)
        else (current k >>= λ p. get_elem? k.pcbs p >>= λ pcb.
            get_elem? pcb.file_descriptor_tabele fd >>= λ f.
            if f.flags == 0
            then some (minus_one, buf, cli k)
            else (call_read f buf nbytes k.world >>= λ r. some (
              r.0,
              r.2,
              record (put_table p pcb (set pcb.file_descriptor_tabele fd r.1) (cli k)) {
                world = r.3;
              },
            )))

    -- `write`.
    unfoldable pub sys_write : ℕ → Option (List ℕ) → ℕ → Kernel W → Option (ℕ × Kernel W)
    sys_write fd buf nbytes k =
        if (fd == 0) || (negative fd || ltb 7 fd)
        then some (minus_one, cli k)
        else (current k >>= λ p. get_elem? k.pcbs p >>= λ pcb.
            get_elem? pcb.file_descriptor_tabele fd >>= λ f.
            if f.flags == 0
            then some (minus_one, cli k)
            else (f.file_operation_table_ptr >>= λ table.
                drivers.on_write table fd buf nbytes k.world >>= λ r.
                some (r.0, record (cli k) { world = r.1 })))
