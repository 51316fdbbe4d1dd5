-- ===== src/Process/Tests.antt =====
-- A running process, and the theorems on the system calls at work on it.
use illinix_os.Base.{
  get_elem?, ◌≢◌, ℕ, ◌+◌, ◌<◌, ◌≤◌, ◌≡◌, refl, ap, sym, ◌⊎◌, true, none, some, List, [], ◌∷◌, ◌>>=◌,
  arith, set, replicate, minus_one,
}
use mathlib.Core.Option.{some-injective}
use illinix_os.Process.Execute.Fresh.{new_table-IsTable}
use illinix_os.Descriptor.{FileOperationTable, FileDescriptor}
use illinix_os.FileSystem.{Image, Dentry, read_dentry_by_name, copy_dentry}
use illinix_os.Terminal.{Terminal}
use illinix_os.Process.{
  Pcb, Kernel, Drivers, cli, opened, cleared, put_table, sys_open, sys_close, sys_read, sys_write,
  last_process, free_descriptor,
}
use illinix_os.Process.Table.{IsTable}
use illinix_os.Process.Calls.{IsRunning, Opened, sys_open_lem}
use illinix_os.Process.Closing.{Refused, sys_close_lem, sys_close-sys_open}
use illinix_os.Process.Transfer.{NotServed, IsServed, served_read, sys_read_lem, sys_write_lem}
use illinix_os.Process.Driving.{IsDriver, sys_read-IsRunning}
use illinix_os.Process.Execute.{new_table, console, getargs}
use illinix_os.Process.Execute.Arguments.{getargs_lem}

-- Drivers that count their calls.
abbrev pub count : Drivers ℕ
count = record {
  on_open = λ t filename n. some (n + 1);
  on_read = λ t f buf nbytes n. some (nbytes, f, buf, n + 1);
  on_write = λ t fd buf nbytes n. some (nbytes, n + 1);
  enable_irq = λ line n. n;
}

abbrev blank : Dentry
blank = record {
  file_name = replicate 32 0;
  file_type = 0;
  inode_idx = 0;
  reserved = replicate 24 0;
}

-- The directory of an image with one file, "f".
abbrev file : Dentry
file = record {
  file_name = 0x66 ∷ replicate 31 0;
  file_type = 2;
  inode_idx = 1;
  reserved = replicate 24 0;
}

abbrev image : Image
image = record {
  boot_block = record { dir_num = 1; inode_num = 2; data_block_num = 0; dir_entry = file ∷ [] };
  inode_addr = [];
  bytes = [];
}

abbrev pub pcb : Pcb
pcb = record {
  file_descriptor_tabele = new_table;
  arg = 0x61 ∷ 0x62 ∷ 0 ∷ 0 ∷ [];
  parent_esp0 = 0;
  parent_ss0 = 0;
  parent_ebp = 0;
  parent_esp = 0;
  parent_pdbr = 0;
  curr_ebp = 0;
  curr_esp = 0;
  curr_pdbr = 0;
  curr_esp0 = 0;
}

abbrev pub terminal : Terminal
terminal = record {
  share_buf = [];
  typed_buf = [];
  typing_finish = 0;
  screen_x = 0;
  screen_y = 0;
  vid_on = 0;
  phys_mem_idx = 0 ∷ replicate 5 minus_one;
  video_mem = 0xB9000;
  curr_char_idx = 0;
  buffer_for_ec = [];
  buffer_ec_idx = 0;
  buffer_size = 0;
  hello_flag = 0;
}

abbrev pub kernel : Kernel ℕ
kernel = record {
  interrupts = true;
  terminals = terminal ∷ [];
  curr_terminal_idx = 0;
  curr_running_terminal_idx = 0;
  phys_addr_available = 0 ∷ 0 ∷ 0 ∷ 1 ∷ 1 ∷ 1 ∷ [];
  pcbs = pcb ∷ [];
  exception_flag = 0;
  cpu = record { esp = 0x7FFF00; ebp = 0x7FFF80; tss_esp0 = 0x800000; tss_ss0 = 0x18 };
  paging = record {
    pde_arr = λ d j. 0;
    pte_zero = λ j. 0;
    pte_one = λ j. 0;
    cr3 = 0x421000;
    pse = true;
    pg = true;
  };
  memory = [];
  world = 0;
}

pub kernel-IsRunning : IsRunning kernel 0 pcb
kernel-IsRunning = record {
  here = unfold last_process in refl;
  block = refl;
  table = new_table-IsTable;
}

abbrev wanted : List ℕ
wanted = 0x66 ∷ 0 ∷ []

wanted-found : read_dentry_by_name image (some wanted) blank ≡ some (0, copy_dentry blank file)
unfolding read_dentry_by_name
wanted-found = refl

abbrev found_entry : Dentry
found_entry = copy_dentry blank file

sys_open_lem_example :
    Opened kernel 0 pcb found_entry 1 (sys_open count image blank (some wanted) kernel)
sys_open_lem_example =
    sys_open_lem count image blank wanted found_entry kernel 0 pcb 1 kernel-IsRunning wanted-found
      refl

sys_close_lem_example :
    (Refused 2 new_table × (sys_close 2 kernel ≡ some (minus_one, kernel)))
    ⊎ ((2 ≤ 2)
        × (2 < 8)
        × ((f : FileDescriptor) × (get_elem? new_table 2 ≡ some f) × (f.flags ≢ 0))
        × (sys_close 2 kernel ≡ some (0, put_table 0 pcb (set new_table 2 cleared) kernel))
        × IsTable (set new_table 2 cleared))
sys_close_lem_example = sys_close_lem 2 kernel 0 pcb kernel-IsRunning

-- The state after "f" has been opened as descriptor 2.
abbrev with_file : Kernel ℕ
with_file = record (put_table 0 pcb (set new_table 2 (opened found_entry)) (cli kernel)) {
  world = 1;
}

opens : sys_open count image blank (some wanted) kernel ≡ some (2, with_file)
unfolding sys_open read_dentry_by_name free_descriptor last_process
opens = refl

sys_close-sys_open_example : sys_close 2 with_file ≡ some (0, record (cli kernel) { world = 1 })
sys_close-sys_open_example =
    sys_close-sys_open count image blank wanted found_entry kernel 0 pcb 1 2 with_file
      kernel-IsRunning wanted-found refl opens (λ e. omega arith)

sys_read_lem_example :
    (NotServed 1 0 new_table
      × (sys_read count 0 none 5 kernel ≡ some (minus_one, none, cli kernel)))
    ⊎ ((◌≢◌ {A = ℕ} 0 1)
        × (0 < 8)
        × (f : FileDescriptor) × (t : FileOperationTable) × IsServed new_table 0 f t
        × (sys_read count 0 none 5 kernel ≡ served_read count t f 0 none 5 0 pcb kernel))
sys_read_lem_example = sys_read_lem count 0 none 5 kernel 0 pcb kernel-IsRunning

sys_write_lem_example :
    (NotServed 0 1 new_table × (sys_write count 1 none 5 kernel ≡ some (minus_one, cli kernel)))
    ⊎ ((◌≢◌ {A = ℕ} 1 0)
        × (1 < 8)
        × (f : FileDescriptor) × (t : FileOperationTable) × IsServed new_table 1 f t
        × (sys_write count 1 none 5 kernel ≡ (
            count.on_write t 1 none 5 0 >>= λ r. some (r.0, record (cli kernel) { world = r.1 }))))
sys_write_lem_example = sys_write_lem count 1 none 5 kernel 0 pcb kernel-IsRunning

pub count-IsDriver : IsDriver count
count-IsDriver = record {
  pointer = λ t f f' buf buf' n v w w' h.
      ap (λ r. r.1.file_operation_table_ptr) (some-injective _ _ (sym h));
  flag = λ t f f' buf buf' n v w w' h. ap (λ r. r.1.flags) (some-injective _ _ (sym h));
}

reads :
    sys_read count 0 none 5 kernel
    ≡ some (
      5,
      none,
      record (put_table 0 pcb (set new_table 0 (console FileOperationTable.stdin)) (cli kernel)) {
        world = 1;
      },
    )
unfolding sys_read last_process
reads = refl

sys_read-IsRunning_example :
    (pcb' : Pcb) × IsRunning
      (record (put_table 0 pcb (set new_table 0 (console FileOperationTable.stdin)) (cli kernel)) {
        world = 1;
      })
      0
      pcb'
sys_read-IsRunning_example =
    sys_read-IsRunning count 0 none 5 kernel 0 pcb count-IsDriver kernel-IsRunning reads

getargs_lem_example :
    getargs (9 ∷ 9 ∷ 9 ∷ 9 ∷ []) 1 kernel ≡ some (0, 0x61 ∷ 0x62 ∷ 0 ∷ 9 ∷ [], kernel)
getargs_lem_example =
    getargs_lem (9 ∷ 9 ∷ 9 ∷ 9 ∷ []) 1 kernel 0 0x61 (0x62 ∷ []) (0 ∷ []) pcb
      (unfold last_process in refl) refl refl ((λ e. omega arith), ((λ e. omega arith), tt))
      (omega arith) (omega arith)
