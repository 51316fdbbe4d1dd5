-- ===== src/Process/Execute/Tests.antt =====
-- A shell that starts a program, and the end of the program.
use illinix_os.Base.{
  zero, suc, ◌+◌, ◌≡◌, refl, true, false, none, some, [], ◌∷◌, arith, replicate, minus_one,
}
use illinix_os.FileSystem.{Image, Dentry, read_data}
use illinix_os.Page.{Layout, set_page}
use illinix_os.Terminal.{Terminal}
use illinix_os.Process.{Pcb, Kernel, Drivers, first_unused}
use illinix_os.Process.Execute.{Frame, enters, resumes, new_pcb, launch, launched, halt, new_table}
use illinix_os.Process.Execute.Slots.{IsPacked, unused}
use illinix_os.Process.Execute.Family.{IsChild, IsBack, halt-launch}

abbrev pub idle : Drivers Unit
idle = record {
  on_open = λ t f w. some w;
  on_read = λ t f buf n w. some (0, f, buf, w);
  on_write = λ t fd buf n w. some (0, w);
  enable_irq = λ line w. w;
}

abbrev pub at : Layout
at = record { pte_zero = 0x410000; pte_one = 0x411000; pde = λ d. 0x420000 + d }

-- A program of 28 bytes, whose first instruction is at 0x08048074.
abbrev pub image : Image
image = record {
  boot_block = record { dir_num = 0; inode_num = 1; data_block_num = 1; dir_entry = [] };
  inode_addr = record { length = 28; data_block_idx = 0 ∷ [] } ∷ [];
  bytes =
      0x7F ∷ 0x45 ∷ 0x4C ∷ 0x46 ∷ 0 ∷ 0 ∷ 0 ∷ 0 ∷ 0 ∷ 0 ∷ 0 ∷ 0 ∷ 0 ∷ 0 ∷ 0 ∷ 0 ∷ 0 ∷ 0 ∷ 0 ∷ 0 ∷ 0
      ∷ 0 ∷ 0 ∷ 0 ∷ 0x74 ∷ 0x80 ∷ 0x04 ∷ 0x08 ∷ [];
}

abbrev pub program : Dentry
program = record { file_name = replicate 32 0; file_type = 2; inode_idx = 0; reserved = [] }

abbrev pub frame : Frame
frame = record {
  curr_dentry = program;
  buf_elf = 0 ∷ 0 ∷ 0 ∷ 0 ∷ [];
  instruct_start = 0 ∷ 0 ∷ 0 ∷ 0 ∷ [];
}

abbrev pub pcb : Pcb
pcb = record {
  file_descriptor_tabele = new_table;
  arg = 0 ∷ [];
  parent_esp0 = 0;
  parent_ss0 = 0;
  parent_ebp = 0;
  parent_esp = 0;
  parent_pdbr = 0;
  curr_ebp = 0;
  curr_esp = 0;
  curr_pdbr = 0;
  curr_esp0 = 0;
}

abbrev pub terminal : Terminal
terminal = record {
  share_buf = [];
  typed_buf = [];
  typing_finish = 0;
  screen_x = 0;
  screen_y = 0;
  vid_on = 1;
  phys_mem_idx = 0 ∷ replicate 5 minus_one;
  video_mem = 0xB9000;
  curr_char_idx = 0;
  buffer_for_ec = [];
  buffer_ec_idx = 0;
  buffer_size = 0;
  hello_flag = 0;
}

abbrev pub shell_runs : Kernel Unit
shell_runs = record {
  interrupts = false;
  terminals = terminal ∷ [];
  curr_terminal_idx = 0;
  curr_running_terminal_idx = 0;
  phys_addr_available = 0 ∷ 0 ∷ 0 ∷ 1 ∷ 1 ∷ 1 ∷ [];
  pcbs = pcb ∷ pcb ∷ pcb ∷ pcb ∷ [];
  exception_flag = 0;
  cpu = record { esp = 0x7FFF00; ebp = 0x7FFF80; tss_esp0 = 0x800000; tss_ss0 = 0x18 };
  paging = record {
    pde_arr = λ d j. 0;
    pte_zero = λ j. 0;
    pte_one = λ j. 0;
    cr3 = 0x420001;
    pse = true;
    pg = true;
  };
  memory = [] ∷ [] ∷ [] ∷ replicate 28 0 ∷ [];
  world = tt;
}

abbrev child_runs : Kernel Unit
child_runs =
    launched at image frame (3, 0 ∷ 0 ∷ 0 ∷ 0 ∷ 1 ∷ 1 ∷ []) terminal pcb (0 ∷ []) image.bytes
      shell_runs

enters_program :
    launch at image frame (some (3, 0 ∷ 0 ∷ 0 ∷ 0 ∷ 1 ∷ 1 ∷ [])) program none shell_runs
    ≡ some (enters 0x08048074, child_runs)
unfolding launch read_data
enters_program = refl

terminal-IsPacked : IsPacked terminal.phys_mem_idx
unfolding first_unused
terminal-IsPacked zero q low h = absurd (omega arith)
terminal-IsPacked (suc j) q low h = unused 5 j q h

-- The child, after an exception.
abbrev failed : Kernel Unit
failed = record child_runs { exception_flag = 1 }

abbrev child_pcb : Pcb
child_pcb =
    new_pcb 3 (0 ∷ []) shell_runs.cpu shell_runs.paging
      (set_page at 32 0x1400000 4 false 0 shell_runs.paging) pcb

failed-IsChild : IsChild child_runs failed 3
failed-IsChild = record {
  terminals = refl;
  running = refl;
  available = refl;
  first = child_pcb;
  now = child_pcb;
  block_first = refl;
  block_now = refl;
  esp = refl;
  ebp = refl;
  pdbr = refl;
  esp0 = refl;
  ss0 = refl;
}

halt-launch_example :
    (k' : Kernel Unit) × (halt at image frame idle 7 failed
      ≡ some (resumes 0x7FFF00 0x7FFF80 256, k'))
    × IsBack shell_runs k' terminal
halt-launch_example =
    halt-launch at image frame idle 3 program none shell_runs child_runs failed (enters 0x08048074)
      terminal 7 (omega arith) (omega arith) refl refl terminal-IsPacked
      (unfold first_unused in omega arith) enters_program failed-IsChild
