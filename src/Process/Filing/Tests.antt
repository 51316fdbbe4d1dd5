-- ===== src/Process/Filing/Tests.antt =====
-- A process that opens the file "frame" and reads two bytes of it.
use illinix_os.Base.{ℕ, ◌≡◌, refl, ◌≢◌, ◌⊎◌, some, List, [], arith, get_elem?, minus_one}
use illinix_os.Descriptor.{FileDescriptor}
use illinix_os.FileSystem.{copy_dentry}
use illinix_os.FileSystem.Filled.{file_byte, IsFilled}
use illinix_os.FileSystem.Tests.{
  dot, frame, node, image, image-IsFile, image-IsDirectory, wanted, wanted-strlen, finds, start,
  buffer,
}
use illinix_os.Process.{Kernel, cli, sys_open, sys_read, last_process}
use illinix_os.Process.Calls.{IsRunning}
use illinix_os.Process.Execute.{new_table}
use illinix_os.Process.Execute.Fresh.{new_table-IsTable}
use illinix_os.Process.Tests.{pcb, kernel, count}
use illinix_os.Process.Filing.{FileWorld, file_drivers}
use illinix_os.Process.Filing.Whole.{sys_read-sys_open}

abbrev filing : Kernel (FileWorld ℕ)
filing = record {
  interrupts = kernel.interrupts;
  terminals = kernel.terminals;
  curr_terminal_idx = 0;
  curr_running_terminal_idx = 0;
  phys_addr_available = kernel.phys_addr_available;
  pcbs = kernel.pcbs;
  exception_flag = 0;
  cpu = kernel.cpu;
  paging = kernel.paging;
  memory = [];
  world = record { globals = start; others = 0 };
}

filing-IsRunning : IsRunning filing 0 pcb
filing-IsRunning = record {
  here = unfold last_process in refl;
  block = refl;
  table = new_table-IsTable;
}

sys_read-sys_open_example :
    ((fd : ℕ) × (k1 k2 : Kernel (FileWorld ℕ)) × (out : List ℕ) × (sys_open
          (file_drivers image count)
          image
          dot
          (some wanted)
          filing
        ≡ some (fd, k1))
      × (sys_read (file_drivers image count) fd (some buffer) 2 k1 ≡ some (2, some out, k2))
      × IsFilled (file_byte image node) 0 2 buffer out)
    ⊎ (((j : ℕ) (f : FileDescriptor) → get_elem? new_table j ≡ some f → f.flags ≢ 0)
        × (sys_open (file_drivers image count) image dot (some wanted) filing
            ≡ some (minus_one, cli filing)))
sys_read-sys_open_example =
    sys_read-sys_open image count dot wanted (copy_dentry dot frame) node 2 buffer filing 0 pcb
      filing-IsRunning wanted-strlen image-IsDirectory finds refl refl (omega arith) image-IsFile
      (omega arith) (omega arith) (omega arith) (omega arith)
