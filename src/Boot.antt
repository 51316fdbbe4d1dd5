-- ===== src/Boot.antt =====
-- terminal.c and kernel.c: the state that the kernel sets up at its start, and what it can come to
-- from there: ticks of the timer, system calls and other code, in any order.
pub mod Runs
mod Tests
use illinix_os.Base.{
  ℕ, zero, suc, ◌+◌, ◌*◌, ◌<◌, ◌≡◌, some, Option, List, [], ◌∷◌, replicate, minus_one,
}
use illinix_os.Io.{Devices}
use illinix_os.FileSystem.{Image}
use illinix_os.Page.{Layout}
use illinix_os.Terminal.{Terminal}
use illinix_os.Process.{Kernel, Drivers}
use illinix_os.Process.Execute.{Frame}
use illinix_os.Process.Execute.Stack.Sharing.{Step}
use illinix_os.Scheduler.{Machine, Switch, pit_init, pit_interrupt_handler}

-- What `terminal_init` puts into `terminals[i]`: the loops go over whole arrays.
abbrev pub init_terminal : ℕ → Terminal → Terminal
init_terminal i t = record t {
  curr_char_idx = 0;
  share_buf = replicate 128 0;
  typed_buf = replicate 128 0;
  buffer_ec_idx = 0;
  buffer_size = 0;
  hello_flag = 0;
  vid_on = 0;
  screen_x = 0;
  screen_y = 0;
  phys_mem_idx = replicate 6 minus_one;
  video_mem = 0xB8000 + (i + 1) * 4096;
}

-- The loop over the terminals, from `terminals[i]` on.
pub init_terminals : ℕ → List Terminal → List Terminal
init_terminals i [] = []
init_terminals i (t ∷ ts) = init_terminal i t ∷ init_terminals (i + 1) ts

module _ {W : Type 0} where
  -- `terminal_init`, but for the jump tables.
  unfoldable pub terminal_init : Machine W → Machine W
  unfolding init_terminals
  terminal_init m = record m {
    flag_first_execute = 1;
    kernel = record (m.kernel) {
      phys_addr_available = replicate 6 1;
      terminals = init_terminals 0 m.kernel.terminals;
      curr_terminal_idx = 0;
    };
  }

  -- The states that the kernel comes to after its start in `m`, the calls of `terminal_init` and
  -- `PIT_init` in `entry` and what follows. Only the scheduler changes the terminal that runs.
  pub data Run (dev : Devices) (at : Layout) (img : Image) (drivers : Drivers W) (m : Machine W)
      : Machine W → Type 0 where
    booted : Run dev at img drivers m (pit_init dev (terminal_init m))
    tick :
        {n n' : Machine W} (frame : Frame) (o : Switch)
        → Run dev at img drivers m n
        → pit_interrupt_handler at img frame drivers n ≡ some (o, n')
        → Run dev at img drivers m n'
    step :
        {n : Machine W} (k : Kernel W)
        → Run dev at img drivers m n
        → Step at img drivers n.kernel k
        → k.curr_running_terminal_idx ≡ n.kernel.curr_running_terminal_idx
        → Run dev at img drivers m (record n { kernel = k })
