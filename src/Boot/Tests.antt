-- ===== src/Boot/Tests.antt =====
-- The start of the kernel, and a program on the first terminal.
use illinix_os.Base.{arith, ℕ, ◌≡◌, refl, some, replicate}
use illinix_os.Io.{Devices}
use illinix_os.Libc.{strlen, strncmp}
use illinix_os.FileSystem.{read_dentry_by_name, read_data}
use illinix_os.Process.{Kernel}
use illinix_os.Process.Execute.{enters, execute, push_process}
use illinix_os.Process.Execute.Command.{parse_command}
use illinix_os.Process.Execute.Tests.{idle, at, frame}
use illinix_os.Process.Execute.Stack.Tests.{disk, command}
use illinix_os.Scheduler.{Machine, pit_init}
use illinix_os.Scheduler.Tests.{machine}
use illinix_os.Scheduler.Turns.{IsSteady}
use illinix_os.Boot.{terminal_init, booted}
use illinix_os.Page.Translate.{IsAligned}
use illinix_os.Process.Execute.Stack.Memory.{IsIsolated}
use illinix_os.Boot.Runs.{Run-IsSteady, Run-IsIsolated}

abbrev silent : Devices
silent t port = 0

abbrev empty : Machine Unit
empty = record machine {
  kernel = record (machine.kernel) { memory = replicate 6 (replicate 28 0) };
}

abbrev begun : Machine Unit
begun = pit_init silent (terminal_init empty)

ran :
    (k : Kernel Unit) × (execute at disk frame idle (some command) begun.kernel
      ≡ some (enters 0x08048074, k))
unfolding pit_init terminal_init execute parse_command read_dentry_by_name strlen strncmp read_data
    push_process
ran = (_, refl)

Run-IsSteady_example : IsSteady begun
Run-IsSteady_example = Run-IsSteady silent at disk idle empty begun booted

at-IsAligned : IsAligned at
at-IsAligned = record { zero_aligned = refl; one_aligned = refl; apart = λ e. omega arith }

Run-IsIsolated_example : (p : ℕ) × IsIsolated at begun.kernel ran.0 p
Run-IsIsolated_example =
    Run-IsIsolated silent at disk idle empty begun frame (some command) ran.0 0x08048074
      at-IsAligned booted ran.1
