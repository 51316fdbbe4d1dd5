-- ===== src/Process/Filing.antt =====
-- file_system.c: the jump tables that `file_sys_init` fills in, as drivers of the system calls. The
-- drivers of the clock and of the terminals are a parameter.
pub mod Law
pub mod Whole
mod Tests
use illinix_os.Base.{ℕ, Option, none, some, List, [], ◌>>=◌}
use illinix_os.Descriptor.{FileOperationTable, FileDescriptor, stdin, stdout, rtc, dir, file}
use illinix_os.FileSystem.{Image}
use illinix_os.FileSystem.Files.{
  Globals, file_open, file_read, file_write, dir_open, dir_read, dir_write,
}
use illinix_os.Process.{Drivers}

-- The globals of file_system.c, and what the other drivers keep.
pub record FileWorld (V : Type 0) : Type 0 where
  pub globals : Globals
  pub others : V

-- The bytes behind a pointer: a null pointer has none, so that a store through it faults.
abbrev pub behind : Option (List ℕ) → List ℕ
behind none = []
behind (some buf) = buf

-- What a buffer of `none` or of bytes is after it has been written to.
abbrev pub written : Option (List ℕ) → List ℕ → Option (List ℕ)
written none bytes = none
written (some buf) bytes = some bytes

module _ {V : Type 0} (img : Image) (drivers : Drivers V) where
  -- The functions `open` of the jump tables.
  unfoldable pub open_with : FileOperationTable → List ℕ → FileWorld V → Option (FileWorld V)
  open_with file filename w =
      file_open img (some filename) w.globals >>= λ r. some (record w { globals = r.1 })
  open_with dir filename w =
      dir_open img (some filename) w.globals >>= λ r. some (record w { globals = r.1 })
  open_with table filename w =
      drivers.on_open table filename w.others >>= λ v. some (record w { others = v })

  -- The functions `read` of the other jump tables.
  abbrev pub read_other :
      FileOperationTable
      → FileDescriptor
      → Option (List ℕ)
      → ℕ
      → FileWorld V
      → Option (ℕ × FileDescriptor × Option (List ℕ) × FileWorld V)
  read_other table f buf nbytes w = drivers.on_read table f buf nbytes w.others >>= λ r.
      some (r.0, r.1, r.2, record w { others = r.3 })

  -- The functions `read`.
  unfoldable pub read_with :
      FileOperationTable
      → FileDescriptor
      → Option (List ℕ)
      → ℕ
      → FileWorld V
      → Option (ℕ × FileDescriptor × Option (List ℕ) × FileWorld V)
  read_with file f buf nbytes w = file_read img f (behind buf) nbytes w.globals >>= λ r.
      some (r.value, r.descriptor, written buf r.buf, record w { globals = r.globals })
  read_with dir f buf nbytes w = dir_read img (behind buf) nbytes w.globals >>= λ r.
      some (r.0, f, written buf r.2, record w { globals = r.1 })
  read_with table f buf nbytes w = read_other table f buf nbytes w

  -- The functions `write`.
  unfoldable pub write_with :
      FileOperationTable → ℕ → Option (List ℕ) → ℕ → FileWorld V → Option (ℕ × FileWorld V)
  write_with file fd buf nbytes w = some (file_write fd (behind buf) nbytes, w)
  write_with dir fd buf nbytes w = some (dir_write fd (behind buf) nbytes, w)
  write_with table fd buf nbytes w =
      drivers.on_write table fd buf nbytes w.others >>= λ r. some (r.0, record w { others = r.1 })

  -- `file_sys_init`: the drivers with its jump tables.
  abbrev pub file_drivers : Drivers (FileWorld V)
  file_drivers = record {
    on_open = open_with;
    on_read = read_with;
    on_write = write_with;
    enable_irq = λ line w. record w { others = drivers.enable_irq line w.others };
  }
