-- ===== src/FileSystem/Files.antt =====
-- The operations of file_system.c on files and directories, which the jump tables `FILE_jumptable`
-- and `DIR_jumptable` hold, over the global variables of that file.
pub mod Reading
pub mod Draining
pub mod Listing
use illinix_os.Base.{
  ℕ, zero, suc, ◌+◌, ◌-◌, ◌&&◌, Option, none, some, List, ◌==◌, if◌then◌else◌, ◌>>=◌, get_elem?,
  add32, sub32, minus_one,
}
use illinix_os.Libc.{strlen, store}
use illinix_os.Descriptor.{FileDescriptor}
use illinix_os.FileSystem.{
  Image, Dentry, entry_bytes, read_dentry_by_name, read_dentry_by_index, read_data, file_name_l,
}

-- The globals `curr_dir_dentry`, `curr_file_dentry`, `last_round` and `directory_index`.
pub record Globals : Type 0 where
  pub curr_dir_dentry : Dentry
  pub curr_file_dentry : Dentry
  pub last_round : ℕ
  pub directory_index : ℕ

unfoldable pub file_open : Image → Option (List ℕ) → Globals → Option (ℕ × Globals)
unfolding read_dentry_by_name
file_open img filename g = read_dentry_by_name img filename g.curr_file_dentry >>= λ r.
    some (r.0, record g { last_round = 0; curr_file_dentry = r.1 })

pub file_close : ℕ → ℕ
file_close fd = 0

-- What `file_read` leaves: its value, the globals, the descriptor behind `fd` and the buffer.
pub record ReadResult : Type 0 where
  pub value : ℕ
  pub globals : Globals
  pub descriptor : FileDescriptor
  pub buf : List ℕ

unfoldable pub file_read : Image → FileDescriptor → List ℕ → ℕ → Globals → Option ReadResult
unfolding read_data
file_read img fd buf nbytes g = read_data img fd.inode fd.file_position buf nbytes >>= λ r.
    let len = r.0 in
    let fd' = record fd { file_position = add32 fd.file_position len } in
    if (len == 0) && (g.last_round == 0)
    then (get_elem? img.inode_addr fd.inode >>= λ node. some (record {
      value = sub32 node.length fd'.file_position;
      globals = record g { last_round = 1 };
      descriptor = fd';
      buf = r.1;
    }))
    else if (len == 0) && (g.last_round == 1)
    then some
        (record { value = 0; globals = record g { last_round = 0 }; descriptor = fd'; buf = r.1 })
    else some (record { value = len; globals = g; descriptor = fd'; buf = r.1 })

unfoldable pub file_write : ℕ → List ℕ → ℕ → ℕ
file_write fd buf nbytes = minus_one

-- The value of `read_dentry_by_name` is not looked at.
unfoldable pub dir_open : Image → Option (List ℕ) → Globals → Option (ℕ × Globals)
unfolding read_dentry_by_name
dir_open img filename g = read_dentry_by_name img filename g.curr_dir_dentry >>= λ r.
    some (if r.1.file_type == 1 then 0 else minus_one, record g { curr_dir_dentry = r.1 })

pub dir_close : ℕ → ℕ
dir_close fd = 0

-- The loop that copies the name, at `j`, with `ret - j` rounds left.
pub copy_name : List ℕ → ℕ → ℕ → List ℕ → Option (ℕ × List ℕ)
copy_name name zero j buf = some (j, buf)
copy_name name (suc left) j buf =
    if j == file_name_l
    then some (j, buf)
    else (get_elem? name j >>= λ c. store buf j c >>= λ buf'. copy_name name left (j + 1) buf')

unfoldable pub dir_read : Image → List ℕ → ℕ → Globals → Option (ℕ × Globals × List ℕ)
unfolding read_dentry_by_index copy_name strlen
dir_read img buf nbytes g = read_dentry_by_index img g.directory_index g.curr_dir_dentry >>= λ r.
    let g' = record g { curr_dir_dentry = r.1; directory_index = add32 g.directory_index 1 } in
    if r.0 == minus_one
    then some (0, record g' { directory_index = 0 }, buf)
    else (strlen (entry_bytes r.1) >>= λ ret.
        copy_name r.1.file_name ret 0 buf >>= λ out. some (out.0, g', out.1))

unfoldable pub dir_write : ℕ → List ℕ → ℕ → ℕ
dir_write fd buf nbytes = minus_one
