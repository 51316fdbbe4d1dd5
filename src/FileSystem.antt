-- ===== src/FileSystem.antt =====
-- file_system.h and file_system.c: the read-only file system over the boot image. Here the on-disk
-- structures, the lookups and `read_data`.
pub mod Filled
pub mod CopyLoops
pub mod ReadData
pub mod Files
pub mod Tests
pub mod Lookup
use illinix_os.Base.{
  ℕ, zero, suc, ◌+◌, ◌-◌, ◌*◌, ◌/◌, ◌%◌, Bool, true, false, ◌||◌, not, Option, none, some, List, [],
  ◌∷◌, ◌++◌, ◌==◌, ltb, leb, if◌then◌else◌, ◌>>=◌, get_elem?, length, drop, min, u8, add32, sub32,
  negative, minus_one,
}
use illinix_os.Libc.{strlen, store}

-- `dentry_t`.
pub record Dentry : Type 0 where
  pub file_name : List ℕ
  pub file_type : ℕ
  pub inode_idx : ℕ
  pub reserved : List ℕ

-- `boot_block_t`, without its reserved bytes.
pub record BootBlock : Type 0 where
  pub dir_num : ℕ
  pub inode_num : ℕ
  pub data_block_num : ℕ
  pub dir_entry : List Dentry

-- `inode_block_t`.
pub record InodeBlock : Type 0 where
  pub length : ℕ
  pub data_block_idx : List ℕ

-- The image that `file_sys_init` points `boot_block` and `inode_addr` into: `bytes` are the data
-- blocks, which start at `inode_addr + boot_block->inode_num`.
pub record Image : Type 0 where
  pub boot_block : BootBlock
  pub inode_addr : List InodeBlock
  pub bytes : List ℕ

abbrev pub four_kilobytes : ℕ
four_kilobytes = 4096

-- FILE_NAME_L, and the FOURBYTES of the copy loops.
abbrev pub file_name_l : ℕ
file_name_l = 32

-- The four bytes of a field in memory.
abbrev pub le32 : ℕ → List ℕ
le32 x = (x % 256) ∷ (x / 256 % 256) ∷ (x / 65536 % 256) ∷ (x / 16777216 % 256) ∷ []

abbrev pub entry_fields : Dentry → List ℕ
entry_fields d = d.file_name ++ (le32 d.file_type ++ le32 d.inode_idx)

-- The 64 bytes of an entry: a name of 32 bytes has no NUL of its own, and `strlen` reads on into
-- the fields behind it.
abbrev pub entry_bytes : Dentry → List ℕ
entry_bytes d = entry_fields d ++ d.reserved

-- `if (len>32) len = 32;`
abbrev pub cap_name : ℕ → ℕ
cap_name len = if ltb file_name_l len then file_name_l else len

-- The loop that compares `len` bytes; `false` is `cmp_flag = 0`.
pub same_bytes : ℕ → List ℕ → List ℕ → Option Bool
same_bytes zero s t = some true
same_bytes (suc n) (x ∷ s) (y ∷ t) = if x == y then same_bytes n s t else some false
same_bytes (suc n) _ _ = none

-- One round of the search loop: whether the name `fname` is that of the entry `d`.
pub entry_matches : List ℕ → Dentry → Option Bool
unfolding strlen same_bytes
entry_matches fname d = strlen fname >>= λ len. strlen (entry_bytes d) >>= λ curr_file_len.
    if not (cap_name len == cap_name curr_file_len)
    then some false
    else same_bytes (cap_name len) fname d.file_name

-- The search loop, over the entries that are left: `some none` is `found == 0` at its end.
pub find_entry : List ℕ → ℕ → List Dentry → Option (Option Dentry)
find_entry fname zero ds = some none
find_entry fname (suc n) [] = none
find_entry fname (suc n) (d ∷ ds) = entry_matches fname d >>= λ found. elim found [
  | true ↦ some (some d)
  | false ↦ find_entry fname n ds
]

-- What is copied into the caller's `dentry`; its reserved bytes stay.
abbrev pub copy_dentry : Dentry → Dentry → Dentry
copy_dentry to d = record to {
  file_name = d.file_name;
  file_type = d.file_type;
  inode_idx = d.inode_idx;
}

-- `i<boot_block->dir_num` compares signed numbers: a negative count is none.
abbrev pub rounds : ℕ → ℕ
rounds n = if negative n then 0 else n

-- The return value, and the caller's `dentry`. `none` for `fname` is the null pointer.
unfoldable pub read_dentry_by_name : Image → Option (List ℕ) → Dentry → Option (ℕ × Dentry)
unfolding find_entry entry_matches
read_dentry_by_name img none dentry = some (minus_one, dentry)
read_dentry_by_name img (some fname) dentry =
    find_entry fname (rounds img.boot_block.dir_num) img.boot_block.dir_entry >>= λ found.
    elim found [ some d ↦ some (0, copy_dentry dentry d) | none ↦ some (minus_one, dentry) ]

pub read_dentry_by_index : Image → ℕ → Dentry → Option (ℕ × Dentry)
read_dentry_by_index img index dentry =
    if leb img.boot_block.dir_num index
    then some (minus_one, dentry)
    else (get_elem? img.boot_block.dir_entry index >>= λ d. some (0, copy_dentry dentry d))

-- The variables of the copy loops of `read_data`.
pub record Cursor : Type 0 where
  pub i : ℕ
  pub curr_data_addr : ℕ
  pub copy_length : ℕ
  pub buf : List ℕ

-- One byte copied: `buf[i]=…; i++; curr_data_addr++; copy_length--;`
abbrev pub advance : Cursor → List ℕ → Cursor
advance c buf = record {
  i = c.i + 1;
  curr_data_addr = c.curr_data_addr + 1;
  copy_length = sub32 c.copy_length 1;
  buf = buf;
}

-- The inner loop, in the block `curr_data_idx`, with `FOURKILOBYTES - curr_data_addr` rounds left.
pub copy_block : Image → ℕ → ℕ → Cursor → Option Cursor
copy_block img curr_data_idx zero c = some c
copy_block img curr_data_idx (suc left) c =
    get_elem? img.bytes (curr_data_idx * four_kilobytes + c.curr_data_addr) >>= λ byte.
    store c.buf c.i byte >>= λ buf.
    let rest = copy_block img curr_data_idx left (advance c buf) in
    if (advance c buf).copy_length == 0 then some (advance c buf) else rest

-- The outer loop, over the pointers `data_block_idx[offset_data_block_idx..]` that are left. The
-- flag is `false` for the early `return -1`. A read past the array of pointers faults.
pub copy_blocks : Image → List ℕ → Cursor → Option (Bool × Cursor)
unfolding copy_block
copy_blocks img [] c = if c.copy_length == 0 then some (true, c) else none
copy_blocks img (curr_data_idx ∷ ptrs) c =
    if c.copy_length == 0
    then some (true, c)
    else if negative curr_data_idx || leb (rounds img.boot_block.data_block_num) curr_data_idx
    then some (false, c)
    else (copy_block img curr_data_idx (four_kilobytes - c.curr_data_addr) c >>= λ c'.
        copy_blocks img ptrs (record c' { curr_data_addr = 0 }))

-- The copy of `copy_length` bytes from `offset` on, and the value that `read_data` returns.
pub copy_from : Image → InodeBlock → ℕ → List ℕ → ℕ → ℕ → Option (ℕ × List ℕ)
unfolding copy_blocks
copy_from img node offset buf copy_length ret =
    copy_blocks img (drop (offset / four_kilobytes) node.data_block_idx) (record {
      i = 0;
      curr_data_addr = offset % four_kilobytes;
      copy_length = copy_length;
      buf = buf;
    })
    >>= λ done. some (if done.0 then ret else minus_one, done.1.buf)

-- The return value, and the caller's buffer.
unfoldable pub read_data : Image → ℕ → ℕ → List ℕ → ℕ → Option (ℕ × List ℕ)
unfolding copy_from
read_data img inode offset buf len =
    if leb img.boot_block.inode_num inode
    then some (minus_one, buf)
    else (get_elem? img.inode_addr inode >>= λ node.
        if node.length == 0
        then some (minus_one, buf)
        else if leb (add32 offset len) node.length
        then copy_from img node offset buf len len
        else copy_from img node offset buf (sub32 node.length offset) 0)
