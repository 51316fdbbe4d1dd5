-- ===== src/FileSystem/Tests.antt =====
-- A small image, and the theorems on the file system at work on it.
use illinix_os.Base.{
  ℕ, zero, suc, ◌+◌, ◌*◌, ◌<◌, ◌≡◌, refl, Option, some, List, [], ◌∷◌, arith, get_elem?, subst,
  replicate, length-replicate,
}
use illinix_os.Libc.{strlen}
use illinix_os.Descriptor.{FileDescriptor, FileOperationTable}
use illinix_os.FileSystem.{Image, Dentry, InodeBlock, read_data, read_dentry_by_name, copy_dentry}
use illinix_os.FileSystem.Filled.{IsFile, IsFilled, file_byte}
use illinix_os.FileSystem.ReadData.{read_data_lem}
use illinix_os.FileSystem.Lookup.{
  IsEntry, IsDirectory, FirstMatch, name, reply, read_dentry_by_name_lem,
}
use illinix_os.FileSystem.Files.{Globals, file_read}
use illinix_os.FileSystem.Files.Draining.{Reads, IsRest, file_read-drains}
use illinix_os.FileSystem.Files.Reading.{IsOpen, outcome, file_read_lem}

abbrev zeros : ℕ → List ℕ
zeros n = replicate n 0

-- The directory ".", the file "frame", both padded to 32 bytes.
abbrev pub dot : Dentry
dot = record { file_name = 0x2E ∷ zeros 31; file_type = 1; inode_idx = 0; reserved = zeros 24 }

abbrev pub frame : Dentry
frame = record {
  file_name = 0x66 ∷ 0x72 ∷ 0x61 ∷ 0x6D ∷ 0x65 ∷ zeros 27;
  file_type = 2;
  inode_idx = 0;
  reserved = zeros 24;
}

abbrev pub node : InodeBlock
node = record { length = 5; data_block_idx = 0 ∷ [] }

-- Five bytes of "hello", and the rest of the data block.
abbrev block : List ℕ
block = 0x68 ∷ 0x65 ∷ 0x6C ∷ 0x6C ∷ 0x6F ∷ zeros 4091

abbrev pub image : Image
image = record {
  boot_block = record {
    dir_num = 2;
    inode_num = 1;
    data_block_num = 1;
    dir_entry = dot ∷ frame ∷ [];
  };
  inode_addr = node ∷ [];
  bytes = block;
}

pub image-IsFile : IsFile image node
image-IsFile = record {
  pointers = pointers;
  storage = omega (arith, length-replicate {A = ℕ} 4091 0);
  few_blocks = omega arith;
  short = omega arith;
}
  where
    pointers : (k : ℕ) → k * 4096 < 5 → (b : ℕ) × (get_elem? (0 ∷ []) k ≡ some b) × (b < 1)
    pointers zero h = (0, refl, omega arith)
    pointers (suc k) h = absurd (omega arith)

abbrev pub buffer : List ℕ
buffer = 9 ∷ 9 ∷ 9 ∷ []

reads : read_data image 0 3 buffer 3 ≡ some (0, 0x6C ∷ 0x6F ∷ 9 ∷ [])
unfolding read_data
reads = refl

read_data_lem_example :
    (out : List ℕ) × (read_data image 0 3 buffer 3 ≡ some (0, out))
    × IsFilled (λ j. file_byte image node (3 + j)) 0 2 buffer out
read_data_lem_example =
    read_data_lem image 0 3 3 buffer refl (omega arith) image-IsFile (omega arith) (omega arith)
      (omega arith) (omega arith)

dot-IsEntry : IsEntry dot
dot-IsEntry = record { field = refl; stop = 1; terminated = unfold strlen in refl }

frame-IsEntry : IsEntry frame
frame-IsEntry = record { field = refl; stop = 5; terminated = unfold strlen in refl }

pub image-IsDirectory : IsDirectory image
image-IsDirectory = record { held = omega arith; count = omega arith; entries = entries }
  where
    entries : (j : ℕ) (e : Dentry) → get_elem? (dot ∷ frame ∷ []) j ≡ some e → IsEntry e
    entries zero e h = let same : dot ≡ e = cc in subst (λ d. IsEntry d) same dot-IsEntry
    entries (suc zero) e h = let same : frame ≡ e = cc in subst (λ d. IsEntry d) same frame-IsEntry
    entries (suc (suc j)) e h = cc

abbrev pub wanted : List ℕ
wanted = 0x66 ∷ 0x72 ∷ 0x61 ∷ 0x6D ∷ 0x65 ∷ 0 ∷ []

pub wanted-strlen : strlen wanted ≡ some 5
unfolding strlen
wanted-strlen = refl

pub finds : read_dentry_by_name image (some wanted) dot ≡ some (0, copy_dentry dot frame)
unfolding read_dentry_by_name
finds = refl

read_dentry_by_name_lem_example :
    (r : Option Dentry) × (read_dentry_by_name image (some wanted) dot ≡ some (reply dot r))
    × FirstMatch (name 32 wanted) 2 (dot ∷ frame ∷ []) r
read_dentry_by_name_lem_example =
    read_dentry_by_name_lem image wanted dot wanted-strlen image-IsDirectory

abbrev pub start : Globals
start = record {
  curr_dir_dentry = dot;
  curr_file_dentry = dot;
  last_round = 0;
  directory_index = 1;
}

abbrev opened : FileDescriptor
opened = record {
  file_operation_table_ptr = some FileOperationTable.file;
  inode = 0;
  file_position = 3;
  flags = 1;
}

opened-IsOpen : IsOpen image node opened
opened-IsOpen = record {
  here = refl;
  valid = omega arith;
  nonempty = omega arith;
  within = omega arith;
}

file_read_lem_example :
    (out : List ℕ) × (file_read image opened buffer 3 start
      ≡ some (outcome node opened 3 start out))
    × IsFilled (λ j. file_byte image node (3 + j)) 0 2 buffer out
file_read_lem_example =
    file_read_lem image node 3 opened buffer start image-IsFile opened-IsOpen (omega arith)
      (omega arith) (omega arith) (omega arith)

file_read-drains_example :
    (bytes : List ℕ) × Reads image 3 opened start buffer bytes × IsRest image node 3 bytes
file_read-drains_example =
    file_read-drains image node 3 image-IsFile (omega arith) (omega arith) opened start buffer
      opened-IsOpen refl (omega arith)
