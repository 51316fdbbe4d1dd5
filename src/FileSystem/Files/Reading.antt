-- ===== src/FileSystem/Files/Reading.antt =====
-- file_system.c: `file_read` against the bytes of a file.
use illinix_os.Base.{
  ℕ_discrete, ==_iff, ==_ne, ℕ, ◌+◌, ◌-◌, ◌≤◌, ◌<◌, ◌≡◌, refl, inl, inr, some, List, arith,
  get_elem?, length, min, leb, ◌==◌, if◌then◌else◌, Bool-cases, add32, sub32,
}
use illinix_os.Descriptor.{FileDescriptor}
use illinix_os.FileSystem.{Image, InodeBlock, read_data}
use illinix_os.FileSystem.Filled.{file_byte, IsFilled, IsFile}
use illinix_os.FileSystem.ReadData.{read_data_lem}
use illinix_os.FileSystem.Files.{Globals, ReadResult, file_read}

-- The descriptor is open at a position in the file `node`.
pub record IsOpen (img : Image) (node : InodeBlock) (fd : FileDescriptor) : Type 0 where
  pub here : get_elem? img.inode_addr fd.inode ≡ some node
  pub valid : fd.inode < img.boot_block.inode_num
  pub nonempty : 0 < node.length
  pub within : fd.file_position ≤ node.length

-- What a read of `n` bytes leaves, with `out` in the buffer: all of the `n` bytes and the position
-- behind them; or, where the file ends before, the count of the bytes that were left and the old
-- position, at first, and 0 the second time.
abbrev pub outcome : InodeBlock → FileDescriptor → ℕ → Globals → List ℕ → ReadResult
outcome node fd n g out =
    if leb (fd.file_position + n) node.length
    then record {
      value = n;
      globals = g;
      descriptor = record fd { file_position = fd.file_position + n };
      buf = out;
    }
    else if g.last_round == 0
    then record {
      value = node.length - fd.file_position;
      globals = record g { last_round = 1 };
      descriptor = fd;
      buf = out;
    }
    else record { value = 0; globals = record g { last_round = 0 }; descriptor = fd; buf = out }

add32_zero : {p : ℕ} → p < 2147483648 → add32 p 0 ≡ p
add32_zero h = omega arith

file_read-eq-outcome :
    (img : Image) (node : InodeBlock) (n : ℕ) (fd : FileDescriptor) (buf out : List ℕ) (g : Globals)
    → IsFile img node
    → IsOpen img node fd
    → 0 < n
    → n < 2147483648
    → g.last_round ≤ 1
    → read_data img fd.inode fd.file_position buf n
      ≡ some (if leb (fd.file_position + n) node.length then n else 0, out)
    → file_read img fd buf n g ≡ some (outcome node fd n g out)
unfolding file_read
file_read-eq-outcome img node n fd buf out g file opened pos word flag r =
    let low : fd.file_position < 2147483648 = omega (arith, file.short, opened.within) in
    let at = fd.file_position in
    elim (Bool-cases (leb (at + n) node.length)) [
      | inl whole ↦
          let sum : add32 at n ≡ at + n = omega arith in
          rw (r, whole, ==_ne n 0 (omega arith), sum) refl
      | inr short ↦ elim (ℕ_discrete g.last_round 0) [
        | yes first ↦
            let rest : sub32 node.length at ≡ node.length - at =
              omega (arith, file.short, opened.within) in
            rw (r, short, (==_iff g.last_round 0).1 first, opened.here, add32_zero low, rest) refl
        | no again ↦
            let second : g.last_round ≡ 1 = omega arith in
            rw
              (
                r,
                short,
                ==_ne g.last_round 0 again,
                (==_iff g.last_round 1).1 second,
                add32_zero low,
              )
              refl
      ]
    ]

-- `file_read` on an open file of a whole image does not fault: it puts the bytes from the position
-- on into the front of the buffer, `n` of them or as many as are left, changes no other byte of it,
-- and returns what `outcome` says.
pub file_read_lem :
    (img : Image) (node : InodeBlock) (n : ℕ) (fd : FileDescriptor) (buf : List ℕ) (g : Globals)
    → IsFile img node
    → IsOpen img node fd
    → 0 < n
    → n < 2147483648
    → g.last_round ≤ 1
    → min n (node.length - fd.file_position) ≤ length buf
    → (out : List ℕ) × (file_read img fd buf n g ≡ some (outcome node fd n g out))
      × IsFilled
          (λ j. file_byte img node (fd.file_position + j))
          0
          (min n (node.length - fd.file_position))
          buf
          out
file_read_lem img node n fd buf g file opened pos word flag room =
    let (out, r, f) =
      read_data_lem img fd.inode fd.file_position n buf opened.here opened.valid file
        opened.nonempty opened.within (omega (arith, file.short, opened.within)) room in
    (out, file_read-eq-outcome img node n fd buf out g file opened pos word flag r, f)
