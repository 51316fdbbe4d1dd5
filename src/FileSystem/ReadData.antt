-- ===== src/FileSystem/ReadData.antt =====
-- file_system.c: `read_data` against the bytes of a file.
use illinix_os.Base.{
  leb→le, Bool-cases, ℕ, ◌+◌, ◌-◌, ◌/◌, ◌%◌, ◌≤◌, ◌<◌, ◌≡◌, refl, subst, ◌∙◌, inl, inr, false, some,
  List, arith, get_elem?, length, drop, min, leb, ◌==◌, if◌then◌else◌, sub32, add32,
}
use illinix_os.FileSystem.{Image, InodeBlock, Cursor, copy_from, read_data}
use illinix_os.FileSystem.Filled.{file_byte, IsFilled, IsFile}
use illinix_os.FileSystem.CopyLoops.{copy_blocks_lem}

-- A read inside a file, whatever `ret` is to be returned: `n` bytes from `offset` on come into the
-- first `n` bytes of the buffer, and no other byte of it changes.
pub copy_from_lem :
    (img : Image) (node : InodeBlock) (offset n ret : ℕ) (buf : List ℕ)
    → IsFile img node
    → offset + n ≤ node.length
    → n ≤ length buf
    → (out : List ℕ) × (copy_from img node offset buf n ret ≡ some (ret, out))
      × IsFilled (λ j. file_byte img node (offset + j)) 0 n buf out
unfolding copy_from
copy_from_lem img node offset n ret buf file within room =
    let start : Cursor = record {
      i = 0;
      curr_data_addr = offset % 4096;
      copy_length = n;
      buf = buf;
    } in
    let (c, e, f) =
      copy_blocks_lem img node file offset (drop (offset / 4096) node.data_block_idx)
        (offset / 4096) start refl (omega arith)
        (λ p. record { place = omega arith; room = omega arith; word = omega (arith, file.short) })
        (omega arith) in
    (
      c.buf,
      rw e refl,
      subst (λ hi. IsFilled (λ j. file_byte img node (offset + j)) 0 hi buf c.buf) (omega arith) f,
    )

read_data-enter :
    (img : Image) (inode offset n : ℕ) (buf : List ℕ) {node : InodeBlock}
    → get_elem? img.inode_addr inode ≡ some node
    → inode < img.boot_block.inode_num
    → 0 < node.length
    → node.length < 2147483648
    → offset ≤ node.length
    → offset + n < 4294967296
    → read_data img inode offset buf n ≡ (
        if leb (offset + n) node.length
        then copy_from img node offset buf n n
        else copy_from img node offset buf (node.length - offset) 0)
unfolding read_data
read_data-enter img inode offset n buf {node} e valid pos short within word =
    let in_range : leb img.boot_block.inode_num inode ≡ false = ground arith in
    let nonempty : (node.length == 0) ≡ false = ground arith in
    let sum : add32 offset n ≡ offset + n = omega arith in
    let rest : sub32 node.length offset ≡ node.length - offset = omega arith in
    rw (in_range, e, nonempty, sum, rest) refl

-- `read_data` at a position inside a file of a whole image, for `n` bytes that do not wrap the
-- 32-bit sum: it does not fault; it returns `n` if the file reaches that far and 0 if the file ends
-- before; the bytes of the file from `offset` on come into the front of the buffer, `n` of them or
-- as many as the file still has, and the rest of the buffer stays.
pub read_data_lem :
    (img : Image) (inode offset n : ℕ) (buf : List ℕ) {node : InodeBlock}
    → get_elem? img.inode_addr inode ≡ some node
    → inode < img.boot_block.inode_num
    → IsFile img node
    → 0 < node.length
    → offset ≤ node.length
    → offset + n < 4294967296
    → min n (node.length - offset) ≤ length buf
    → (out : List ℕ) × (read_data img inode offset buf n
        ≡ some (if leb (offset + n) node.length then n else 0, out))
      × IsFilled (λ j. file_byte img node (offset + j)) 0 (min n (node.length - offset)) buf out
read_data_lem img inode offset n buf {node} e valid file pos within word room =
    let enter = read_data-enter img inode offset n buf e valid pos file.short within word in
    elim (Bool-cases (leb (offset + n) node.length)) [
      | inl whole ↦
          let fits : offset + n ≤ node.length = leb→le _ _ whole in
          let (out, r, f) = copy_from_lem img node offset n n buf file fits (omega arith) in
          (
            out,
            enter ∙ rw whole r,
            subst (λ hi. IsFilled (λ j. file_byte img node (offset + j)) 0 hi buf out) (omega arith)
                f,
          )
      | inr short ↦
          let past : node.length < offset + n = ground arith in
          let (out, r, f) =
            copy_from_lem img node offset (node.length - offset) 0 buf file (omega arith)
              (omega arith) in
          (
            out,
            enter ∙ rw short r,
            subst (λ hi. IsFilled (λ j. file_byte img node (offset + j)) 0 hi buf out) (omega arith)
                f,
          )
    ]
