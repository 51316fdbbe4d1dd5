-- ===== src/FileSystem/CopyLoops.antt =====
-- file_system.c: the two copy loops of `read_data`, at a file of a whole image.
use illinix_os.Base.{
  ◌||◌, ℕ, zero, suc, ◌+◌, ◌-◌, ◌*◌, ◌/◌, ◌%◌, ◌≤◌, ◌<◌, ◌≡◌, refl, ap, subst, subst₂, ◌∙◌, true,
  false, Option, some, List, [], ◌∷◌, arith, get_elem?, set, length, drop, min, leb, ◌==◌,
  if◌then◌else◌, lt→ltb, ℕ_discrete, ==_iff, length-set, sub32, negative,
}
use illinix_os.FileSystem.{Image, InodeBlock, Cursor, advance, copy_block, copy_blocks, rounds}
use illinix_os.FileSystem.Filled.{
  file_byte, IsFilled, IsFilled-empty, IsFilled-store, IsFilled-trans, IsFile, get_elem?-some,
  drop-get_elem?,
}

sub32_one : (n : ℕ) → 0 < n → n < 4294967296 → sub32 n 1 ≡ n - 1
sub32_one n pos word = omega arith

good_pointer : (b num : ℕ) → b < num → num < 2147483648 → (negative b || leb (rounds num) b) ≡ false
good_pointer b num h w = ground arith

-- The loops at the file `node`, for a read that starts at `offset`.
module _ (img : Image) (node : InodeBlock) (file : IsFile img node) (offset : ℕ) where
  abbrev pub source : ℕ → Option ℕ
  source j = file_byte img node (offset + j)

  -- `c'` is `c` after `n` more bytes.
  pub record IsCopied (n : ℕ) (c c' : Cursor) : Type 0 where
    pub moved : c'.i ≡ c.i + n
    pub left : c'.copy_length ≡ c.copy_length - n
    pub filled : IsFilled source c.i (c.i + n) c.buf c'.buf

  -- The cursor stands at byte `addr` of the `k`-th block of the file, with room for what is left.
  pub record IsAt (k : ℕ) (c : Cursor) : Type 0 where
    pub place : offset + c.i ≡ k * 4096 + c.curr_data_addr
    pub room : c.i + c.copy_length ≤ length c.buf
    pub word : c.copy_length < 4294967296

  byte_here :
      (k b byte : ℕ) (c : Cursor)
      → IsAt k c
      → c.curr_data_addr < 4096
      → get_elem? node.data_block_idx k ≡ some b
      → get_elem? img.bytes (b * 4096 + c.curr_data_addr) ≡ some byte
      → source c.i ≡ some byte
  byte_here k b byte c at low ptr e =
      let q : (offset + c.i) / 4096 ≡ k = omega arith in
      let m : (offset + c.i) % 4096 ≡ c.curr_data_addr = omega arith in rw (q, m, ptr) e

  IsCopied-one :
      (k b byte : ℕ) (c : Cursor)
      → 0 < c.copy_length
      → c.curr_data_addr < 4096
      → get_elem? node.data_block_idx k ≡ some b
      → get_elem? img.bytes (b * 4096 + c.curr_data_addr) ≡ some byte
      → IsAt k c
      → IsCopied 1 c (advance c (set c.buf c.i byte))
  IsCopied-one k b byte c pos low ptr e at = record {
    moved = refl;
    left = omega arith;
    filled = IsFilled-store c.i byte c.buf (omega arith) (byte_here k b byte c at low ptr e);
  }

  IsCopied-trans :
      (m n : ℕ) {c c' c'' : Cursor} → IsCopied m c c' → IsCopied n c' c'' → IsCopied (m + n) c c''
  IsCopied-trans m n {c} {c'} {c''} f g = record {
    moved = omega arith;
    left = omega arith;
    filled =
        IsFilled-trans {mid = c.i + m} (omega arith) (omega arith) f.filled
          (subst₂ (λ lo hi. IsFilled source lo hi c'.buf c''.buf) f.moved (omega arith) g.filled);
  }

  copy_block-step :
      (r b byte : ℕ) (c : Cursor)
      → c.i < length c.buf
      → get_elem? img.bytes (b * 4096 + c.curr_data_addr) ≡ some byte
      → copy_block img b (suc r) c ≡ (
          if (advance c (set c.buf c.i byte)).copy_length == 0
          then some (advance c (set c.buf c.i byte))
          else copy_block img b r (advance c (set c.buf c.i byte)))
  unfolding copy_block
  copy_block-step r b byte c fits e = rw (e, lt→ltb _ _ fits)

  -- One round of the inner loop, given what the rounds after it do.
  copy_block-next :
      (r k b byte : ℕ) (c : Cursor)
      → 0 < c.copy_length
      → c.curr_data_addr < 4096
      → get_elem? node.data_block_idx k ≡ some b
      → get_elem? img.bytes (b * 4096 + c.curr_data_addr) ≡ some byte
      → IsAt k c
      → ((c1 : Cursor)
          → IsAt k c1
          → 0 < c1.copy_length
          → c1.curr_data_addr ≡ c.curr_data_addr + 1
          → (c' : Cursor) × (copy_block img b r c1 ≡ some c')
            × IsCopied (min r c1.copy_length) c1 c')
      → (c' : Cursor) × (copy_block img b (suc r) c ≡ some c')
        × IsCopied (min (suc r) c.copy_length) c c'
  copy_block-next r k b byte c pos low ptr eb at rest =
      let c1 : Cursor = advance c (set c.buf c.i byte) in
      let one : IsCopied 1 c c1 = IsCopied-one k b byte c pos low ptr eb at in
      let step = copy_block-step r b byte c (omega arith) eb in
      elim (ℕ_discrete c.copy_length 1) [
        | yes last ↦
            let done : (c1.copy_length == 0) ≡ true = (==_iff _ 0).1 (omega arith) in
            (c1, step ∙ rw done refl, subst (λ n. IsCopied n c c1) (omega arith) one)
        | no more ↦
            let going : (c1.copy_length == 0) ≡ false = ground arith in
            let at1 : IsAt k c1 = record {
              place = omega arith;
              room = rw length-set (omega arith);
              word = omega arith;
            } in
            let (c', e', f) = rest c1 at1 (omega arith) refl in
            (
              c',
              step ∙ rw going e',
              subst (λ n. IsCopied n c c') (omega arith) (IsCopied-trans 1 _ one f),
            )
      ]

  copy_block_lem :
      (r k b : ℕ) (c : Cursor)
      → c.curr_data_addr + r ≡ 4096
      → 0 < c.copy_length
      → get_elem? node.data_block_idx k ≡ some b
      → b < img.boot_block.data_block_num
      → IsAt k c
      → (c' : Cursor) × (copy_block img b r c ≡ some c') × IsCopied (min r c.copy_length) c c'
  copy_block_lem zero k b c e pos ptr small at = (
    c,
    unfold copy_block in refl,
    record {
      moved = omega arith;
      left = omega arith;
      filled = IsFilled-empty c.i (c.i + min 0 c.copy_length) c.buf (omega arith);
    },
  )
  copy_block_lem (suc r) k b c e pos ptr small at =
      let (byte, eb) =
        get_elem?-some img.bytes (b * 4096 + c.curr_data_addr) (grind (arith, file.storage)) in
      copy_block-next r k b byte c pos (omega arith) ptr eb at
        λ c1 at1 pos1 addr1. copy_block_lem r k b c1 (omega arith) pos1 ptr small at1

  -- One round of the outer loop, given what the rounds after it do.
  copy_blocks-next :
      (ptrs : List ℕ) (k b : ℕ) (c : Cursor)
      → 0 < c.copy_length
      → c.curr_data_addr < 4096
      → IsAt k c
      → offset + c.i + c.copy_length ≤ node.length
      → get_elem? node.data_block_idx k ≡ some b
      → b < img.boot_block.data_block_num
      → ((c1 : Cursor)
          → c1.curr_data_addr ≡ 0
          → (0 < c1.copy_length → IsAt (suc k) c1)
          → offset + c1.i + c1.copy_length ≤ node.length
          → (c' : Cursor) × (copy_blocks img ptrs c1 ≡ some (true, c'))
            × IsFilled source c1.i (c1.i + c1.copy_length) c1.buf c'.buf)
      → (c' : Cursor) × (copy_blocks img (b ∷ ptrs) c ≡ some (true, c'))
        × IsFilled source c.i (c.i + c.copy_length) c.buf c'.buf
  unfolding copy_blocks
  copy_blocks-next ptrs k b c pos low at within ptr small rest =
      let (c1, e1, f) =
        copy_block_lem (4096 - c.curr_data_addr) k b c (omega arith) pos ptr small at in
      let c2 : Cursor = record c1 { curr_data_addr = 0 } in
      let at2 : 0 < c2.copy_length → IsAt (suc k) c2 = λ p. record {
        place = omega arith;
        room = omega (arith, f.filled.same_length);
        word = omega arith;
      } in
      let (c', e', g) = rest c2 refl at2 (omega arith) in
      let busy : (c.copy_length == 0) ≡ false = ground arith in
      let good : (negative b || leb (rounds img.boot_block.data_block_num) b) ≡ false =
        good_pointer b img.boot_block.data_block_num small file.few_blocks in
      (
        c',
        rw (busy, good, e1) e',
        IsFilled-trans {mid = c.i + min (4096 - c.curr_data_addr) c.copy_length} (omega arith)
            (omega arith) f.filled
            (subst₂ (λ lo hi. IsFilled source lo hi c1.buf c'.buf) f.moved (omega arith) g),
      )

  pub copy_blocks_lem :
      (ptrs : List ℕ) (k : ℕ) (c : Cursor)
      → ptrs ≡ drop k node.data_block_idx
      → c.curr_data_addr < 4096
      → (0 < c.copy_length → IsAt k c)
      → offset + c.i + c.copy_length ≤ node.length
      → (c' : Cursor) × (copy_blocks img ptrs c ≡ some (true, c'))
        × IsFilled source c.i (c.i + c.copy_length) c.buf c'.buf
  copy_blocks_lem [] k c e low at within = elim (ℕ_discrete c.copy_length 0) [
    | yes done ↦ (
      c,
      unfold copy_blocks in rw ((==_iff c.copy_length 0).1 done) refl,
      IsFilled-empty c.i (c.i + c.copy_length) c.buf (omega arith),
    )
    | no more ↦
        let here = at (omega arith) in
        let (b, eb, small) = file.pointers k (omega arith) in
        absurd (cc (drop-get_elem? node.data_block_idx k eb))
  ]
  copy_blocks_lem (b' ∷ ptrs) k c e low at within = elim (ℕ_discrete c.copy_length 0) [
    | yes done ↦ (
      c,
      unfold copy_blocks in rw ((==_iff c.copy_length 0).1 done) refl,
      IsFilled-empty c.i (c.i + c.copy_length) c.buf (omega arith),
    )
    | no more ↦
        let here = at (omega arith) in
        let (b, eb, small) = file.pointers k (omega arith) in
        let split = drop-get_elem? node.data_block_idx k eb in
        let same : b ≡ b' = cc split in
        copy_blocks-next ptrs k b' c (omega arith) low here within (eb ∙ ap some same)
          (subst (λ x. x < img.boot_block.data_block_num) same small)
          λ c1 e1 at1 within1. copy_blocks_lem ptrs (suc k) c1 (cc split) (omega arith) at1 within1
  ]
