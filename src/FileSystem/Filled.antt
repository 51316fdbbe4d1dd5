-- ===== src/FileSystem/Filled.antt =====
-- What it means that a buffer holds bytes of a file, and what a whole image guarantees.
use illinix_os.Base.{
  ℕ, zero, suc, ◌+◌, ◌*◌, ◌/◌, ◌%◌, ◌≤◌, ◌<◌, ◌≡◌, refl, ◌⊎◌, sym, ◌∙◌, Option, some, List, [], ◌∷◌,
  arith, get_elem?, set, length, drop, ◌>>=◌, length-set, get_elem?-set_self, get_elem?-set_ne,
}
use illinix_os.FileSystem.{Image, InodeBlock}

-- The byte at position `p` of a file, found through its block pointers.
abbrev pub file_byte : Image → InodeBlock → ℕ → Option ℕ
file_byte img node p =
    get_elem? node.data_block_idx (p / 4096) >>= λ b. get_elem? img.bytes (b * 4096 + p % 4096)

-- `out` is `buf` with the bytes `src lo`, …, `src (hi - 1)` put at `lo`, …, `hi - 1`.
pub record IsFilled (src : ℕ → Option ℕ) (lo hi : ℕ) (buf out : List ℕ) : Type 0 where
  pub same_length : length out ≡ length buf
  pub inside : (j : ℕ) → lo ≤ j → j < hi → get_elem? out j ≡ src j
  pub outside : (j : ℕ) → (j < lo) ⊎ (hi ≤ j) → get_elem? out j ≡ get_elem? buf j

module _ {src : ℕ → Option ℕ} where
  pub IsFilled-empty : (lo hi : ℕ) (buf : List ℕ) → hi ≤ lo → IsFilled src lo hi buf buf
  IsFilled-empty lo hi buf h = record {
    same_length = refl;
    inside = λ j p q. absurd (omega arith);
    outside = λ j p. refl;
  }

  pub IsFilled-store :
      (lo b : ℕ) (buf : List ℕ)
      → lo < length buf
      → src lo ≡ some b
      → IsFilled src lo (lo + 1) buf (set buf lo b)
  IsFilled-store lo b buf fits e = record {
    same_length = length-set buf lo b;
    inside = λ j p q.
        let here : j ≡ lo = omega arith in rw here (get_elem?-set_self buf lo b fits ∙ sym e);
    outside = λ j p. get_elem?-set_ne buf b (grind arith);
  }

  pub IsFilled-trans :
      {lo mid hi : ℕ} {buf out out' : List ℕ}
      → lo ≤ mid
      → mid ≤ hi
      → IsFilled src lo mid buf out
      → IsFilled src mid hi out out'
      → IsFilled src lo hi buf out'
  IsFilled-trans {mid} p q f g = record {
    same_length = g.same_length ∙ f.same_length;
    inside = λ j l u. ground (arith, f.inside j, g.inside j, g.outside j);
    outside = λ j u. ground (arith, f.outside j, g.outside j);
  }

-- What a whole image guarantees of one of its files: each position below the length has a block
-- pointer, each pointer names a data block, and the data blocks are there.
pub record IsFile (img : Image) (node : InodeBlock) : Type 0 where
  pub pointers :
      (k : ℕ)
      → k * 4096 < node.length
      → (b : ℕ) × (get_elem? node.data_block_idx k ≡ some b) × (b < img.boot_block.data_block_num)
  pub storage : img.boot_block.data_block_num * 4096 ≤ length img.bytes
  pub few_blocks : img.boot_block.data_block_num < 2147483648
  pub short : node.length < 2147483648

pub get_elem?-some : (xs : List ℕ) (i : ℕ) → i < length xs → (x : ℕ) × (get_elem? xs i ≡ some x)
get_elem?-some [] i h = absurd (omega arith)
get_elem?-some (x ∷ xs) zero h = (x, refl)
get_elem?-some (x ∷ xs) (suc i) h = get_elem?-some xs i (omega arith)

pub drop-get_elem? :
    (xs : List ℕ) (k : ℕ) {x : ℕ} → get_elem? xs k ≡ some x → drop k xs ≡ x ∷ drop (suc k) xs
drop-get_elem? [] k h = ground arith
drop-get_elem? (y ∷ xs) zero h = ground arith
drop-get_elem? (y ∷ xs) (suc k) h = drop-get_elem? xs k h
