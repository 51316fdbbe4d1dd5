-- ===== src/FileSystem/Files/Draining.antt =====
-- file_system.c: a file that is read to its end by one `file_read` after the other.
use illinix_os.Base.{
  ℕ, zero, suc, ◌+◌, ◌-◌, ◌^◌, ◌≤◌, ◌<◌, ◌≡◌, refl, ◌∙◌, ap, sym, some, List, [], ◌∷◌, ◌++◌, arith,
  take, length, get_elem?, length-take, length-append, dec_lt, lt→leb_false, le→leb, ℕ_discrete,
}
use illinix_os.Descriptor.{FileDescriptor}
use illinix_os.FileSystem.{Image, InodeBlock}
use illinix_os.FileSystem.Filled.{file_byte, IsFile}
use illinix_os.FileSystem.Files.{Globals, ReadResult, file_read}
use illinix_os.FileSystem.Files.Reading.{IsOpen, file_read_lem}

-- A program reads `n` bytes at a time into `buf` until a read returns 0: what it has read. Each read
-- starts where the one before has left the descriptor, the globals and the buffer.
pub data Reads (img : Image) (n : ℕ) : FileDescriptor → Globals → List ℕ → List ℕ → Type 0 where
  stop :
      {fd : FileDescriptor} {g : Globals} {buf : List ℕ} (r : ReadResult)
      → file_read img fd buf n g ≡ some r
      → r.value ≡ 0
      → Reads img n fd g buf []
  more :
      {fd : FileDescriptor} {g : Globals} {buf : List ℕ} (r : ReadResult) (rest : List ℕ)
      → file_read img fd buf n g ≡ some r
      → 0 < r.value
      → Reads img n r.descriptor r.globals r.buf rest
      → Reads img n fd g buf (take r.value r.buf ++ rest)

front :
    (v j : ℕ) (xs ys : List ℕ)
    → v ≤ length xs
    → j < v
    → get_elem? (take v xs ++ ys) j ≡ get_elem? xs j
front zero j xs ys room low = absurd (omega arith)
front (suc v) j [] ys room low = absurd (omega arith)
front (suc v) zero (x ∷ xs) ys room low = refl
front (suc v) (suc j) (x ∷ xs) ys room low = front v j xs ys (omega arith) (omega arith)

back :
    (v j : ℕ) (xs ys : List ℕ)
    → v ≤ length xs
    → get_elem? (take v xs ++ ys) (v + j) ≡ get_elem? ys j
back zero j xs ys room = ap (get_elem? ys) (omega arith)
back (suc v) j [] ys room = absurd (omega arith)
back (suc v) j (x ∷ xs) ys room =
    let e : suc v + j ≡ suc (v + j) = omega arith in
    ap (get_elem? (x ∷ (take v xs ++ ys))) e ∙ back v j xs ys (omega arith)

-- The bytes of a file from `at` on.
pub record IsRest (img : Image) (node : InodeBlock) (at : ℕ) (bytes : List ℕ) : Type 0 where
  pub all : length bytes ≡ node.length - at
  pub each : (j : ℕ) → j < node.length - at → get_elem? bytes j ≡ file_byte img node (at + j)

IsRest-more :
    (img : Image) (node : InodeBlock) (at v : ℕ) (out rest : List ℕ)
    → v ≤ length out
    → v ≤ node.length - at
    → ((j : ℕ) → j < v → get_elem? out j ≡ file_byte img node (at + j))
    → IsRest img node (at + v) rest
    → IsRest img node at (take v out ++ rest)
IsRest-more img node at v out rest room part here later = record {
  all = omega (arith, length-append (take v out) rest, length-take v out, later.all);
  each = λ j low. elim (dec_lt j v) [
    | yes before ↦ front v j out rest room before ∙ here j before
    | no behind ↦
        let i = j - v in
        ap (get_elem? (take v out ++ rest)) (omega arith)
        ∙ back v i out rest room
        ∙ later.each i (omega arith)
        ∙ ap (file_byte img node) (omega arith)
  ];
}

IsRest-end :
    (img : Image) (node : InodeBlock) (at : ℕ) → node.length - at ≡ 0 → IsRest img node at []
IsRest-end img node at e = record { all = sym e; each = λ j low. absurd (omega arith) }

module _ (img : Image) (node : InodeBlock) (n : ℕ) (whole : IsFile img node) (pos : 0 < n)
    (word : n < 2 ^ 31) where
  abbrev Drained : FileDescriptor → Globals → List ℕ → Type 0
  Drained fd g buf =
      (bytes : List ℕ) × Reads img n fd g buf bytes × IsRest img node fd.file_position bytes

  -- The last reads: what is left fits into the buffer.
  drain_end :
      (fd : FileDescriptor) (g : Globals) (buf : List ℕ)
      → IsOpen img node fd
      → g.last_round ≡ 0
      → n ≤ length buf
      → node.length < fd.file_position + n
      → Drained fd g buf
  drain_end fd g buf opened first room short =
      let left = node.length - fd.file_position in
      let over = lt→leb_false (fd.file_position + n) node.length short in
      let (out, e, filled) =
        file_read_lem img node n fd buf g whole opened pos word (omega (arith, first))
          (omega arith) in
      let g1 = record g { last_round = 1 } in
      let r1 : ReadResult = record { value = left; globals = g1; descriptor = fd; buf = out } in
      let e1 : file_read img fd buf n g ≡ some r1 = e ∙ rw (over, first) refl in
      elim (ℕ_discrete left 0) [
        | yes nothing ↦ ([], stop r1 e1 nothing, IsRest-end img node fd.file_position nothing)
        | no some_left ↦
            let fits : n ≤ length out = omega (arith, filled.same_length) in
            let (out2, e2, filled2) =
              file_read_lem img node n fd out g1 whole opened pos word (omega arith)
                (omega arith) in
            let r2 : ReadResult = record {
              value = 0;
              globals = record g { last_round = 0 };
              descriptor = fd;
              buf = out2;
            } in
            (
              take left out ++ [],
              more r1 [] e1 (omega arith) (stop r2 (e2 ∙ rw over refl) refl),
              IsRest-more img node fd.file_position left out [] (omega arith) (omega arith)
                  (λ j low. filled.inside j (omega arith) (omega arith))
                  (IsRest-end img node (fd.file_position + left) (omega (arith, opened.within))),
            )
      ]

  drain :
      (m : ℕ) (fd : FileDescriptor) (g : Globals) (buf : List ℕ)
      → node.length - fd.file_position < m
      → IsOpen img node fd
      → g.last_round ≡ 0
      → n ≤ length buf
      → Drained fd g buf
  drain zero fd g buf enough opened first room = absurd (omega arith)
  drain (suc m) fd g buf enough opened first room =
      elim (dec_lt node.length (fd.file_position + n)) [
        | yes short ↦ drain_end fd g buf opened first room short
        | no long ↦
            let (out, e, filled) =
              file_read_lem img node n fd buf g whole opened pos word (omega (arith, first))
                (omega arith) in
            let fd' = record fd { file_position = fd.file_position + n } in
            let r : ReadResult = record { value = n; globals = g; descriptor = fd'; buf = out } in
            let (rest, later, is_rest) =
              drain m fd' g out (omega arith)
                (record {
                  here = opened.here;
                  valid = opened.valid;
                  nonempty = opened.nonempty;
                  within = omega arith;
                })
                first (omega (arith, filled.same_length)) in
            (
              take n out ++ rest,
              more r rest (e ∙ rw (le→leb (fd.file_position + n) node.length (omega arith)) refl)
                  pos later,
              IsRest-more img node fd.file_position n out rest (omega (arith, filled.same_length))
                  (omega arith) (λ j low. filled.inside j (omega arith) (omega arith)) is_rest,
            )
      ]

  -- A program that reads an open file with a buffer of at least `n` bytes, `n` of them at a time, comes
  -- to the end: after finitely many reads one returns 0, and those before it have given each byte of
  -- the file from the position of the descriptor on, in order and once.
  pub file_read-drains :
      (fd : FileDescriptor) (g : Globals) (buf : List ℕ)
      → IsOpen img node fd
      → g.last_round ≡ 0
      → n ≤ length buf
      → (bytes : List ℕ) × Reads img n fd g buf bytes × IsRest img node fd.file_position bytes
  file_read-drains fd g buf opened first room =
      drain (node.length - fd.file_position + 1) fd g buf (omega arith) opened first room
