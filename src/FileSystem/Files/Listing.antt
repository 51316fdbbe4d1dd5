-- ===== src/FileSystem/Files/Listing.antt =====
-- file_system.c: `dir_read` against the names of the directory.
use illinix_os.Base.{
  length-set, lt→leb_false, ℕ, zero, suc, ◌+◌, ◌≤◌, ◌<◌, ◌≡◌, refl, ◌∙◌, ap, subst, false, some,
  List, arith, get_elem?, set, length, min, leb, ==_iff, ==_ne, ℕ_discrete, lt→ltb, add32,
}
use illinix_os.FileSystem.{Image, Dentry, copy_dentry, read_dentry_by_index}
use illinix_os.FileSystem.Filled.{
  IsFilled, IsFilled-empty, IsFilled-store, IsFilled-trans, get_elem?-some,
}
use illinix_os.FileSystem.Lookup.{IsDirectory, IsEntry, title, length-title, strlen-entry_bytes}
use illinix_os.FileSystem.Files.{Globals, copy_name, dir_read}

module _ (name : List ℕ) (field : length name ≡ 32) where
  copy_name_lem :
      (left j : ℕ) (buf : List ℕ)
      → j ≤ 32
      → min 32 (j + left) ≤ length buf
      → (out : List ℕ) × (copy_name name left j buf ≡ some (min 32 (j + left), out))
        × IsFilled (get_elem? name) j (min 32 (j + left)) buf out
  unfolding copy_name
  copy_name_lem zero j buf low room =
      let end : j ≡ min 32 (j + 0) = omega arith in
      (buf, ap (λ k. some (k, buf)) end, IsFilled-empty j (min 32 (j + 0)) buf (omega arith))
  copy_name_lem (suc left) j buf low room = elim (ℕ_discrete j 32) [
    | yes last ↦
        let end : j ≡ min 32 (j + suc left) = omega arith in
        (
          buf,
          rw ((==_iff j 32).1 last) (ap (λ k. some (k, buf)) end),
          IsFilled-empty j (min 32 (j + suc left)) buf (omega arith),
        )
    | no more ↦
        let (c, ec) = get_elem?-some name j (omega arith) in
        let next : min 32 (j + 1 + left) ≡ min 32 (j + suc left) = omega arith in
        let (out, e, f) =
          copy_name_lem left (j + 1) (set buf j c) (omega arith)
            (omega (arith, length-set buf j c)) in
        (
          out,
          rw (==_ne j 32 more, ec, lt→ltb j (length buf) (omega arith))
              (e ∙ ap (λ k. some (k, out)) next),
          IsFilled-trans {mid = j + 1} (omega arith) (omega arith)
              (IsFilled-store j c buf (omega arith) ec)
              (subst (λ hi. IsFilled (get_elem? name) (j + 1) hi (set buf j c) out) next f),
        )
  ]

-- What `dir_read` leaves in `curr_dir_dentry` on reading the entry `d`.
abbrev pub held : Globals → Dentry → Dentry
held g d = copy_dentry g.curr_dir_dentry d

-- On a whole directory, `dir_read` at an index below the number of entries does not fault: it puts
-- the bytes of the name of that entry, at most 32, into the front of the buffer and changes no
-- other byte of it, returns the length of the name, and goes on to the next index.
pub dir_read-entry :
    (img : Image) (buf : List ℕ) (nbytes : ℕ) (g : Globals) {d : Dentry}
    → IsDirectory img
    → g.directory_index < img.boot_block.dir_num
    → get_elem? img.boot_block.dir_entry g.directory_index ≡ some d
    → 32 ≤ length buf
    → (out : List ℕ) × (dir_read img buf nbytes g
        ≡ some (
          length (title d),
          record g { curr_dir_dentry = held g d; directory_index = g.directory_index + 1 },
          out,
        ))
      × IsFilled (get_elem? d.file_name) 0 (length (title d)) buf out
unfolding dir_read read_dentry_by_index
dir_read-entry img buf nbytes g {d} dir below here room =
    let v = dir.entries g.directory_index d here in
    let w : IsEntry (held g d) = record {
      field = v.field;
      stop = v.stop;
      terminated = v.terminated;
    } in
    let size : min 32 (0 + v.stop) ≡ length (title d) = omega (arith, length-title d v) in
    let (out, e, f) = copy_name_lem d.file_name v.field v.stop 0 buf (omega arith) (omega arith) in
    let inside : leb img.boot_block.dir_num g.directory_index ≡ false = lt→leb_false _ _ below in
    let next : add32 g.directory_index 1 ≡ g.directory_index + 1 = omega (arith, dir.count) in
    (
      out,
      rw (inside, here, strlen-entry_bytes (held g d) w, e, next, size) refl,
      subst (λ hi. IsFilled (get_elem? d.file_name) 0 hi buf out) size f,
    )

-- Behind the last entry `dir_read` returns 0 and starts over.
pub dir_read-end :
    (img : Image) (buf : List ℕ) (nbytes : ℕ) (g : Globals)
    → img.boot_block.dir_num ≤ g.directory_index
    → dir_read img buf nbytes g ≡ some (0, record g { directory_index = 0 }, buf)
unfolding dir_read read_dentry_by_index
dir_read-end img buf nbytes g past = ground arith
