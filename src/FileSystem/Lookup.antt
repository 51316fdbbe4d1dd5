-- ===== src/FileSystem/Lookup.antt =====
-- file_system.c: the search of the directory by name, against the names of its entries.
use mathlib.Core.Bool.{false≢true}
use illinix_os.Base.{
  inl, inr, >>=-eq-some, ==_ne, ℕ, zero, suc, ◌+◌, ◌≤◌, ◌<◌, ◌≡◌, refl, ◌≢◌, ◌↔◌, ap, ap₂, sym, ◌∙◌,
  Bool, true, false, Option, none, some, List, [], ◌∷◌, ◌++◌, arith, get_elem?, length, min, ◌==◌,
  if◌then◌else◌, minus_one, Bool-cases, ==_iff, ℕ_discrete,
}
use illinix_os.Libc.{strlen}
use illinix_os.Libc.Lengths.{strlen-cons, strlen-append_left}
use illinix_os.FileSystem.{
  Image, Dentry, entry_bytes, entry_fields, cap_name, same_bytes, entry_matches, find_entry,
  copy_dentry, rounds, read_dentry_by_name, le32,
}

-- The name in a field of `n` bytes: up to the first NUL, or all of it.
abbrev pub name : ℕ → List ℕ → List ℕ
name zero s = []
name (suc n) [] = []
name (suc n) (c ∷ s) = if c == 0 then [] else c ∷ name n s

-- The name of an entry.
abbrev pub title : Dentry → List ℕ
title d = name 32 d.file_name

pub name-append : (n : ℕ) (s t : List ℕ) → n ≤ length s → name n (s ++ t) ≡ name n s
name-append zero s t h = refl
name-append (suc n) [] t h = absurd (omega arith)
name-append (suc n) (c ∷ s) t h = ground (arith, name-append n s t)

pub name-strlen : (n : ℕ) (s : List ℕ) {m : ℕ} → strlen s ≡ some m → length (name n s) ≡ min n m
name-strlen zero s h = omega arith
name-strlen (suc n) [] h = absurd (unfold strlen in cc h)
name-strlen (suc n) (c ∷ s) {m} h = elim (ℕ_discrete c 0) [
  | yes e ↦ ground (arith, strlen-cons c s)
  | no e ↦
      let (k, ek, es) =
        >>=-eq-some (strlen s) (λ n. some (n + 1))
          (rw ((==_ne c 0 e)) at (rw (strlen-cons c s) at h)) in
      ground (arith, name-strlen n s ek)
]

head-cons : {x y : ℕ} {s t : List ℕ} → x ∷ s ≡ y ∷ t → x ≡ y
head-cons h = cc

tail-cons : {x y : ℕ} {s t : List ℕ} → x ∷ s ≡ y ∷ t → s ≡ t
tail-cons h = cc

-- Over names of one length, the loop of comparisons decides whether the names are equal.
same_bytes_lem :
    (k n : ℕ) (s t : List ℕ)
    → length (name k s) ≡ n
    → length (name k t) ≡ n
    → (b : Bool) × (same_bytes n s t ≡ some b) × ((b ≡ true) ↔ (name k s ≡ name k t))
unfolding same_bytes
same_bytes_lem zero zero s t es et = (true, refl, ((λ _. refl), (λ _. refl)))
same_bytes_lem zero (suc n) s t es et = absurd (omega arith)
same_bytes_lem (suc k) zero [] [] es et = (true, refl, ((λ _. refl), (λ _. refl)))
same_bytes_lem (suc k) zero [] (y ∷ t) es et = (true, refl, ground arith)
same_bytes_lem (suc k) zero (x ∷ s) [] es et = (true, refl, ground arith)
same_bytes_lem (suc k) zero (x ∷ s) (y ∷ t) es et = (true, refl, ground arith)
same_bytes_lem (suc k) (suc n) [] t es et = absurd (omega arith)
same_bytes_lem (suc k) (suc n) (x ∷ s) [] es et = absurd (omega arith)
same_bytes_lem (suc k) (suc n) (x ∷ s) (y ∷ t) es et =
    let nx : (x == 0) ≡ false = ground arith in
    let ny : (y == 0) ≡ false = ground arith in
    let (b, eb, iff) = same_bytes_lem k n s t (ground arith) (ground arith) in
    elim (ℕ_discrete x y) [
      | yes e ↦ (
        b,
        rw ((==_iff x y).1 e) eb,
        rw (nx, ny) ((λ h. ap₂ ◌∷◌ e (iff.0 h)), (λ h. iff.1 (tail-cons h))),
      )
      | no ne ↦ (
        false,
        rw (==_ne x y ne) refl,
        rw (nx, ny) ((λ h. cc h), (λ h. absurd (ne (head-cons h)))),
      )
    ]

-- What a whole image guarantees of an entry: a field of 32 bytes for the name, and a NUL in it or
-- in the two fields behind it.
pub record IsEntry (d : Dentry) : Type 0 where
  pub field : length d.file_name ≡ 32
  pub stop : ℕ
  pub terminated : strlen (entry_fields d) ≡ some stop

pub strlen-entry_bytes : (d : Dentry) (v : IsEntry d) → strlen (entry_bytes d) ≡ some v.stop
strlen-entry_bytes d v = strlen-append_left (entry_fields d) d.reserved v.terminated

-- The name of an entry, from its bytes in memory.
pub length-title : (d : Dentry) (v : IsEntry d) → length (title d) ≡ min 32 v.stop
length-title d v =
    ap length (
      sym (
        name-append 32 d.file_name (le32 d.file_type ++ le32 d.inode_idx) (omega (arith, v.field))))
    ∙ name-strlen 32 (entry_fields d) v.terminated

module _ (fname : List ℕ) {len : ℕ} (asked : strlen fname ≡ some len) where
  cap_name-min : (n : ℕ) → cap_name n ≡ min 32 n
  cap_name-min n = ground arith

  entry_matches_lem :
      (d : Dentry)
      → IsEntry d
      → (b : Bool) × (entry_matches fname d ≡ some b) × ((b ≡ true) ↔ (name 32 fname ≡ title d))
  unfolding entry_matches
  entry_matches_lem d v =
      let own = name-strlen 32 fname asked in
      let ended = strlen-entry_bytes d v in
      let its = length-title d v in
      elim (ℕ_discrete (cap_name len) (cap_name v.stop)) [
        | yes e ↦
            let (b, eb, iff) =
              same_bytes_lem 32 (cap_name len) fname d.file_name
                (omega (arith, own, cap_name-min len)) (omega (arith, its, cap_name-min v.stop)) in
            (b, rw (asked, ended, (==_iff (cap_name len) (cap_name v.stop)).1 e) eb, iff)
        | no ne ↦ (
          false,
          rw (asked, ended, ==_ne (cap_name len) (cap_name v.stop) ne) refl,
          (
            (λ h. cc h),
            (λ h.
                absurd (
                  ne
                    (omega (arith, ap length h, own, its, cap_name-min len, cap_name-min v.stop)))),
          ),
        )
      ]

-- None of the first `n` entries has the name `key`.
abbrev pub Absent : List ℕ → ℕ → List Dentry → Type 0
Absent key n ds = (j : ℕ) (e : Dentry) → j < n → get_elem? ds j ≡ some e → key ≢ title e

-- The answer is the first of the `n` entries with the name `key`, or none of them has it.
abbrev pub FirstMatch : List ℕ → ℕ → List Dentry → Option Dentry → Type 0
FirstMatch key n ds (some d) =
    (i : ℕ) × (i < n) × (get_elem? ds i ≡ some d) × (key ≡ title d) × Absent key i ds
FirstMatch key n ds none = Absent key n ds

Absent-cons :
    (key : List ℕ) (n : ℕ) (d : Dentry) (ds : List Dentry)
    → key ≢ title d
    → Absent key n ds
    → Absent key (suc n) (d ∷ ds)
Absent-cons key n d ds differs rest zero e below h =
    let here : d ≡ e = cc in λ same. differs (same ∙ ap title (sym here))
Absent-cons key n d ds differs rest (suc j) e below h = rest j e (omega arith) h

FirstMatch-cons :
    (key : List ℕ) (n : ℕ) (d : Dentry) (ds : List Dentry) (r : Option Dentry)
    → key ≢ title d
    → FirstMatch key n ds r
    → FirstMatch key (suc n) (d ∷ ds) r
FirstMatch-cons key n d ds none differs rest = Absent-cons key n d ds differs rest
FirstMatch-cons key n d ds (some x) differs (i, below, here, same, before) =
    (suc i, omega arith, here, same, Absent-cons key i d ds differs before)

module _ (fname : List ℕ) {len : ℕ} (asked : strlen fname ≡ some len) where
  find_entry_lem :
      (n : ℕ) (ds : List Dentry)
      → n ≤ length ds
      → ((j : ℕ) (e : Dentry) → get_elem? ds j ≡ some e → IsEntry e)
      → (r : Option Dentry) × (find_entry fname n ds ≡ some r) × FirstMatch (name 32 fname) n ds r
  unfolding find_entry
  find_entry_lem zero ds fits entries = (none, refl, λ j e h. absurd (omega arith))
  find_entry_lem (suc n) [] fits entries = absurd (omega arith)
  find_entry_lem (suc n) (d ∷ ds) fits entries =
      let (b, eb, iff) = entry_matches_lem fname asked d (entries 0 d refl) in
      elim (Bool-cases b) [
        | inl found ↦ (
          some d,
          rw (eb, found) refl,
          (0, omega arith, refl, iff.0 found, λ j e h. absurd (omega arith)),
        )
        | inr other ↦
            let (r, er, first) = find_entry_lem n ds (omega arith) (λ j. entries (suc j)) in
            (
              r,
              rw (eb, other) er,
              FirstMatch-cons (name 32 fname) n d ds r (λ same. false≢true (sym other ∙ iff.1 same))
                  first,
            )
      ]

pub rounds_lem : {n : ℕ} → n < 2147483648 → rounds n ≡ n
rounds_lem h = ground arith

-- What a whole image guarantees of its directory.
pub record IsDirectory (img : Image) : Type 0 where
  pub held : img.boot_block.dir_num ≤ length img.boot_block.dir_entry
  pub count : img.boot_block.dir_num < 2147483648
  pub entries : (j : ℕ) (e : Dentry) → get_elem? img.boot_block.dir_entry j ≡ some e → IsEntry e

-- What `read_dentry_by_name` returns and leaves in the caller's `dentry`, for the entry found.
abbrev pub reply : Dentry → Option Dentry → ℕ × Dentry
reply dentry none = (minus_one, dentry)
reply dentry (some d) = (0, copy_dentry dentry d)

-- With a whole directory and a name that ends in NUL, `read_dentry_by_name` does not fault. It
-- returns 0 and copies the first entry whose name is the one asked for, both cut at 32 bytes, or it
-- returns -1 and leaves the caller's `dentry` alone, and then no entry has that name.
pub read_dentry_by_name_lem :
    (img : Image) (fname : List ℕ) (dentry : Dentry) {len : ℕ}
    → strlen fname ≡ some len
    → IsDirectory img
    → (r : Option Dentry) × (read_dentry_by_name img (some fname) dentry ≡ some (reply dentry r))
      × FirstMatch (name 32 fname) img.boot_block.dir_num img.boot_block.dir_entry r
unfolding read_dentry_by_name
read_dentry_by_name_lem img fname dentry asked dir =
    let (r, er, first) =
      find_entry_lem fname asked img.boot_block.dir_num img.boot_block.dir_entry dir.held
        dir.entries in
    let count : rounds img.boot_block.dir_num ≡ img.boot_block.dir_num = rounds_lem dir.count in
    (r, rw (count, er) (answer r), first)
  where
    answer :
        (r : Option Dentry)
        → elim r [ some d ↦ some (0, copy_dentry dentry d) | none ↦ some (minus_one, dentry) ]
          ≡ some (reply dentry r)
    answer none = refl
    answer (some d) = refl
