-- ===== src/Page/Translate.antt =====
-- page.c: the tables, as the walk of the processor sees them.
use illinix_os.Base.{
  ℕ, zero, suc, ◌+◌, ◌*◌, ◌/◌, ◌%◌, ◌<◌, ◌≡◌, refl, ◌≢◌, ◌∙◌, Bool, true, false, ◌&&◌, ◌==◌,
  if◌then◌else◌, bit_or, Option, some, none, arith, bit_or-page, bit_or-user, bit_or-large, ==_iff,
  ==_ne, ltb, leb,
}
use illinix_os.Page.{Layout, Paging, put, map_low, map_video, map_kernel, set_page, set_page_1}

-- Page tables start at multiples of 4096, at different addresses.
pub record IsAligned (at : Layout) : Type 0 where
  pub zero_aligned : at.pte_zero % 4096 ≡ 0
  pub one_aligned : at.pte_one % 4096 ≡ 0
  pub apart : at.pte_one ≢ at.pte_zero

-- The second step of the walk, in the table that the entry `e` of the directory names.
abbrev pub through : Layout → Paging → ℕ → ℕ → Option (Bool × ℕ)
through at p e v =
    let table = if e / 4096 * 4096 == at.pte_zero then p.pte_zero else p.pte_one in
    let f = table (v / 4096 % 1024) in
    if f % 2 == 0
    then none
    else some ((e / 4 % 2 == 1) && (f / 4 % 2 == 1), f / 4096 * 4096 + v % 4096)

-- The physical address of the virtual address `v` in directory `d`, and whether user code may
-- use it.
abbrev pub translate : Layout → Paging → ℕ → ℕ → Option (Bool × ℕ)
translate at p d v =
    let e = p.pde_arr d (v / 4194304) in
    if e % 2 == 0
    then none
    else if e / 128 % 2 == 1
    then some (e / 4 % 2 == 1, e / 4194304 * 4194304 + v % 4194304)
    else through at p e v

-- The loop maps the entries from `i` on to themselves.
map_low_lem :
    (left i : ℕ) (table : ℕ → ℕ) (j : ℕ)
    → map_low left i table j
      ≡ (if leb i j && ltb j (i + left) then bit_or (j * 4096) 3 else table j)
unfolding map_low
map_low_lem zero i table j = ground arith
map_low_lem (suc left) i table j =
    map_low_lem left (i + 1) (put i (bit_or (i * 4096) 3) table) j ∙ ground arith

low_entry : (table : ℕ → ℕ) (j : ℕ) → j < 1024 → map_low 1024 0 table j ≡ j * 4096 + 3
low_entry table j h =
    let e = map_low_lem 1024 0 table j in
    let flags = bit_or-page (j * 4096) 3 (omega arith) (omega arith) in ground arith

-- The entries that the kernel and the process in directory `d` use.
record HasEntries (at : Layout) (p : Paging) (d phys : ℕ) : Type 0 where
  first : p.pde_arr d 0 ≡ at.pte_zero + 3
  second : p.pde_arr d 1 ≡ 0x400083
  process : p.pde_arr d 32 ≡ phys + 0x87
  low : (j : ℕ) → j < 1024 → p.pte_zero j ≡ j * 4096 + 3

-- What a process finds in the directory `d`: the first 4 MB and the kernel's 4 MB are where they
-- are in memory, for the kernel only, and the 4 MB from 128 MB on are the page at `phys`.
pub record IsMapped (at : Layout) (p : Paging) (d phys : ℕ) : Type 0 where
  pub low : (v : ℕ) → v < 0x400000 → translate at p d v ≡ some (false, v)
  pub kernel : (v : ℕ) → v < 0x400000 → translate at p d (0x400000 + v) ≡ some (false, 0x400000 + v)
  pub process : (v : ℕ) → v < 0x400000 → translate at p d (0x8000000 + v) ≡ some (true, phys + v)

walk_large :
    (at : Layout) (p : Paging) (d v e u f : ℕ)
    → p.pde_arr d (v / 4194304) ≡ e
    → e % 2 ≡ 1
    → e / 128 % 2 ≡ 1
    → e / 4 % 2 ≡ u
    → e / 4194304 * 4194304 + v % 4194304 ≡ f
    → translate at p d v ≡ some (u == 1, f)
walk_large at p d v e u f h present large hu hf =
    rw (h, ==_ne (e % 2) 0 (omega arith), (==_iff (e / 128 % 2) 1).1 large, hu, hf) refl

walk_small :
    (at : Layout) (p : Paging) (d v e f : ℕ) (w g : ℕ)
    → p.pde_arr d (v / 4194304) ≡ e
    → e % 2 ≡ 1
    → e / 128 % 2 ≡ 0
    → (if e / 4096 * 4096 == at.pte_zero then p.pte_zero else p.pte_one) (v / 4096 % 1024) ≡ f
    → f % 2 ≡ 1
    → f / 4096 * 4096 + v % 4096 ≡ g
    → f / 4 % 2 ≡ w
    → translate at p d v ≡ some ((e / 4 % 2 == 1) && (w == 1), g)
walk_small at p d v e f w g h present small entry there hg hw =
    rw
      (
        h,
        ==_ne (e % 2) 0 (omega arith),
        ==_ne (e / 128 % 2) 1 (omega arith),
        entry,
        hw,
        hg,
        ==_ne (f % 2) 0 (omega arith),
      )
      refl

second_table :
    (at : Layout) (p : Paging) (e j f : ℕ)
    → e / 4096 * 4096 ≡ at.pte_one
    → at.pte_one ≢ at.pte_zero
    → p.pte_one j ≡ f
    → (if e / 4096 * 4096 == at.pte_zero then p.pte_zero else p.pte_one) j ≡ f
second_table at p e j f here apart h = rw (here, ==_ne at.pte_one at.pte_zero apart) h

HasEntries-IsMapped :
    (at : Layout) (p : Paging) (d phys : ℕ)
    → IsAligned at
    → phys % 4194304 ≡ 0
    → HasEntries at p d phys
    → IsMapped at p d phys
HasEntries-IsMapped at p d phys a big h = record {
  low = λ v s.
      let slot : v / 4194304 ≡ 0 = omega arith in
      let here : (at.pte_zero + 3) / 4096 * 4096 ≡ at.pte_zero = omega (arith, a.zero_aligned) in
      let user : (at.pte_zero + 3) / 4 % 2 ≡ 0 = omega (arith, a.zero_aligned) in
      walk_small at p d v (at.pte_zero + 3) (v / 4096 * 4096 + 3) 0 v (rw slot h.first)
        (omega (arith, a.zero_aligned)) (omega (arith, a.zero_aligned))
        (rw (here, (==_iff at.pte_zero at.pte_zero).1 refl)
          (h.low (v / 4096 % 1024) (omega arith) ∙ omega arith))
        (omega arith) (omega arith) (omega arith)
      ∙ rw user refl;
  kernel = λ v s.
      let slot : (0x400000 + v) / 4194304 ≡ 1 = omega arith in
      walk_large at p d (0x400000 + v) 0x400083 0 (0x400000 + v) (rw slot h.second) refl refl refl
        (omega arith);
  process = λ v s.
      let slot : (0x8000000 + v) / 4194304 ≡ 32 = omega arith in
      walk_large at p d (0x8000000 + v) (phys + 0x87) 1 (phys + v) (rw slot h.process) (omega arith)
        (omega arith) (omega arith) (omega arith);
}

map_low_entry :
    (table : ℕ → ℕ) (j : ℕ) → j < 1024 → map_low 1024 0 (map_video table) j ≡ j * 4096 + 3
map_low_entry table j h = low_entry (map_video table) j h

kernel_entry : bit_or (bit_or 0x400000 0x80) 3 ≡ 0x400083
kernel_entry = refl

set_page_1-HasEntries :
    (at : Layout) (phys d : ℕ) (fourkb_on : Bool) (t : ℕ) (p : Paging)
    → IsAligned at
    → phys % 4194304 ≡ 0
    → HasEntries at (set_page_1 at 32 phys d fourkb_on t p) d phys
unfolding set_page_1 map_kernel
set_page_1-HasEntries at phys d true t p a big = record {
  first = rw ((==_iff d d).1 refl) (bit_or-page at.pte_zero 3 a.zero_aligned (omega arith));
  second = rw ((==_iff d d).1 refl) refl;
  process = rw ((==_iff d d).1 refl) (bit_or-large phys big);
  low = λ j h. map_low_entry p.pte_zero j h;
}
set_page_1-HasEntries at phys d false t p a big = record {
  first = rw ((==_iff d d).1 refl) (bit_or-page at.pte_zero 3 a.zero_aligned (omega arith));
  second = rw ((==_iff d d).1 refl) refl;
  process = rw ((==_iff d d).1 refl) (bit_or-large phys big);
  low = λ j h. map_low_entry p.pte_zero j h;
}

-- `set_page_1`, for any process and terminal: the first 8 MB are mapped to themselves, for the
-- kernel only, and the 4 MB from 128 MB on to the page `phys`, for user code; `cr3` names the
-- directory; and no other directory changes.
pub set_page_1-IsMapped :
    (at : Layout) (phys d : ℕ) (fourkb_on : Bool) (t : ℕ) (p : Paging)
    → IsAligned at
    → phys % 4194304 ≡ 0
    → let q = set_page_1 at 32 phys d fourkb_on t p in
      IsMapped at q d phys
      × (q.cr3 ≡ at.pde d)
      × ((k j : ℕ) → k ≢ d → q.pde_arr k j ≡ p.pde_arr k j)
unfolding set_page_1 map_kernel
set_page_1-IsMapped at phys d true t p a big = (
  HasEntries-IsMapped at _ d phys a big (set_page_1-HasEntries at phys d true t p a big),
  refl,
  λ k j other. rw (==_ne k d other) refl,
)
set_page_1-IsMapped at phys d false t p a big = (
  HasEntries-IsMapped at _ d phys a big (set_page_1-HasEntries at phys d false t p a big),
  refl,
  λ k j other. rw (==_ne k d other) refl,
)

-- With the terminal's page on, user code finds the video page of terminal `t` of three at
-- 136 MB + 4 KB * (t + 1), the address that `vidmap` hands out, and the pages of the other
-- terminals stay where they were.
pub set_page_1-video :
    (at : Layout) (phys d t : ℕ) (p : Paging)
    → IsAligned at
    → phys % 4194304 ≡ 0
    → t < 3
    → let q = set_page_1 at 32 phys d true t p in
      ((v : ℕ)
        → v < 4096
        → translate at q d (0x8801000 + 4096 * t + v) ≡ some (true, 0xB8000 + 4096 * (t + 1) + v))
      × ((k : ℕ) → k ≢ t + 1 → q.pte_one k ≡ p.pte_one k)
unfolding set_page_1 map_kernel
set_page_1-video at phys d t p a big low = (
  (λ v s.
      let dir : (0x8801000 + 4096 * t + v) / 4194304 ≡ 34 = omega arith in
      let slot : (0x8801000 + 4096 * t + v) / 4096 % 1024 ≡ t + 1 = omega arith in
      let here : (at.pte_one + 7) / 4096 * 4096 ≡ at.pte_one = omega (arith, a.one_aligned) in
      let user : (at.pte_one + 7) / 4 % 2 ≡ 1 = omega (arith, a.one_aligned) in
      let q = set_page_1 at 32 phys d true t p in
      walk_small at q d (0x8801000 + 4096 * t + v) (at.pte_one + 7) ((t + 1) * 4096 + 0xB8000 + 7) 1
        (0xB8000 + 4096 * (t + 1) + v)
        (rw (dir, (==_iff d d).1 refl) (bit_or-user at.pte_one a.one_aligned))
        (omega (arith, a.one_aligned)) (omega (arith, a.one_aligned))
        (second_table at q (at.pte_one + 7) ((0x8801000 + 4096 * t + v) / 4096 % 1024) _ here
          a.apart
          (rw (slot, (==_iff (t + 1) (t + 1)).1 refl)
            (bit_or-user ((t + 1) * 4096 + 0xB8000) (omega arith))))
        (omega arith) (omega arith) (omega arith)
      ∙ rw user refl),
  λ k other. rw (==_ne k (t + 1) other) refl,
)

-- `set_page`, as `execute` calls it, does what `set_page_1` does without the terminal's page.
pub set_page-set_page_1 :
    (at : Layout) (pde_idx phys d vid_next t : ℕ) (p : Paging)
    → set_page at pde_idx phys d false vid_next p ≡ set_page_1 at pde_idx phys d false t p
unfolding set_page set_page_1
set_page-set_page_1 at pde_idx phys d vid_next t p = refl
