-- ===== src/Page.antt =====
-- page.c: the page directories of the processes and the two page tables they share.
pub mod Translate
mod Tests
use illinix_os.Base.{
  ℕ, zero, suc, ◌+◌, ◌-◌, ◌*◌, ◌/◌, ◌%◌, Bool, true, false, ◌==◌, not, if◌then◌else◌, bit_or,
}

-- Where the linker puts the tables: `pte_zero`, `pte_one` and the directories `pde_0`, …, `pde_6`.
pub record Layout : Type 0 where
  pub pte_zero : ℕ
  pub pte_one : ℕ
  pub pde : ℕ → ℕ

-- The contents of the tables, and the registers that the functions load: `cr3`, the PSE bit of
-- `cr4` and the PG bit of `cr0`.
pub record Paging : Type 0 where
  pub pde_arr : ℕ → ℕ → ℕ
  pub pte_zero : ℕ → ℕ
  pub pte_one : ℕ → ℕ
  pub cr3 : ℕ
  pub pse : Bool
  pub pg : Bool

-- PHYS_ADDR_VIDEOMEM, and the flags RW_P_ENABLE, SIZE_MB_ON and User.
abbrev pub phys_addr_videomem : ℕ
phys_addr_videomem = 0xB8000

abbrev pub rw_p_enable : ℕ
rw_p_enable = 3

abbrev pub size_mb_on : ℕ
size_mb_on = 0x80

abbrev pub user : ℕ
user = 4

-- `table[i] = v;`
abbrev pub put : ℕ → ℕ → (ℕ → ℕ) → ℕ → ℕ
put i v table j = if j == i then v else table j

-- The entries of the four pages of video memory.
abbrev pub map_video : (ℕ → ℕ) → ℕ → ℕ
map_video table = put (0xB8 + 3) (bit_or (phys_addr_videomem + 4096 * 3) rw_p_enable) (
    put (0xB8 + 2) (bit_or (phys_addr_videomem + 4096 * 2) rw_p_enable) (
      put (0xB8 + 1) (bit_or (phys_addr_videomem + 4096) rw_p_enable)
        (put 0xB8 (bit_or phys_addr_videomem rw_p_enable) table)))

-- The loop that maps the first 4 MB, from entry `i` on, with `left` rounds to go.
pub map_low : ℕ → ℕ → (ℕ → ℕ) → ℕ → ℕ
map_low zero i table = table
map_low (suc left) i table = map_low left (i + 1) (put i (bit_or (i * 4096) rw_p_enable) table)

abbrev pub on_directory : ℕ → (ℕ → ℕ) → Paging → Paging
on_directory index d p = record p { pde_arr = λ k. if k == index then d else p.pde_arr k }

-- `enable_PSE` and `enable_paging`.
abbrev pub enable_pse : Paging → Paging
enable_pse p = record p { pse = true }

abbrev pub enable_paging : ℕ → Paging → Paging
enable_paging address p = record p { cr3 = address; pg = true }

-- The part that the three functions share: entries 0 and 1 of the directory, and the first table.
pub map_kernel : Layout → ℕ → Paging → Paging
unfolding map_low
map_kernel at index p =
    record (on_directory index
      (put 1 (bit_or (bit_or 0x400000 size_mb_on) rw_p_enable)
        (put 0 (bit_or at.pte_zero rw_p_enable) (p.pde_arr index)))
      p) { pte_zero = map_low 1024 0 (map_video p.pte_zero) }

unfoldable pub map_page_init : Layout → Paging → Paging
unfolding map_kernel
map_page_init at p = enable_paging (at.pde 0) (enable_pse (map_kernel at 0 p))

-- The entry `pde_idx`: a page of 4 MB for the process.
abbrev pub map_process : ℕ → ℕ → ℕ → Paging → Paging
map_process pde_idx phys_addr index p =
    on_directory index
      (put pde_idx (bit_or (bit_or (bit_or phys_addr size_mb_on) rw_p_enable) user)
        (p.pde_arr index))
      p

-- Entry 34 and the entry `slot` of the table behind it: the page of a terminal.
abbrev pub map_terminal : Layout → ℕ → ℕ → ℕ → Paging → Paging
map_terminal at slot phys_videomem index p =
    record (on_directory index
      (put 34 (bit_or (bit_or at.pte_one rw_p_enable) user) (p.pde_arr index)) p) {
        pte_one = put slot (bit_or (bit_or phys_videomem rw_p_enable) user) p.pte_one;
      }

-- `vid_idx` is -1 or more; `vid_next` is `vid_idx + 1`.
unfoldable pub set_page : Layout → ℕ → ℕ → ℕ → Bool → ℕ → Paging → Paging
unfolding map_kernel
set_page at pde_idx phys_addr index fourkb_on vid_next p =
    let q = map_process pde_idx phys_addr index (map_kernel at index p) in
    let r =
      if fourkb_on then map_terminal at 1 (vid_next * 4096 + phys_addr_videomem) index q else q in
    enable_paging (at.pde index) (enable_pse r)

unfoldable pub set_page_1 : Layout → ℕ → ℕ → ℕ → Bool → ℕ → Paging → Paging
unfolding map_kernel
set_page_1 at pde_idx phys_addr index fourkb_on curr_terminal p =
    let q = map_process pde_idx phys_addr index (map_kernel at index p) in
    let r =
      if fourkb_on
      then map_terminal at (curr_terminal + 1) ((curr_terminal + 1) * 4096 + phys_addr_videomem)
          index q
      else q in
    enable_paging (at.pde index) (enable_pse r)
