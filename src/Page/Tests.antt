-- ===== src/Page/Tests.antt =====
-- The theorems on the page tables at concrete addresses.
use illinix_os.Base.{ℕ, ◌+◌, ◌*◌, ◌≡◌, ◌≢◌, refl, true, false, arith}
use illinix_os.Page.{Layout, Paging, set_page_1}
use illinix_os.Page.Translate.{IsAligned, IsMapped, set_page_1-IsMapped}

abbrev layout : Layout
layout = record { pte_zero = 0x410000; pte_one = 0x411000; pde = λ d. 0x420000 + 4096 * d }

layout-IsAligned : IsAligned layout
layout-IsAligned = record { zero_aligned = refl; one_aligned = refl; apart = λ e. omega arith }

abbrev empty : Paging
empty = record {
  pde_arr = λ d j. 0;
  pte_zero = λ j. 0;
  pte_one = λ j. 0;
  cr3 = 0;
  pse = false;
  pg = false;
}

set_page_1-IsMapped_example :
    IsMapped layout (set_page_1 layout 32 0x1400000 4 true 2 empty) 4 0x1400000
    × ((set_page_1 layout 32 0x1400000 4 true 2 empty).cr3 ≡ layout.pde 4)
    × ((k j : ℕ)
        → k ≢ 4
        → (set_page_1 layout 32 0x1400000 4 true 2 empty).pde_arr k j ≡ empty.pde_arr k j)
set_page_1-IsMapped_example =
    set_page_1-IsMapped layout 0x1400000 4 true 2 empty layout-IsAligned refl
