-- ===== src/Console/Scroll.antt =====
-- lib.c: the scroll loops of `putc` and `putc_background`.
use illinix_os.Base.{
  ℕ, zero, suc, ◌+◌, ◌*◌, ◌≤◌, ◌<◌, ◌≡◌, refl, ◌⊎◌, arith, ltb, if◌then◌else◌, ◌==◌, not,
}
use illinix_os.Console.PhysMem.{Memory}
use illinix_os.Console.{scroll_page, scroll_both, scroll_from, video}

-- The character that cell `j` of a page holds after a scroll of the memory `m`.
abbrev pub below : Memory → ℕ → ℕ → ℕ
below m page j = if ltb 1919 j then 0x20 else m (page + 160 + j * 2)

-- The first `i` cells of the page have been scrolled, and nothing else has changed.
pub record IsScrolledTo (page i : ℕ) (m out : Memory) : Type 0 where
  pub cells : (j : ℕ) → j < i → out (page + j * 2) ≡ below m page j
  pub after : (a : ℕ) → (a < page) ⊎ (page + i * 2 ≤ a) → out a ≡ m a
  pub attributes : (j : ℕ) → out (page + j * 2 + 1) ≡ m (page + j * 2 + 1)

scroll_page-IsScrolledTo :
    (page i : ℕ) (m out : Memory)
    → i < 2000
    → IsScrolledTo page i m out
    → IsScrolledTo page (i + 1) m (scroll_page page i out)
scroll_page-IsScrolledTo page i m out low s = record {
  cells = λ j h. ground (arith, s.cells j, s.after (page + 160 + i * 2), s.after (page + j * 2));
  after = λ a h. ground (arith, s.after a);
  attributes = λ j. ground (arith, s.attributes j);
}

scroll_from-IsScrolledTo :
    (page left i : ℕ) (m out : Memory)
    → i + left ≡ 2000
    → IsScrolledTo page i m out
    → IsScrolledTo page 2000 m (scroll_from (scroll_page page) left i out)
unfolding scroll_from
scroll_from-IsScrolledTo page zero i m out e s = let end : i ≡ 2000 = omega arith in rw (← end) s
scroll_from-IsScrolledTo page (suc left) i m out e s =
    scroll_from-IsScrolledTo page left (i + 1) m (scroll_page page i out) (omega arith)
      (scroll_page-IsScrolledTo page i m out (omega arith) s)

-- The scroll of `putc_background`: each row of the page shows what the row below showed, the last
-- row is blank, and neither the attributes nor any byte off the page change.
pub scroll_page_lem :
    (page : ℕ) (m : Memory) → IsScrolledTo page 2000 m (scroll_from (scroll_page page) 2000 0 m)
scroll_page_lem page m =
    scroll_from-IsScrolledTo page 2000 0 m m refl
      (record { cells = λ j h. absurd (omega arith); after = λ a h. refl; attributes = λ j. refl })

-- The character that cell `j` of the screen shows after a scroll: that of the cell below, but the
-- mark of the mouse is replaced by what the terminal has there.
abbrev pub below_shown : Memory → ℕ → ℕ → ℕ
below_shown m page j =
    if ltb 1919 j
    then 0x20
    else if not (m (video + 160 + j * 2) == 0x3F)
    then m (video + 160 + j * 2)
    else m (page + 160 + j * 2)

-- The first `i` cells of the screen and of the page have been scrolled, and nothing else changed.
pub record IsShownTo (page i : ℕ) (m out : Memory) : Type 0 where
  pub shown : (j : ℕ) → j < i → out (video + j * 2) ≡ below_shown m page j
  pub cells : (j : ℕ) → j < i → out (page + j * 2) ≡ below m page j
  pub after :
      (a : ℕ) → (a < video) ⊎ (video + i * 2 ≤ a) → (a < page) ⊎ (page + i * 2 ≤ a) → out a ≡ m a

scroll_both-IsShownTo :
    (page i : ℕ) (m out : Memory)
    → video + 4000 ≤ page
    → i < 2000
    → IsShownTo page i m out
    → IsShownTo page (i + 1) m (scroll_both page i out)
scroll_both-IsShownTo page i m out apart low s = record {
  shown =
      λ j h. ground (arith, s.shown j, s.after (video + 160 + i * 2), s.after (page + 160 + i * 2));
  cells = λ j h. ground (arith, s.cells j, s.after (page + 160 + i * 2));
  after = λ a h k. ground (arith, s.after a);
}

scroll_from-IsShownTo :
    (page left i : ℕ) (m out : Memory)
    → video + 4000 ≤ page
    → i + left ≡ 2000
    → IsShownTo page i m out
    → IsShownTo page 2000 m (scroll_from (scroll_both page) left i out)
unfolding scroll_from
scroll_from-IsShownTo page zero i m out apart e s = let end : i ≡ 2000 = omega arith in rw (← end) s
scroll_from-IsShownTo page (suc left) i m out apart e s =
    scroll_from-IsShownTo page left (i + 1) m (scroll_both page i out) apart (omega arith)
      (scroll_both-IsShownTo page i m out apart (omega arith) s)

-- The scroll of `putc`, for a page that does not overlap the screen: the page moves up by a row;
-- the screen does too, with the mark '?' of the mouse replaced by what the terminal has there; the
-- last row of both is blank, and no other byte changes.
pub scroll_both_lem :
    (page : ℕ) (m : Memory)
    → video + 4000 ≤ page
    → IsShownTo page 2000 m (scroll_from (scroll_both page) 2000 0 m)
scroll_both_lem page m apart = scroll_from-IsShownTo page 2000 0 m m apart refl (record {
  shown = λ j h. absurd (omega arith);
  cells = λ j h. absurd (omega arith);
  after = λ a h k. refl;
})
