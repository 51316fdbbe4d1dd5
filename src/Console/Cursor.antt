-- ===== src/Console/Cursor.antt =====
-- lib.c: the cursor across `putc` and `putc_background`.
use illinix_os.Base.{
  ℕ, ◌+◌, ◌-◌, ◌*◌, ◌%◌, ◌/◌, ◌<◌, ◌≡◌, ◌⊎◌, arith, ltb, if◌then◌else◌, ◌==◌, false, ◌||◌,
}
use illinix_os.Console.{Pen, putc_cells, putc_background, is_newline, is_backspace}

-- The cursor is in the 25 rows of 80 columns, or at the start of the row below the last.
abbrev pub InScreen : ℕ → ℕ → Type 0
InScreen x y = ((x < 80) × (y < 25)) ⊎ ((x ≡ 0) × (y ≡ 25))

-- The number of cells before the cursor.
abbrev pub offset : ℕ → ℕ → ℕ
offset x y = y * 80 + x

-- Where the cursor goes: a line feed to the start of the next row, a backspace one cell back, any
-- other character one cell on; a cursor that would leave the screen waits for the scroll, which
-- takes it to the last row.
abbrev pub next_offset : ℕ → ℕ → ℕ
next_offset c p =
    if is_backspace c
    then p - 1
    else if is_newline c
    then (if ltb p 1920 then (p / 80 + 1) * 80 else 1920)
    else if p == 2000
    then 1921
    else p + 1

-- `putc` keeps the cursor on the screen and moves it by `next_offset`; lib.c's copy of the cursor
-- agrees with the terminal's.
pub putc_cells-cursor :
    (page c : ℕ) (p : Pen)
    → InScreen p.x p.y
    → let q = putc_cells page c p in
      InScreen q.x q.y
      × (offset q.x q.y ≡ next_offset c (offset p.x p.y))
      × (q.screen_x ≡ q.x)
      × (q.screen_y ≡ q.y)
unfolding putc_cells
putc_cells-cursor page c p h = ground arith

-- Where `putc_background` puts the cursor: as `putc`, but a character in the last column takes it
-- back to the start of the same row.
abbrev pub background_offset : ℕ → ℕ → ℕ
background_offset c p =
    if is_backspace c || is_newline c
    then next_offset c p
    else if p % 80 == 79
    then p - 79
    else next_offset c p

-- `putc_background` keeps the cursor on the screen and moves it by `background_offset`.
pub putc_background-cursor :
    (page c : ℕ) (p : Pen)
    → InScreen p.x p.y
    → let q = putc_background page c p in
      InScreen q.x q.y × (offset q.x q.y ≡ background_offset c (offset p.x p.y))
unfolding putc_background
putc_background-cursor page c p h = ground arith

-- The two ways to print differ in the last column: after any character but a line feed or a
-- backspace there, `putc` has gone to the next row and `putc_background` has stayed on the old one.
pub putc-putc_background-differ :
    (page c : ℕ) (p : Pen)
    → p.x ≡ 79
    → p.y < 25
    → is_newline c ≡ false
    → is_backspace c ≡ false
    → ((putc_cells page c p).y ≡ p.y + 1)
      × ((putc_background page c p).y ≡ p.y)
      × ((putc_cells page c p).x ≡ 0)
      × ((putc_background page c p).x ≡ 0)
unfolding putc_cells putc_background
putc-putc_background-differ page c p hx hy hn hb = ground arith
