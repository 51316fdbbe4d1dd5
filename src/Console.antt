-- ===== src/Console.antt =====
-- lib.c: the text screen. `Pen` holds the cursor of one terminal, lib.c's own copy of it, and the
-- memory that holds the screen at VIDEO and the page of each terminal behind it.
pub mod PhysMem
pub mod Scroll
pub mod Cursor
pub mod Writes
mod Tests
use PhysMem.{Memory, write}
use illinix_os.Base.{
  ℕ, zero, suc, ◌+◌, ◌-◌, ◌*◌, ◌%◌, ◌/◌, Bool, true, false, ◌&&◌, ◌||◌, not, List, [], ◌∷◌, ◌==◌,
  ltb, if◌then◌else◌, u16, bit_and,
}
use illinix_os.Io.{Event, Trace, cli, sti, outb}

abbrev pub video : ℕ
video = 0xB8000

abbrev pub num_cols : ℕ
num_cols = 80

abbrev pub num_rows : ℕ
num_rows = 25

pub record Pen : Type 0 where
  -- The statics `screen_x` and `screen_y` of lib.c.
  pub screen_x : ℕ
  pub screen_y : ℕ
  -- `terminals[…].screen_x` and `terminals[…].screen_y`.
  pub x : ℕ
  pub y : ℕ
  pub mem : Memory

-- `c == '\n' || c == '\r'`.
abbrev pub is_newline : ℕ → Bool
is_newline c = c == 0x0A || c == 0x0D

-- `c == '\b'`.
abbrev pub is_backspace : ℕ → Bool
is_backspace c = c == 0x08

-- The address of a cell on the page at `base`: `base + ((NUM_COLS * row + column) << 1)`.
abbrev pub cell : ℕ → ℕ → ℕ → ℕ
cell base row column = base + (num_cols * row + column) * 2

-- The loop of `clear`, with `left` rounds to go.
pub clear_from : ℕ → ℕ → ℕ → Memory → Memory
clear_from page zero i m = m
clear_from page (suc left) i m =
    clear_from page left (i + 1) (write (write m (video + i * 2) 0x20) (page + i * 2) 0x20)

pub clear : ℕ → Pen → Pen
clear page p = record {
  screen_x = 0;
  screen_y = 0;
  x = 0;
  y = 0;
  mem = clear_from page (num_rows * num_cols) 0 p.mem;
}

-- The test for scrolling up.
abbrev pub must_scroll : ℕ → ℕ → ℕ → Bool
must_scroll c screen_x screen_y =
    not (is_backspace c)
    && ((screen_y == num_rows && screen_x == 0) || (is_newline c && screen_y == num_rows - 1))

-- One round of the scroll loop of `putc_background`, on the page of the terminal.
abbrev pub scroll_page : ℕ → ℕ → Memory → Memory
scroll_page page i m =
    if ltb ((num_rows - 1) * num_cols - 1) i
    then write m (page + i * 2) 0x20
    else write m (page + i * 2) (m (page + num_cols * 2 + i * 2))

-- One round of the scroll loop of `putc`. Where the screen shows the mouse, the mark '?' is not
-- moved: the character below it comes from the page of the terminal.
abbrev pub scroll_both : ℕ → ℕ → Memory → Memory
scroll_both page i m =
    if ltb ((num_rows - 1) * num_cols - 1) i
    then write (write m (video + i * 2) 0x20) (page + i * 2) 0x20
    else let below = m (video + num_cols * 2 + i * 2) in
      let shown =
        if not (below == 0x3F)
        then write m (video + i * 2) below
        else write m (video + i * 2) (m (page + num_cols * 2 + i * 2)) in
      write shown (page + i * 2) (shown (page + num_cols * 2 + i * 2))

-- A scroll loop over the cells from `i` on, with `left` rounds to go.
pub scroll_from : (ℕ → Memory → Memory) → ℕ → ℕ → Memory → Memory
scroll_from round zero i m = m
scroll_from round (suc left) i m = scroll_from round left (i + 1) (round i m)

abbrev pub scroll : (ℕ → Memory → Memory) → Memory → Memory
scroll round m = scroll_from round (num_rows * num_cols) 0 m

-- The first part of `putc_background`: the statics are loaded, and the page scrolls if it must.
pub background_scrolled : ℕ → ℕ → Pen → Pen
background_scrolled page c p =
    let loaded = record p { screen_x = p.x; screen_y = p.y } in
    if must_scroll c p.x p.y
    then record loaded { mem = scroll (scroll_page page) p.mem; x = 0; y = num_rows - 1 }
    else loaded

-- The second part, at the flag that says whether the page has scrolled. The statics are still those
-- that were loaded.
pub background_put : ℕ → ℕ → Bool → Pen → Pen
background_put page c flag q =
    if is_newline c && not flag
    then record q { x = 0; y = q.y + 1 }
    else if is_backspace c
    then if not (q.screen_x == 0)
      then record q { x = q.x - 1; mem = write q.mem (cell page q.y (q.x - 1)) 0x20 }
      else if not (q.screen_y == 0)
      then record q {
        x = num_cols - 1;
        y = q.y - 1;
        mem = write q.mem (cell page (q.y - 1) (num_cols - 1)) 0x20;
      }
      else q
    else let put =
        if is_newline c
        then q
        else record q { x = q.x + 1; mem = write q.mem (cell page q.y q.x) c } in
      let wrapped = if put.screen_x == num_cols then record put { y = put.y + 1 } else put in
      record wrapped { x = wrapped.x % num_cols }

-- `putc_background`, on the page of the terminal.
pub putc_background : ℕ → ℕ → Pen → Pen
unfolding background_scrolled background_put
putc_background page c p =
    background_put page c (must_scroll c p.x p.y) (background_scrolled page c p)

-- The first part of `putc`.
pub putc_scrolled : ℕ → ℕ → Pen → Pen
putc_scrolled page c p =
    if must_scroll c p.x p.y
    then record {
      mem = scroll (scroll_both page) p.mem;
      screen_x = 0;
      screen_y = num_rows - 1;
      x = 0;
      y = num_rows - 1;
    }
    else record p { screen_x = p.x; screen_y = p.y }

-- The second part of `putc`, at the flag that says whether the screen has scrolled.
pub putc_put : ℕ → ℕ → Bool → Pen → Pen
putc_put page c flag q =
    if is_newline c && not flag
    then record q { screen_x = 0; screen_y = q.screen_y + 1; x = 0; y = q.y + 1 }
    else if is_backspace c
    then if not (q.screen_x == 0)
      then record q {
        screen_x = q.screen_x - 1;
        x = q.x - 1;
        mem =
            write (write q.mem (cell video q.screen_y (q.screen_x - 1)) 0x20)
              (cell page q.y (q.x - 1)) 0x20;
      }
      else if not (q.screen_y == 0)
      then record q {
        screen_y = q.screen_y - 1;
        screen_x = num_cols - 1;
        x = num_cols - 1;
        y = q.y - 1;
        mem =
            write (write q.mem (cell video (q.screen_y - 1) (num_cols - 1)) 0x20)
              (cell page (q.y - 1) (num_cols - 1)) 0x20;
      }
      else q
    else let put = if is_newline c then q else record q {
      screen_x = q.screen_x + 1;
      x = q.x + 1;
      mem = write (write q.mem (cell video q.screen_y q.screen_x) c) (cell page q.y q.x) c;
    } in
      let wrapped =
        if put.screen_x == num_cols
        then record put { screen_y = put.screen_y + 1; y = put.y + 1 }
        else put in
      record wrapped { screen_x = wrapped.screen_x % num_cols; x = wrapped.x % num_cols }

-- `putc`, but for the cursor of the hardware.
pub putc_cells : ℕ → ℕ → Pen → Pen
unfolding putc_scrolled putc_put
putc_cells page c p = putc_put page c (must_scroll c p.x p.y) (putc_scrolled page c p)

-- What `putc` tells the cursor registers at the end, inside its critical section.
abbrev pub cursor_events : Pen → Trace
cursor_events p =
    let pos = u16 (p.screen_y * num_cols + p.screen_x) in
    sti
    ∷ outb (pos / 256 % 256) 0x3D5
    ∷ outb 0x0E 0x3D4
    ∷ outb (pos % 256) 0x3D5
    ∷ outb 0x0F 0x3D4
    ∷ cli
    ∷ []

-- `putc`: the new state and the events, the last one first.
unfoldable pub putc : ℕ → ℕ → Pen → Pen × Trace
unfolding putc_cells
putc page c p = let q = putc_cells page c p in (q, cursor_events q)
