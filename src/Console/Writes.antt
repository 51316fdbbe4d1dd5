-- ===== src/Console/Writes.antt =====
-- lib.c: the bytes of memory that `putc` and `putc_background` write.
use illinix_os.Base.{
  ℕ, ◌+◌, ◌*◌, ◌≤◌, ◌<◌, ◌≡◌, refl, ◌⊎◌, ◌∙◌, arith, if◌then◌else◌, ◌==◌, true, false, Bool,
  Bool-cases, inl, inr,
}
use illinix_os.Console.Scroll.{scroll_page_lem, scroll_both_lem}
use illinix_os.Console.Cursor.{InScreen}
use illinix_os.Console.{
  background_scrolled, background_put, putc_scrolled, putc_put, Pen, putc_cells, putc_background,
  is_newline, is_backspace, must_scroll, video,
}

-- An address off the 2000 cells at `base`.
abbrev pub Off : ℕ → ℕ → Type 0
Off base a = (a < base) ⊎ (base + 4000 ≤ a)

-- How the first part leaves the cursor for the second.
abbrev Placed : ℕ → Bool → Pen → Type 0
Placed c flag q =
    ((flag ≡ false)
      × (q.screen_x ≡ q.x)
      × (q.screen_y ≡ q.y)
      × InScreen q.x q.y
      × (q.y ≡ 25 → is_backspace c ≡ true))
    ⊎ ((flag ≡ true) × (q.x ≡ 0) × (q.y ≡ 24) × (is_backspace c ≡ false))

scroll_needs : (c x y : ℕ) → must_scroll c x y ≡ true → is_backspace c ≡ false
scroll_needs c x y up = ground arith

stay_needs : (c x y : ℕ) → InScreen x y → must_scroll c x y ≡ false → y ≡ 25 → is_backspace c ≡ true
stay_needs c x y h stay bottom = ground arith

background_scrolled-Placed :
    (page c : ℕ) (p : Pen)
    → InScreen p.x p.y
    → Placed c (must_scroll c p.x p.y) (background_scrolled page c p)
unfolding background_scrolled
background_scrolled-Placed page c p h = elim (Bool-cases (must_scroll c p.x p.y)) [
  | inl up ↦ rw up (inr (refl, refl, refl, scroll_needs c p.x p.y up))
  | inr stay ↦ rw stay (inl (refl, refl, refl, h, stay_needs c p.x p.y h stay))
]

background_scrolled-Off :
    (page c : ℕ) (p : Pen) (a : ℕ) → Off page a → (background_scrolled page c p).mem a ≡ p.mem a
unfolding background_scrolled
background_scrolled-Off page c p a off = ground (arith, (scroll_page_lem page p.mem).after a)

-- The part that puts the character writes one cell of the page at most.
background_put-Off :
    (page c : ℕ) (flag : Bool) (q : Pen) (a : ℕ)
    → Placed c flag q
    → Off page a
    → (background_put page c flag q).mem a ≡ q.mem a
unfolding background_put
background_put-Off page c flag q a h off = ground arith

-- `putc_background` writes no byte but those of the page of its terminal: the screen and the pages
-- of the other terminals stay.
pub putc_background-Off :
    (page c : ℕ) (p : Pen) (a : ℕ)
    → InScreen p.x p.y
    → Off page a
    → (putc_background page c p).mem a ≡ p.mem a
unfolding putc_background
putc_background-Off page c p a h off =
    background_put-Off page c (must_scroll c p.x p.y) (background_scrolled page c p) a
      (background_scrolled-Placed page c p h) off
    ∙ background_scrolled-Off page c p a off

putc_scrolled-Placed :
    (page c : ℕ) (p : Pen)
    → InScreen p.x p.y
    → Placed c (must_scroll c p.x p.y) (putc_scrolled page c p)
unfolding putc_scrolled
putc_scrolled-Placed page c p h = elim (Bool-cases (must_scroll c p.x p.y)) [
  | inl up ↦ rw up (inr (refl, refl, refl, scroll_needs c p.x p.y up))
  | inr stay ↦ rw stay (inl (refl, refl, refl, h, stay_needs c p.x p.y h stay))
]

-- The first part of `putc` leaves lib.c's copy of the cursor equal to the terminal's.
putc_scrolled-agrees :
    (page c : ℕ) (p : Pen)
    → let q = putc_scrolled page c p in (q.screen_x ≡ q.x) × (q.screen_y ≡ q.y)
unfolding putc_scrolled
putc_scrolled-agrees page c p = ground arith

putc_scrolled-Off :
    (page c : ℕ) (p : Pen) (a : ℕ)
    → video + 4000 ≤ page
    → Off video a
    → Off page a
    → (putc_scrolled page c p).mem a ≡ p.mem a
unfolding putc_scrolled
putc_scrolled-Off page c p a apart off off' =
    ground (arith, (scroll_both_lem page p.mem apart).after a)

putc_put-Off :
    (page c : ℕ) (flag : Bool) (q : Pen) (a : ℕ)
    → (q.screen_x ≡ q.x) × (q.screen_y ≡ q.y)
    → Placed c flag q
    → Off video a
    → Off page a
    → (putc_put page c flag q).mem a ≡ q.mem a
unfolding putc_put
putc_put-Off page c flag q a agree h off off' = ground arith

-- `putc` writes no byte but those of the screen and of the page of its terminal.
pub putc_cells-Off :
    (page c : ℕ) (p : Pen) (a : ℕ)
    → video + 4000 ≤ page
    → InScreen p.x p.y
    → Off video a
    → Off page a
    → (putc_cells page c p).mem a ≡ p.mem a
unfolding putc_cells
putc_cells-Off page c p a apart h off off' =
    putc_put-Off page c (must_scroll c p.x p.y) (putc_scrolled page c p) a
      (putc_scrolled-agrees page c p) (putc_scrolled-Placed page c p h) off off'
    ∙ putc_scrolled-Off page c p a apart off off'

-- A character that is neither a line feed nor a backspace, printed by `putc`, stands on the screen
-- and on the page of the terminal, in the cell of the cursor, which is the first of the last row
-- if the screen had to scroll.
pub putc_cells-shows :
    (page c : ℕ) (p : Pen)
    → video + 4000 ≤ page
    → InScreen p.x p.y
    → is_newline c ≡ false
    → is_backspace c ≡ false
    → let m = (putc_cells page c p).mem in
      let k = if p.y == 25 then 1920 else p.y * 80 + p.x in
      (m (video + k * 2) ≡ c) × (m (page + k * 2) ≡ c)
unfolding putc_cells putc_scrolled putc_put
putc_cells-shows page c p apart h hn hb = ground arith
