-- ===== src/Mouse/Pointer.antt =====
-- mouse.c: the pointer stays on the screen, and only its cells change there.
use illinix_os.Base.{
  ◌∷◌, [], ℕ, ◌+◌, ◌*◌, ◌≤◌, ◌<◌, ◌≡◌, refl, ◌≢◌, inl, inr, ◌∙◌, sym, Bool, true, false, some, List,
  arith, ◌==◌, ltb, not, if◌then◌else◌, bind_elim, if_elim, dec_lt, lt→leb_false, le→leb, bit_and,
  add32, sub32, subst,
}
use mathlib.Core.Option.{some-injective}
use illinix_os.Io.{Devices, cli}
use illinix_os.Pic.{Pic, emit}
use illinix_os.Console.{video, Pen, putc}
use illinix_os.Console.Cursor.{InScreen, putc_cells-cursor}
use illinix_os.Console.Writes.{Off, putc_cells-Off}
use illinix_os.Console.PhysMem.{write, write_ne}
use illinix_os.Mouse.{
  print_char, print_text, Mouse, on_pic, answer, pointer_at, clamp, delta, quotient, move_pointer,
  word_from, click, leave, take, mouse_interrupt_handler,
}

-- The pointer is on the screen.
abbrev pub IsOnScreen : Mouse → Type 0
IsOnScreen m = (m.mouse_x < 80) × (m.mouse_y < 25)

clamp-lt : (high top x : ℕ) → top ≤ high → clamp high top x < high + 1
clamp-lt high top x le = elim (dec_lt x 2147483648) [
  | yes pos ↦ rw (lt→leb_false 2147483648 x pos) (side (ltb high x) refl)
  | no neg ↦ rw (le→leb 2147483648 x (omega arith)) (omega arith)
]
  where
    side : (b : Bool) → ltb high x ≡ b → (if b then top else x) < high + 1
    side true e = omega arith
    side false e = ground arith

move_pointer-IsOnScreen : (a b c : ℕ) (m : Mouse) → IsOnScreen (move_pointer a b c m)
unfolding move_pointer
move_pointer-IsOnScreen a b c m = (
  clamp-lt 79 78 (add32 m.mouse_x (quotient (delta (not (bit_and a 16 == 0)) b) 5)) (omega arith),
  clamp-lt 24 24 (sub32 m.mouse_y (quotient (delta (not (bit_and a 32 == 0)) c) 10)) (omega arith),
)

Off-ne :
    (a : ℕ) (m : Mouse)
    → IsOnScreen m
    → Off video a
    → (pointer_at video m ≢ a) × (pointer_at video m + 1 ≢ a)
Off-ne a m (x, y) (inl low) = (λ e. omega arith, λ e. omega arith)
Off-ne a m (x, y) (inr high) = (λ e. omega arith, λ e. omega arith)

move_pointer-Off :
    (p0 p1 p2 : ℕ) (m : Mouse) (a : ℕ)
    → IsOnScreen m
    → Off video a
    → (move_pointer p0 p1 p2 m).mem a ≡ m.mem a
unfolding move_pointer
move_pointer-Off p0 p1 p2 m a on off =
    let page = m.terminal.video_mem in
    let m1 = write m.mem (pointer_at video m) (m.mem (pointer_at page m)) in
    let m2 = write m1 (pointer_at video m + 1) (m1 (pointer_at page m + 1)) in
    let moved = move_pointer p0 p1 p2 m in
    let old = Off-ne a m on off in
    let new = Off-ne a moved (move_pointer-IsOnScreen p0 p1 p2 m) off in
    write_ne (write m2 (pointer_at video moved) 0x3F) 10 new.1
    ∙ write_ne m2 0x3F new.0
    ∙ write_ne m1 (m1 (pointer_at page m + 1)) old.1
    ∙ write_ne m.mem (m.mem (pointer_at page m)) old.0

moved_page :
    (a b c : ℕ) (m : Mouse) → (move_pointer a b c m).terminal.video_mem ≡ m.terminal.video_mem
unfolding move_pointer
moved_page a b c m = refl

moved_cursor :
    (a b c : ℕ) (m : Mouse)
    → InScreen m.terminal.screen_x m.terminal.screen_y
    → let t = (move_pointer a b c m).terminal in InScreen t.screen_x t.screen_y
unfolding move_pointer
moved_cursor a b c m h = h

moved_apart :
    (a b c : ℕ) (m : Mouse)
    → video + 4000 ≤ m.terminal.video_mem
    → video + 4000 ≤ (move_pointer a b c m).terminal.video_mem
unfolding move_pointer
moved_apart a b c m h = h

-- The pointer and the cursor of the displayed terminal are on the screen, and the page of the terminal
-- lies behind the screen.
pub record IsPlaced (m : Mouse) : Type 0 where
  pub pointer : IsOnScreen m
  pub cursor : InScreen m.terminal.screen_x m.terminal.screen_y
  pub apart : video + 4000 ≤ m.terminal.video_mem

-- What stays: everything but the screen and the page of the terminal.
abbrev pub IsContained : Mouse → Mouse → Type 0
IsContained m m' =
    IsPlaced m'
    × (m'.terminal.video_mem ≡ m.terminal.video_mem)
    × ((a : ℕ) → Off video a → Off m.terminal.video_mem a → m'.mem a ≡ m.mem a)

IsContained-trans : (m m1 m2 : Mouse) → IsContained m m1 → IsContained m1 m2 → IsContained m m2
IsContained-trans m m1 m2 (w1, page1, same1) (w2, page2, same2) = (
  w2,
  page2 ∙ page1,
  λ a off off'. same2 a off (subst (λ page. Off page a) (sym page1) off') ∙ same1 a off off',
)

print_char-IsContained : (c : ℕ) (m : Mouse) → IsPlaced m → IsContained m (print_char c m)
unfolding print_char putc
print_char-IsContained c m w =
    let t = m.terminal in
    let pen : Pen = record {
      screen_x = m.screen_x;
      screen_y = m.screen_y;
      x = t.screen_x;
      y = t.screen_y;
      mem = m.mem;
    } in
    (
      record {
        pointer = w.pointer;
        cursor = (putc_cells-cursor t.video_mem c pen w.cursor).0;
        apart = w.apart;
      },
      refl,
      λ a off off'. putc_cells-Off t.video_mem c pen a w.apart w.cursor off off',
    )

print_text-IsContained : (cs : List ℕ) (m : Mouse) → IsPlaced m → IsContained m (print_text cs m)
unfolding print_text
print_text-IsContained [] m w = (w, refl, λ a off off'. refl)
print_text-IsContained (c ∷ cs) m w =
    let first = print_char-IsContained c m w in
    IsContained-trans m (print_char c m) (print_text cs (print_char c m)) first
      (print_text-IsContained cs (print_char c m) first.0)

click-IsContained : (m m' : Mouse) → IsPlaced m → click m ≡ some m' → IsContained m m'
unfolding click
click-IsContained m m' w done =
    bind_elim (word_from (λ i. m.mem (m.terminal.video_mem + m.mouse_y * 160 + i * 2)) 128 0) _ done
      λ text e same.
        let (placed, page, frame) = print_text-IsContained text m w in
        subst (IsContained m) (some-injective _ _ same) (
          record { pointer = placed.pointer; cursor = placed.cursor; apart = placed.apart },
          page,
          frame,
        )

-- The handler of the mouse keeps the pointer and the cursor on the screen, whatever the mouse sends and
-- whatever word a click prints, and changes no byte of the memory but those of the screen and of the
-- page of the displayed terminal.
pub mouse_interrupt_handler-IsContained :
    (dev : Devices) (m m' : Mouse)
    → IsPlaced m
    → mouse_interrupt_handler dev m ≡ some m'
    → IsContained m m'
unfolding mouse_interrupt_handler
mouse_interrupt_handler-IsContained dev m m' w done =
    let m0 = on_pic (emit cli) m in
    let m1 = take dev 0x64 m0 in
    let packet_0 = answer dev 0x60 m1.pic in
    let m2 = take dev 0x60 m1 in
    let m3 = take dev 0x60 m2 in
    let m5 = take dev 0x60 (take dev 0x60 m3) in
    let dx = answer dev 0x60 m2.pic in
    let dy = answer dev 0x60 m3.pic in
    let moved = move_pointer packet_0 dx dy m5 in
    let inside : IsContained m moved = (
      record {
        pointer = move_pointer-IsOnScreen packet_0 dx dy m5;
        cursor = moved_cursor packet_0 dx dy m5 w.cursor;
        apart = moved_apart packet_0 dx dy m5 w.apart;
      },
      moved_page packet_0 dx dy m5,
      λ a off off'. move_pointer-Off packet_0 dx dy m5 a w.pointer off,
    ) in
    let again : (p : Pic) → IsContained m (record m { pic = p }) = λ p. (
      record { pointer = w.pointer; cursor = w.cursor; apart = w.apart },
      refl,
      λ a off off'. refl,
    ) in
    let leave-IsContained : (q : Mouse)
        → IsContained m q
        → some (leave dev q) ≡ some m'
        → IsContained m m' =
      λ q c e.
        subst (IsContained m) (some-injective _ _ e)
          (record { pointer = c.0.pointer; cursor = c.0.cursor; apart = c.0.apart }, c.1, c.2) in
    if_elim (not (bit_and (answer dev 0x64 m0.pic) 0x21 == 0x21)) done
      (λ b e. leave-IsContained m1 (again m1.pic) e)
      λ b d1.
        if_elim (not (bit_and packet_0 0xC0 == 0)) d1 (λ b e. leave-IsContained m2 (again m2.pic) e)
          λ b d2.
            if_elim (bit_and packet_0 1 == 1) d2
              (λ b d3.
                bind_elim (click moved) (λ m6. some (leave dev m6)) d3
                  λ m6 e4 d4.
                    leave-IsContained m6
                      (IsContained-trans m moved m6 inside (click-IsContained moved m6 inside.0 e4))
                      d4)
              (λ b e. leave-IsContained moved inside e)
