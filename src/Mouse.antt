-- ===== src/Mouse.antt =====
-- mouse.c: the set-up of the mouse, and the handler of its interrupt, which moves the pointer.
pub mod Commands
pub mod Pointer
mod Tests
use illinix_os.Base.{
  ℕ, zero, suc, ◌+◌, ◌-◌, ◌*◌, ◌/◌, ◌%◌, Bool, true, false, ◌||◌, ◌&&◌, not, Option, none, some,
  List, [], ◌∷◌, ◌++◌, ◌==◌, ltb, if◌then◌else◌, ◌>>=◌, bit_and, bit_or, u8, add32, sub32, negative,
  length, replicate, drop,
}
use illinix_os.Io.{Event, Trace, Devices, cli, sti, outb, inb}
use illinix_os.Pic.{Pic, emit, enable_irq, send_eoi}
use illinix_os.Console.{video, putc}
use illinix_os.Console.PhysMem.{Memory, write}
use illinix_os.Terminal.{Terminal}

-- `mouse_x` and `mouse_y`, the statics of lib.c for the cursor, what was done on the ports, the memory,
-- and the displayed terminal.
pub record Mouse : Type 0 where
  pub mouse_x : ℕ
  pub mouse_y : ℕ
  pub pic : Pic
  pub mem : Memory
  pub terminal : Terminal
  pub screen_x : ℕ
  pub screen_y : ℕ

abbrev pub on_pic : (Pic → Pic) → Mouse → Mouse
on_pic f m = record m { pic = f m.pic }

-- The cell of the pointer on the page at `base`.
abbrev pub pointer_at : ℕ → Mouse → ℕ
pointer_at base m = base + m.mouse_y * 160 + m.mouse_x * 2

module _ (dev : Devices) where
  -- What `inb(port)` answers, and the trace with the read.
  abbrev pub answer : ℕ → Pic → ℕ
  answer port p = u8 (dev p.trace port)

  -- `for (i=0; i<100000; i++) if((inb(0x64) & 2)==0) break;`, with `left` rounds to go.
  pub wait_signal : ℕ → Pic → Pic
  wait_signal zero p = p
  wait_signal (suc left) p =
      let later = wait_signal left (emit (inb 0x64) p) in
      if bit_and (answer 0x64 p) 2 == 0 then emit (inb 0x64) p else later

  -- `for (i=0; i<100000; i++) if((inb(0x64) & 1)==1) break;`.
  pub wait_data : ℕ → Pic → Pic
  wait_data zero p = p
  wait_data (suc left) p =
      let later = wait_data left (emit (inb 0x64) p) in
      if bit_and (answer 0x64 p) 1 == 1 then emit (inb 0x64) p else later

  abbrev pub rounds : ℕ
  rounds = 100000

  -- The waits, and an `outb` or an `inb` behind them.
  abbrev pub wait_outb : ℕ → ℕ → Pic → Pic
  wait_outb value port p = emit (outb value port) (wait_signal rounds p)

  -- The two steps that stand for `mouse_write` in mouse_init.
  abbrev pub mouse_write : ℕ → Pic → Pic
  mouse_write value p = wait_outb value 0x60 (wait_outb 0xD4 0x64 p)

  abbrev pub acknowledge : Pic → Pic
  acknowledge p = emit (inb 0x60) (wait_data rounds p)

  -- The byte `temp` of mouse_init.
  abbrev pub status : Pic → ℕ
  status p = bit_or (bit_and (answer 0x60 p) 0xDF) 2

  -- The commands of mouse_init.
  pub mouse_commands : Pic → Pic
  mouse_commands p =
      let asked = wait_data rounds (wait_outb 0x20 0x64 (wait_outb 0xA8 0x64 p)) in
      let told = wait_outb (status asked) 0x60 (wait_outb 0x60 0x64 (emit (inb 0x60) asked)) in
      let rated = mouse_write 80 (
        mouse_write 0xF3
          (mouse_write 100 (mouse_write 0xF3 (mouse_write 200 (mouse_write 0xF3 told))))) in
      acknowledge (mouse_write 0xF4 (acknowledge (mouse_write 0xF6 rated)))

  -- `mouse_init`.
  unfoldable pub mouse_init : Mouse → Mouse
  unfolding mouse_commands
  mouse_init m =
      let centred = record m { mouse_x = 40; mouse_y = 13 } in
      record centred {
        mem = write m.mem (pointer_at video centred) 0x3F;
        pic = emit sti (mouse_commands (enable_irq dev 12 (emit cli m.pic)));
      }

-- A movement: a byte of the packet, or, with its sign, the byte less 256, as an `int`.
abbrev pub delta : Bool → ℕ → ℕ
delta sign byte = if sign then bit_or 0xFFFFFF00 byte else byte

-- `x / k` on `int`, which rounds towards 0.
abbrev pub quotient : ℕ → ℕ → ℕ
quotient x k = if negative x then sub32 0 (sub32 0 x / k) else x / k

-- `if (x > high) x = top; else if (x < 0) x = 0;`
abbrev pub clamp : ℕ → ℕ → ℕ → ℕ
clamp high top x = if not (negative x) && ltb high x then top else if negative x then 0 else x

-- The pointer leaves its cell, moves by a packet and shows in its new cell.
pub move_pointer : ℕ → ℕ → ℕ → Mouse → Mouse
move_pointer packet_0 packet_1 packet_2 m =
    let page = m.terminal.video_mem in
    let m1 = write m.mem (pointer_at video m) (m.mem (pointer_at page m)) in
    let m2 = write m1 (pointer_at video m + 1) (m1 (pointer_at page m + 1)) in
    let dx = delta (not (bit_and packet_0 0x10 == 0)) packet_1 in
    let dy = delta (not (bit_and packet_0 0x20 == 0)) packet_2 in
    let moved = record m {
      mouse_x = clamp 79 78 (add32 m.mouse_x (quotient dx 5));
      mouse_y = clamp 24 24 (sub32 m.mouse_y (quotient dy 10));
    } in
    record moved {
      mem = write (write m2 (pointer_at video moved) 0x3F) (pointer_at video moved + 1) 10;
    }

-- The characters of a row of the page from its `i`-th cell up to a NUL or a blank, for `temp_buf`,
-- which has room for `left` bytes from there on: the word and its NUL.
pub word_from : (ℕ → ℕ) → ℕ → ℕ → Option (List ℕ)
word_from row zero i = none
word_from row (suc left) i =
    let c = row i in
    if c == 0 || c == 0x20 then some [] else (word_from row left (i + 1) >>= λ cs. some (c ∷ cs))

-- `putc(c)` on the displayed terminal.
pub print_char : ℕ → Mouse → Mouse
unfolding putc
print_char c m =
    let t = m.terminal in
    let (q, events) = putc t.video_mem c (record {
      screen_x = m.screen_x;
      screen_y = m.screen_y;
      x = t.screen_x;
      y = t.screen_y;
      mem = m.mem;
    }) in
    record m {
      screen_x = q.screen_x;
      screen_y = q.screen_y;
      terminal = record t { screen_x = q.x; screen_y = q.y };
      mem = q.mem;
      pic = record (m.pic) { trace = events ++ m.pic.trace };
    }

pub print_text : List ℕ → Mouse → Mouse
unfolding print_char
print_text [] m = m
print_text (c ∷ cs) m = print_text cs (print_char c m)

-- The left button: the first word of the row of the pointer is the line that has been typed, and is
-- printed.
pub click : Mouse → Option Mouse
unfolding word_from print_text
click m =
    let t = m.terminal in
    word_from (λ i. m.mem (t.video_mem + m.mouse_y * 160 + i * 2)) 128 0 >>= λ text.
    let shown = print_text text m in
    some (record shown {
      terminal = record (shown.terminal) {
        typed_buf = text ++ replicate (128 - length text) 0;
        curr_char_idx = length text;
      };
    })

module _ (dev : Devices) where
  -- The end of the interrupt.
  abbrev pub leave : Mouse → Mouse
  leave m = on_pic (λ p. emit sti (send_eoi 12 p)) m

  -- `inb(port)` in the handler.
  abbrev pub take : ℕ → Mouse → Mouse
  take port m = on_pic (emit (inb port)) m

  -- `mouse_interrupt_handler`.
  unfoldable pub mouse_interrupt_handler : Mouse → Option Mouse
  unfolding move_pointer click
  mouse_interrupt_handler m =
      let m0 = on_pic (emit cli) m in
      let m1 = take 0x64 m0 in
      if not (bit_and (answer dev 0x64 m0.pic) 0x21 == 0x21)
      then some (leave m1)
      else let packet_0 = answer dev 0x60 m1.pic in
        let m2 = take 0x60 m1 in
        if not (bit_and packet_0 0xC0 == 0)
        then some (leave m2)
        else let m3 = take 0x60 m2 in
          let m4 = take 0x60 m3 in
          let m5 = take 0x60 m4 in
          let moved = move_pointer packet_0 (answer dev 0x60 m2.pic) (answer dev 0x60 m3.pic) m5 in
          if bit_and packet_0 1 == 1
          then (click moved >>= λ m6. some (leave m6))
          else some (leave moved)
