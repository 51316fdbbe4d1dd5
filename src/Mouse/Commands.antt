-- ===== src/Mouse/Commands.antt =====
-- mouse.c: what `mouse_init` tells the controller, whatever it answers.
use illinix_os.Base.{
  ℕ, zero, suc, ◌≡◌, refl, ◌∙◌, ap, Bool, true, false, List, [], ◌∷◌, if◌then◌else◌, bit_and,
  bit_or, ◌==◌,
}
use illinix_os.Io.{Trace, Devices, cli, sti, outb, inb}
use illinix_os.Pic.{Pic, emit}
use illinix_os.Mouse.{
  answer, wait_signal, wait_data, wait_outb, mouse_write, rounds, acknowledge, status,
  mouse_commands,
}

-- The writes in a trace, the last one first.
abbrev pub writes : Trace → List (ℕ × ℕ)
writes [] = []
writes (cli ∷ t) = writes t
writes (sti ∷ t) = writes t
writes (outb v p ∷ t) = (v, p) ∷ writes t
writes (inb p ∷ t) = writes t

either :
    (b : Bool) (p q : Pic) {ws : List (ℕ × ℕ)}
    → writes p.trace ≡ ws
    → writes q.trace ≡ ws
    → writes (if b then p else q).trace ≡ ws
either true p q e e' = e
either false p q e e' = e'

module _ (dev : Devices) where
  -- The waits write nothing.
  wait_signal-writes : (left : ℕ) (p : Pic) → writes (wait_signal dev left p).trace ≡ writes p.trace
  unfolding wait_signal
  wait_signal-writes zero p = refl
  wait_signal-writes (suc left) p =
      either (bit_and (answer dev 0x64 p) 2 == 0) (emit (inb 0x64) p)
        (wait_signal dev left (emit (inb 0x64) p)) refl
        (wait_signal-writes left (emit (inb 0x64) p))

  wait_data-writes : (left : ℕ) (p : Pic) → writes (wait_data dev left p).trace ≡ writes p.trace
  unfolding wait_data
  wait_data-writes zero p = refl
  wait_data-writes (suc left) p =
      either (bit_and (answer dev 0x64 p) 1 == 1) (emit (inb 0x64) p)
        (wait_data dev left (emit (inb 0x64) p)) refl (wait_data-writes left (emit (inb 0x64) p))

  wait_outb-writes :
      (v port : ℕ) (p : Pic) {ws : List (ℕ × ℕ)}
      → writes p.trace ≡ ws
      → writes (wait_outb dev v port p).trace ≡ (v, port) ∷ ws
  wait_outb-writes v port p e = ap (λ ws. (v, port) ∷ ws) (wait_signal-writes (rounds dev) p ∙ e)

  mouse_write-writes :
      (v : ℕ) (p : Pic) {ws : List (ℕ × ℕ)}
      → writes p.trace ≡ ws
      → writes (mouse_write dev v p).trace ≡ (v, 0x60) ∷ (0xD4, 0x64) ∷ ws
  mouse_write-writes v p e =
      wait_outb-writes v 0x60 (wait_outb dev 0xD4 0x64 p) (wait_outb-writes 0xD4 0x64 p e)

  acknowledge-writes :
      (p : Pic) {ws : List (ℕ × ℕ)} → writes p.trace ≡ ws → writes (acknowledge dev p).trace ≡ ws
  acknowledge-writes p e = wait_data-writes (rounds dev) p ∙ e

  -- `mouse_init` ends, and whatever the controller answers, and also if it never is ready, it tells
  -- it the same commands in the same order: to enable the mouse port, to take the status byte with
  -- the interrupts of the mouse switched on, the rates 200, 100 and 80, the defaults, and to report.
  -- Only the status byte hangs on an answer `b`.
  pub mouse_commands_lem :
      (p : Pic)
      → (b : ℕ) × (writes (mouse_commands dev p).trace
          ≡ (0xF4, 0x60)
            ∷ (0xD4, 0x64)
            ∷ (0xF6, 0x60)
            ∷ (0xD4, 0x64)
            ∷ (80, 0x60)
            ∷ (0xD4, 0x64)
            ∷ (0xF3, 0x60)
            ∷ (0xD4, 0x64)
            ∷ (100, 0x60)
            ∷ (0xD4, 0x64)
            ∷ (0xF3, 0x60)
            ∷ (0xD4, 0x64)
            ∷ (200, 0x60)
            ∷ (0xD4, 0x64)
            ∷ (0xF3, 0x60)
            ∷ (0xD4, 0x64)
            ∷ (bit_or (bit_and b 0xDF) 2, 0x60)
            ∷ (0x60, 0x64)
            ∷ (0x20, 0x64)
            ∷ (0xA8, 0x64)
            ∷ writes p.trace)
  unfolding mouse_commands
  mouse_commands_lem p =
      let ready = wait_outb dev 0x20 0x64 (wait_outb dev 0xA8 0x64 p) in
      let asked = wait_data dev (rounds dev) ready in
      let e1 =
        wait_data-writes (rounds dev) ready
        ∙ wait_outb-writes 0x20 0x64 (wait_outb dev 0xA8 0x64 p)
            (wait_outb-writes 0xA8 0x64 p refl) in
      let p2 = wait_outb dev 0x60 0x64 (emit (inb 0x60) asked) in
      let e2 = wait_outb-writes 0x60 0x64 (emit (inb 0x60) asked) e1 in
      let p3 = wait_outb dev (status dev asked) 0x60 p2 in
      let e3 = wait_outb-writes (status dev asked) 0x60 p2 e2 in
      let p4 = mouse_write dev 0xF3 p3 in
      let e4 = mouse_write-writes 0xF3 p3 e3 in
      let p5 = mouse_write dev 200 p4 in
      let e5 = mouse_write-writes 200 p4 e4 in
      let p6 = mouse_write dev 0xF3 p5 in
      let e6 = mouse_write-writes 0xF3 p5 e5 in
      let p7 = mouse_write dev 100 p6 in
      let e7 = mouse_write-writes 100 p6 e6 in
      let p8 = mouse_write dev 0xF3 p7 in
      let e8 = mouse_write-writes 0xF3 p7 e7 in
      let p9 = mouse_write dev 80 p8 in
      let e9 = mouse_write-writes 80 p8 e8 in
      let p10 = mouse_write dev 0xF6 p9 in
      let e10 = acknowledge-writes p10 (mouse_write-writes 0xF6 p9 e9) in
      let p11 = mouse_write dev 0xF4 (acknowledge dev p10) in
      (
        answer dev 0x60 asked,
        acknowledge-writes p11 (mouse_write-writes 0xF4 (acknowledge dev p10) e10),
      )
