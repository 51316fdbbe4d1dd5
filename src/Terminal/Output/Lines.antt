-- ===== src/Terminal/Output/Lines.antt =====
-- terminal.c: what `terminal_write` prints, and what it leaves of the timer's line.
use illinix_os.Base.{
  ◌+◌, ℕ, zero, suc, ◌^◌, ◌≤◌, ◌<◌, ◌≡◌, refl, ◌≢◌, ◌∙◌, ap, Bool, none, some, List, [], ◌∷◌, ◌++◌,
  arith, take, length, ◌==◌, if◌then◌else◌, minus_one, lt→leb_false, le→leb, ==_ne,
}
use illinix_os.Io.{Devices, cli, sti}
use illinix_os.Pic.{Pic, emit, enable_irq, disable_irq}
use illinix_os.Pic.Masks.{ReadsBack, IsSynced, masked, enable_irq-masked, disable_irq-masked}
use illinix_os.Terminal.Output.{Print, putc, putc_background, write_from, terminal_write}

-- The calls that print the characters of a list, the first of which is the `i`-th of the buffer.
abbrev pub print_all : (ℕ → Bool) → ℕ → List ℕ → List Print
print_all shown i [] = []
print_all shown i (c ∷ cs) =
    (if shown i then putc c else putc_background c) ∷ print_all shown (i + 1) cs

write_from_lem :
    (shown : ℕ → Bool) (n i : ℕ) (buf : List ℕ)
    → n ≤ length buf
    → write_from shown n i buf ≡ some (print_all shown i (take n buf))
unfolding write_from
write_from_lem shown zero i buf room = refl
write_from_lem shown (suc n) i [] room = absurd (omega arith)
write_from_lem shown (suc n) i (c ∷ buf) room =
    rw (write_from_lem shown n (i + 1) buf (omega arith)) refl

module _ (dev : Devices) (rb : ReadsBack dev) where
  -- `terminal_write` of a buffer that holds the `nbytes` bytes asked for prints each of them, on the
  -- screen if the terminal that runs is displayed at that moment and else on its page, with a line feed
  -- behind them, always on the screen, if there are 128; it returns their number and unmasks the line of the timer,
  -- and masks the other lines as they were. With a null pointer or a negative number it prints
  -- nothing, returns -1 and leaves the line of the timer masked.
  pub terminal_write_lem :
      (displayed : ℕ → ℕ) (running nbytes : ℕ) (buf : List ℕ) (p : Pic)
      → IsSynced dev (emit cli p)
      → ((nbytes < 2 ^ 31)
          → nbytes ≤ length buf
          → (p' : Pic) × (terminal_write dev displayed running (some buf) nbytes p
              ≡ some (
                nbytes,
                print_all (λ i. displayed i == running) 0 (take nbytes buf)
                    ++ (if nbytes == 128 then putc 0x0A ∷ [] else []),
                p',
              ))
            × (masked p' 0 ≡ 0)
            × ((k : ℕ) → k < 16 → k ≢ 0 → masked p' k ≡ masked p k))
        × (2 ^ 31 ≤ nbytes
            → (p' : Pic) × (terminal_write dev displayed running (some buf) nbytes p
                ≡ some (minus_one, [], p'))
              × (masked p' 0 ≡ 1))
        × ((p' : Pic) × (terminal_write dev displayed running none nbytes p
              ≡ some (minus_one, [], p'))
            × (masked p' 0 ≡ 1))
  unfolding terminal_write
  terminal_write_lem displayed running nbytes buf p synced =
      let p0 = emit cli p in
      let p1 = disable_irq dev 0 p0 in
      let p2 = emit sti (enable_irq dev 0 p1) in
      let (off, synced1) = disable_irq-masked dev rb p0 0 0 synced (omega arith) (omega arith) in
      (
        λ small room. (
          p2,
          rw
              (
                lt→leb_false 2147483648 nbytes small,
                write_from_lem (λ i. displayed i == running) nbytes 0 buf room,
              )
              refl,
          (enable_irq-masked dev rb p1 0 0 synced1 (omega arith) (omega arith)).0,
          λ k low other.
              (enable_irq-masked dev rb p1 0 k synced1 (omega arith) low).0
              ∙ ap (λ b. if b then 0 else masked p1 k) (==_ne k 0 other)
              ∙ (disable_irq-masked dev rb p0 0 k synced (omega arith) low).0
              ∙ ap (λ b. if b then 1 else masked p0 k) (==_ne k 0 other),
        ),
        λ large. (p1, rw (le→leb 2147483648 nbytes large) refl, off),
        (p1, refl, off),
      )
