-- ===== src/Terminal/Output.antt =====
-- terminal.c: terminal_open, terminal_close and terminal_write. What is printed is the list of the
-- characters that are handed to putc, for the displayed terminal, and to putc_background.
pub mod Lines
mod Tests
use illinix_os.Base.{
  ℕ, zero, suc, ◌+◌, Bool, true, false, Option, none, some, List, [], ◌∷◌, ◌++◌, ◌==◌,
  if◌then◌else◌, ◌>>=◌, negative, minus_one, replicate,
}
use illinix_os.Io.{Devices, cli, sti}
use illinix_os.Pic.{Pic, emit, enable_irq, disable_irq}

-- A call of putc or of putc_background.
pub data Print : Type 0 where
  putc : ℕ → Print
  putc_background : ℕ → Print

-- `terminal_open`: the value, and `share_buffer` afterwards.
unfoldable pub terminal_open : ℕ × List ℕ
terminal_open = (0, replicate 128 0)

unfoldable pub terminal_close : ℕ → ℕ
terminal_close fd = 0

-- The loop of `terminal_write` over `buf_temp[i]`, from the `i`-th byte on, with `left` rounds to go:
-- `shown i` says whether the terminal that runs is on the screen when that byte is printed. Another
-- one may be displayed in between, since putc turns the interrupts on.
pub write_from : (ℕ → Bool) → ℕ → ℕ → List ℕ → Option (List Print)
write_from shown zero i buf = some []
write_from shown (suc left) i [] = none
write_from shown (suc left) i (c ∷ buf) = write_from shown left (i + 1) buf >>= λ ps.
    some ((if shown i then putc c else putc_background c) ∷ ps)

module _ (dev : Devices) where
  -- `terminal_write` for the terminal `running`, where `displayed i` is on the screen when the `i`-th
  -- byte is printed; a buffer of `none` is the null pointer. The value, what is printed, and the ports.
  unfoldable pub terminal_write :
      (ℕ → ℕ) → ℕ → Option (List ℕ) → ℕ → Pic → Option (ℕ × List Print × Pic)
  unfolding write_from
  terminal_write displayed running none nbytes p =
      some (minus_one, [], disable_irq dev 0 (emit cli p))
  terminal_write displayed running (some buf) nbytes p =
      let masked = disable_irq dev 0 (emit cli p) in
      if negative nbytes
      then some (minus_one, [], masked)
      else (write_from (λ i. displayed i == running) nbytes 0 buf >>= λ ps. some (
        nbytes,
        ps ++ (if nbytes == 128 then putc 0x0A ∷ [] else []),
        emit sti (enable_irq dev 0 masked),
      ))
