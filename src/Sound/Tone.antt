-- ===== src/Sound/Tone.antt =====
-- sound.c: the range of the tones, and the divisor that the timer receives.
use illinix_os.Base.{ℕ, ◌+◌, ◌*◌, ◌/◌, ◌≡◌, ◌∷◌, ◌++◌, ltb, Bool, ◌||◌}
use illinix_os.Io.{Trace, outb}
use illinix_os.Sound.{divisor}

-- The timer is told the divisor: its mode, then the low and the high byte, which are all of it.
pub record IsToned (before after : Trace) (frequence : ℕ) : Type 0 where
  pub low : ℕ
  pub high : ℕ
  pub rest : Trace
  pub told : after ≡ rest ++ (outb high 0x42 ∷ outb low 0x42 ∷ outb 0xB6 0x43 ∷ before)
  pub whole : high * 256 + low ≡ 1193180 / frequence

abbrev fits : ℕ → Bool
fits f = ltb f 240 || ltb (divisor f) 65536
