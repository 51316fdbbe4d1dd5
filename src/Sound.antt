-- ===== src/Sound.antt =====
-- sound.c: the speaker of the PC, driven through the ports of its timer.
pub mod Tone
mod Tests
use illinix_os.Base.{
  ℕ, ◌+◌, ◌-◌, ◌/◌, ◌%◌, List, [], ◌∷◌, ◌==◌, not, ltb, if◌then◌else◌, u8, bit_and, bit_or, sub32,
}
use illinix_os.Io.{Event, Trace, Devices, cli, sti, outb, inb}

-- The global `sound_freq`, and what was done on the ports.
pub record Speaker : Type 0 where
  pub sound_freq : ℕ
  pub trace : Trace

-- The divisor that `play_sound` gives the timer.
abbrev pub divisor : ℕ → ℕ
divisor frequence = 1193180 / frequence

module _ (dev : Devices) where
  -- `play_sound`: the mode and the two bytes of the divisor, and the speaker on if it is off.
  unfoldable pub play_sound : ℕ → Speaker → Speaker
  play_sound frequence s =
      let set =
        outb (divisor frequence / 256 % 256) 0x42
        ∷ outb (divisor frequence % 256) 0x42
        ∷ outb 0xB6 0x43
        ∷ s.trace in
      let tmp = u8 (dev set 0x61) in
      if not (tmp == bit_or tmp 3)
      then record s { trace = outb (bit_or tmp 3) 0x61 ∷ inb 0x61 ∷ set }
      else record s { trace = inb 0x61 ∷ set }

  unfoldable pub nosound : Speaker → Speaker
  nosound s =
      let asked = cli ∷ s.trace in
      record s { trace = sti ∷ outb (bit_and (u8 (dev asked 0x61)) 0xFC) 0x61 ∷ inb 0x61 ∷ asked }

  unfoldable pub beep : Speaker → Speaker
  unfolding play_sound
  beep s =
      let frequence = (if ltb 1100 s.sound_freq then 200 else s.sound_freq) + 40 in
      play_sound frequence (record s { sound_freq = frequence })

  unfoldable pub beep_init : Speaker → Speaker
  unfolding play_sound
  beep_init s =
      let frequence = sub32 (if ltb s.sound_freq 200 then 1200 else s.sound_freq) 100 in
      play_sound frequence (record s { sound_freq = frequence })
