-- ===== src/Pic/Masks.antt =====
-- i8259.c: the masks of the sixteen lines, on controllers that keep what is written to them.
use illinix_os.Base.{
  true, false, ==_iff, ap, dec_lt, le→ltb_false, ℕ, ◌+◌, ◌-◌, ◌≤◌, ◌<◌, ◌≡◌, refl, ◌∙◌, arith, ltb,
  if◌then◌else◌, ◌==◌, ◌∷◌, [], not, Bool, ◌/◌, ◌%◌, u8, bit, bit_or, clear_bit, set_bit,
  bit-clear_bit, bit-set_bit, clear_bit-lt, set_bit-lt, lt→ltb, all_below, all_below_sound,
}
use illinix_os.Io.{Event, Trace, Devices, cli, sti, outb, inb, interrupt_flag}
use illinix_os.Pic.{
  emit, master_8259_port, slave_8259_port, initialize, write_master, write_slave, Pic, enable_irq,
  disable_irq, i8259_init, send_eoi, master_data, slave_data,
}

-- How many words of an initialisation a controller still waits for on its data port. A write to its
-- command port with bit 4 set begins an initialisation, of at most three
-- words.
abbrev pub words_left : ℕ → ℕ → Trace → ℕ
words_left command mask [] = 0
words_left command mask (cli ∷ t) = words_left command mask t
words_left command mask (sti ∷ t) = words_left command mask t
words_left command mask (inb port ∷ t) = words_left command mask t
words_left command mask (outb v port ∷ t) =
    if port == command
    then (if v / 16 % 2 == 1 then 3 else words_left command mask t)
    else if port == mask
    then words_left command mask t - 1
    else words_left command mask t

-- The events that leave the mask of a controller alone: all but the writes to its data port and the
-- writes to its command port that are no end of an interrupt.
abbrev pub keeps_mask : ℕ → ℕ → Event → Bool
keeps_mask command mask cli = true
keeps_mask command mask sti = true
keeps_mask command mask (inb port) = true
keeps_mask command mask (outb v port) =
    if port == command then v / 8 % 4 == 0 else not (port == mask)

-- The controllers give back the mask that was last written to their data port, if it was a byte and
-- no word of an initialisation.
pub record ReadsBack (dev : Devices) : Type 0 where
  pub master :
      (t : Trace) (v : ℕ)
      → v < 256
      → words_left master_8259_port master_data t ≡ 0
      → dev (outb v master_data ∷ t) master_data ≡ v
  pub slave :
      (t : Trace) (v : ℕ)
      → v < 256
      → words_left slave_8259_port slave_data t ≡ 0
      → dev (outb v slave_data ∷ t) slave_data ≡ v
  pub master_kept :
      (t : Trace) (e : Event)
      → keeps_mask master_8259_port master_data e ≡ true
      → dev (e ∷ t) master_data ≡ dev t master_data
  pub slave_kept :
      (t : Trace) (e : Event)
      → keeps_mask slave_8259_port slave_data e ≡ true
      → dev (e ∷ t) slave_data ≡ dev t slave_data

-- The controllers are initialised, and the kernel's copies of the masks are theirs.
pub record IsSynced (dev : Devices) (p : Pic) : Type 0 where
  pub master : dev p.trace master_data ≡ p.master_mask
  pub slave : dev p.trace slave_data ≡ p.slave_mask
  pub master_ready : words_left master_8259_port master_data p.trace ≡ 0
  pub slave_ready : words_left slave_8259_port slave_data p.trace ≡ 0
  pub master_byte : p.master_mask < 256
  pub slave_byte : p.slave_mask < 256

-- 1 if the line is masked, 0 if its interrupts come through.
abbrev pub masked : Pic → ℕ → ℕ
masked p irq_num =
    if ltb irq_num 8 then bit irq_num p.master_mask else bit (irq_num - 8) p.slave_mask

abbrev all_set : ℕ → ℕ
all_set k = if ltb k 8 then bit k 0xFF else bit (k - 8) 0xFF

all_set_table : all_below 16 (λ k. all_set k == 1) ≡ true
unfolding all_below
all_set_table = refl

all_masked : (k : ℕ) → k < 16 → all_set k ≡ 1
all_masked k h = (==_iff _ 1).0 (all_below_sound 16 (λ j. all_set j == 1) k all_set_table h)

words_left-kept :
    (command mask : ℕ) (e : Event) (t : Trace)
    → keeps_mask command mask e ≡ true
    → words_left command mask (e ∷ t) ≡ words_left command mask t
words_left-kept command mask cli t h = refl
words_left-kept command mask sti t h = refl
words_left-kept command mask (inb port) t h = refl
words_left-kept command mask (outb v port) t h = ground arith

module _ (dev : Devices) (rb : ReadsBack dev) where
  write_master-IsSynced :
      (v : ℕ) (p : Pic) → v < 256 → IsSynced dev p → IsSynced dev (write_master v p)
  write_master-IsSynced v p low s = record {
    master = rb.master (inb master_data ∷ p.trace) v low s.master_ready;
    slave =
        rb.slave_kept (inb master_data ∷ p.trace) (outb v master_data) refl
        ∙ rb.slave_kept p.trace (inb master_data) refl
        ∙ s.slave;
    master_ready = ap (λ n. n - 1) s.master_ready;
    slave_ready = s.slave_ready;
    master_byte = low;
    slave_byte = s.slave_byte;
  }

  write_slave-IsSynced :
      (v : ℕ) (p : Pic) → v < 256 → IsSynced dev p → IsSynced dev (write_slave v p)
  write_slave-IsSynced v p low s = record {
    master =
        rb.master_kept (inb slave_data ∷ p.trace) (outb v slave_data) refl
        ∙ rb.master_kept p.trace (inb slave_data) refl
        ∙ s.master;
    slave = rb.slave (inb slave_data ∷ p.trace) v low s.slave_ready;
    master_ready = s.master_ready;
    slave_ready = ap (λ n. n - 1) s.slave_ready;
    master_byte = s.master_byte;
    slave_byte = low;
  }

  -- An event that writes to neither controller but an end of an interrupt.
  pub emit-IsSynced :
      (e : Event) (p : Pic)
      → keeps_mask master_8259_port master_data e ≡ true
      → keeps_mask slave_8259_port slave_data e ≡ true
      → IsSynced dev p
      → IsSynced dev (emit e p)
  emit-IsSynced e p km ks s = record {
    master = rb.master_kept p.trace e km ∙ s.master;
    slave = rb.slave_kept p.trace e ks ∙ s.slave;
    master_ready = words_left-kept master_8259_port master_data e p.trace km ∙ s.master_ready;
    slave_ready = words_left-kept slave_8259_port slave_data e p.trace ks ∙ s.slave_ready;
    master_byte = s.master_byte;
    slave_byte = s.slave_byte;
  }

  -- What the controllers answer is the mask that the kernel knows.
  asked :
      (p : Pic)
      → IsSynced dev p
      → (u8 (dev p.trace master_data) ≡ p.master_mask)
        × (u8 (dev p.trace slave_data) ≡ p.slave_mask)
  asked p s = (omega (arith, s.master, s.master_byte), omega (arith, s.slave, s.slave_byte))

  enable_irq-low :
      (p : Pic) (i : ℕ)
      → IsSynced dev p
      → i < 8
      → enable_irq dev i p ≡ write_master (clear_bit i p.master_mask) p
  unfolding enable_irq
  enable_irq-low p i s h = rw (lt→ltb i 8 h, (asked p s).0) refl

  enable_irq-high :
      (p : Pic) (i : ℕ)
      → IsSynced dev p
      → 8 ≤ i
      → enable_irq dev i p ≡ write_slave (clear_bit (i - 8) p.slave_mask) p
  unfolding enable_irq
  enable_irq-high p i s h = rw (le→ltb_false i 8 h, (asked p s).1) refl

  disable_irq-low :
      (p : Pic) (i : ℕ)
      → IsSynced dev p
      → i < 8
      → disable_irq dev i p ≡ write_master (set_bit i p.master_mask) p
  unfolding disable_irq
  disable_irq-low p i s h = rw (lt→ltb i 8 h, (asked p s).0) refl

  disable_irq-high :
      (p : Pic) (i : ℕ)
      → IsSynced dev p
      → 8 ≤ i
      → disable_irq dev i p ≡ write_slave (set_bit (i - 8) p.slave_mask) p
  unfolding disable_irq
  disable_irq-high p i s h = rw (le→ltb_false i 8 h, (asked p s).1) refl

  -- On controllers that agree with the kernel's copies of the masks, `enable_irq` unmasks its line,
  -- leaves the other fifteen as they were, and keeps the copies in agreement.
  pub enable_irq-masked :
      (p : Pic) (irq_num k : ℕ)
      → IsSynced dev p
      → irq_num < 16
      → k < 16
      → (masked (enable_irq dev irq_num p) k ≡ (if k == irq_num then 0 else masked p k))
        × IsSynced dev (enable_irq dev irq_num p)
  enable_irq-masked p i k s hi hk = elim (dec_lt i 8) [
    | yes low ↦ rw (enable_irq-low p i s low) (
      ground (arith, bit-clear_bit i k p.master_mask low, s.master_byte),
      write_master-IsSynced (clear_bit i p.master_mask) p (clear_bit-lt i _ low s.master_byte) s,
    )
    | no high ↦ rw (enable_irq-high p i s (omega arith)) (
      ground (arith, bit-clear_bit (i - 8) (k - 8) p.slave_mask, s.slave_byte),
      write_slave-IsSynced (clear_bit (i - 8) p.slave_mask) p
          (clear_bit-lt (i - 8) _ (omega arith) s.slave_byte) s,
    )
  ]

  -- In the same way `disable_irq` masks its line and no other.
  pub disable_irq-masked :
      (p : Pic) (irq_num k : ℕ)
      → IsSynced dev p
      → irq_num < 16
      → k < 16
      → (masked (disable_irq dev irq_num p) k ≡ (if k == irq_num then 1 else masked p k))
        × IsSynced dev (disable_irq dev irq_num p)
  disable_irq-masked p i k s hi hk = elim (dec_lt i 8) [
    | yes low ↦ rw (disable_irq-low p i s low) (
      ground (arith, bit-set_bit i k p.master_mask low, s.master_byte),
      write_master-IsSynced (set_bit i p.master_mask) p (set_bit-lt i _ low s.master_byte) s,
    )
    | no high ↦ rw (disable_irq-high p i s (omega arith)) (
      ground (arith, bit-set_bit (i - 8) (k - 8) p.slave_mask, s.slave_byte),
      write_slave-IsSynced (set_bit (i - 8) p.slave_mask) p
          (set_bit-lt (i - 8) _ (omega arith) s.slave_byte) s,
    )
  ]

  -- `i8259_init` leaves every line masked but line 2, that of the slave, whatever the masks were
  -- before; the kernel's copies agree with the controllers, and interrupts are on.
  pub i8259_init-masked :
      (p : Pic) (k : ℕ)
      → k < 16
      → (masked (i8259_init dev p) k ≡ (if k == 2 then 0 else 1))
        × IsSynced dev (i8259_init dev p)
        × (interrupt_flag false (i8259_init dev p).trace ≡ true)
  unfolding i8259_init
  i8259_init-masked p k hk =
      let t = (initialize p).trace in
      let start : IsSynced dev (initialize p) = record {
        master = rb.master_kept _ (outb 0xFF slave_data) refl ∙ rb.master _ 0xFF (omega arith) refl;
        slave = rb.slave _ 0xFF (omega arith) refl;
        master_ready = refl;
        slave_ready = refl;
        master_byte = omega arith;
        slave_byte = omega arith;
      } in
      let (bits, s) = enable_irq-masked (initialize p) 2 k start (omega arith) hk in
      (
        bits ∙ ap (λ (b : ℕ). if k == 2 then 0 else b) (all_masked k hk),
        emit-IsSynced sti (enable_irq dev 2 (initialize p)) refl refl s,
        refl,
      )

eoi_table : all_below 8 (λ n. u8 (bit_or n 0x60) == 0x60 + n) ≡ true
unfolding all_below
eoi_table = refl

eoi_byte : (n : ℕ) → n < 8 → u8 (bit_or n 0x60) ≡ 0x60 + n
eoi_byte n h =
    (==_iff _ _).0 (all_below_sound 8 (λ k. u8 (bit_or k 0x60) == 0x60 + k) n eoi_table h)

-- `send_eoi` sends each of the sixteen lines its specific end-of-interrupt byte, 0x60 with the number
-- of the line on its controller, to that controller; for a line of the slave it first sends the one
-- of line 2 to the master. Interrupts are off while it does so and on afterwards.
pub send_eoi_lem :
    (irq_num : ℕ) (p : Pic)
    → irq_num < 16
    → (send_eoi irq_num p).trace ≡ (
        if ltb irq_num 8
        then sti ∷ outb (0x60 + irq_num) 0x20 ∷ cli ∷ p.trace
        else sti ∷ outb (0x60 + (irq_num - 8)) 0xA0 ∷ outb 0x62 0x20 ∷ cli ∷ p.trace)
unfolding send_eoi
send_eoi_lem i p h = elim (dec_lt i 8) [
  | yes low ↦ rw (lt→ltb i 8 low, eoi_byte i low) refl
  | no high ↦ rw (le→ltb_false i 8 (omega arith), eoi_byte (i - 8) (omega arith)) refl
]
