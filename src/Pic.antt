-- ===== src/Pic.antt =====
-- i8259.c: the interrupt controllers, as the kernel drives them through their ports.
pub mod Masks
pub mod Tests
use illinix_os.Base.{
  ℕ, ◌+◌, ◌-◌, ◌%◌, Bool, List, [], ◌∷◌, ltb, if◌then◌else◌, u8, bit_or, clear_bit, set_bit,
}
use illinix_os.Io.{Event, Trace, Devices, cli, sti, outb, inb}

-- The globals `master_mask` and `slave_mask`, and what was done on the ports.
pub record Pic : Type 0 where
  pub master_mask : ℕ
  pub slave_mask : ℕ
  pub trace : Trace

abbrev pub master_8259_port : ℕ
master_8259_port = 0x20

abbrev pub slave_8259_port : ℕ
slave_8259_port = 0xA0

-- The mask register of each controller.
abbrev pub master_data : ℕ
master_data = 0x21

abbrev pub slave_data : ℕ
slave_data = 0xA1

abbrev pub emit : Event → Pic → Pic
emit e p = record p { trace = e ∷ p.trace }

-- `inb(port)`, then `outb(value, port)`, with the mask kept in the global.
abbrev pub write_master : ℕ → Pic → Pic
write_master value p = record p {
  master_mask = value;
  trace = outb value master_data ∷ inb master_data ∷ p.trace;
}

abbrev pub write_slave : ℕ → Pic → Pic
write_slave value p = record p {
  slave_mask = value;
  trace = outb value slave_data ∷ inb slave_data ∷ p.trace;
}

-- `i8259_init` up to the call of `enable_irq`: both masks are set, the initialisation control words
-- go to each controller, and the masks are written again.
abbrev pub initialize : Pic → Pic
initialize p = record p {
  master_mask = 0xFF;
  slave_mask = 0xFF;
  trace =
      outb 0xFF slave_data
      ∷ outb 0xFF master_data
      ∷ outb 0x01 slave_data
      ∷ outb 0x02 slave_data
      ∷ outb 0x28 slave_data
      ∷ outb 0x11 slave_8259_port
      ∷ outb 0x01 master_data
      ∷ outb 0x04 master_data
      ∷ outb 0x20 master_data
      ∷ outb 0x11 master_8259_port
      ∷ outb 0xFF slave_data
      ∷ outb 0xFF master_data
      ∷ cli
      ∷ p.trace;
}

module _ (dev : Devices) where
  unfoldable pub enable_irq : ℕ → Pic → Pic
  enable_irq irq_num p =
      if ltb irq_num 8
      then write_master (clear_bit irq_num (u8 (dev p.trace master_data))) p
      else write_slave (clear_bit (irq_num - 8) (u8 (dev p.trace slave_data))) p

  unfoldable pub disable_irq : ℕ → Pic → Pic
  disable_irq irq_num p =
      if ltb irq_num 8
      then write_master (set_bit irq_num (u8 (dev p.trace master_data))) p
      else write_slave (set_bit (irq_num - 8) (u8 (dev p.trace slave_data))) p

  -- The flags that `cli_and_save` keeps are put back before the last `sti`, which sets the
  -- interrupt flag whatever they were.
  unfoldable pub i8259_init : Pic → Pic
  unfolding enable_irq
  i8259_init p = emit sti (enable_irq 2 (initialize p))

-- EOI.
abbrev pub eoi : ℕ
eoi = 0x60

unfoldable pub send_eoi : ℕ → Pic → Pic
send_eoi irq_num p =
    if ltb irq_num 8
    then record p { trace = sti ∷ outb (u8 (bit_or irq_num eoi)) master_8259_port ∷ cli ∷ p.trace }
    else record p {
      trace =
          sti
          ∷ outb (u8 (bit_or (irq_num - 8) eoi)) slave_8259_port
          ∷ outb (bit_or 2 eoi) master_8259_port
          ∷ cli
          ∷ p.trace;
    }
