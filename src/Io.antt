-- ===== src/Io.antt =====
-- lib.h: the port reads and writes and the interrupt flag, as a trace of what the processor did.
-- What a device answers to a read is up to the device: a function of all that happened before.
use illinix_os.Base.{ℕ, Bool, true, false, List, [], ◌∷◌}

-- `cli`, `sti`, `outb(value, port)` and `inb(port)`.
pub data Event : Type 0 where
  cli sti : Event
  outb : ℕ → ℕ → Event
  inb : ℕ → Event

-- The last event comes first.
abbrev pub Trace : Type 0
Trace = List Event

-- The answer of the devices to a read of a port.
abbrev pub Devices : Type 0
Devices = Trace → ℕ → ℕ

-- The interrupt flag after a trace; `start` is the flag before it.
abbrev pub interrupt_flag : Bool → Trace → Bool
interrupt_flag start [] = start
interrupt_flag start (cli ∷ t) = false
interrupt_flag start (sti ∷ t) = true
interrupt_flag start (outb v p ∷ t) = interrupt_flag start t
interrupt_flag start (inb p ∷ t) = interrupt_flag start t
