-- ===== src/Mouse/Tests.antt =====
-- A mouse that moves far to the left, and a controller that answers.
use illinix_os.Base.{inl, ℕ, ◌≡◌, refl, some, [], ◌∷◌, arith, bit_and, bit_or, if◌then◌else◌, ◌==◌}
use illinix_os.Io.{Devices}
use illinix_os.Pic.{Pic}
use illinix_os.Process.Execute.Tests.{terminal}
use illinix_os.Mouse.{Mouse, mouse_commands, mouse_interrupt_handler}
use illinix_os.Mouse.Commands.{writes, mouse_commands_lem}
use illinix_os.Mouse.Pointer.{IsPlaced, IsContained, mouse_interrupt_handler-IsContained}

-- The status port says that there is data of the mouse; each byte of data is 0x39: the left button,
-- and negative movements.
abbrev sliding : Devices
sliding t port = if port == 0x64 then 0x21 else 0x39

abbrev idle_pic : Pic
idle_pic = record { master_mask = 0; slave_mask = 0; trace = [] }

-- The page of the terminal shows "ls" on each of its rows.
abbrev page_byte : ℕ → ℕ
page_byte a = if a == 0xB9820 then 0x6C else if a == 0xB9822 then 0x73 else 0x20

abbrev mouse : Mouse
mouse = record {
  mouse_x = 3;
  mouse_y = 13;
  pic = idle_pic;
  mem = page_byte;
  terminal = terminal;
  screen_x = 0;
  screen_y = 0;
}

handled : (m : Mouse) × (mouse_interrupt_handler sliding mouse ≡ some m)
unfolding mouse_interrupt_handler
handled = (_, refl)

mouse_commands_lem_example :
    (b : ℕ) × (writes (mouse_commands sliding idle_pic).trace
      ≡ (0xF4, 0x60)
        ∷ (0xD4, 0x64)
        ∷ (0xF6, 0x60)
        ∷ (0xD4, 0x64)
        ∷ (80, 0x60)
        ∷ (0xD4, 0x64)
        ∷ (0xF3, 0x60)
        ∷ (0xD4, 0x64)
        ∷ (100, 0x60)
        ∷ (0xD4, 0x64)
        ∷ (0xF3, 0x60)
        ∷ (0xD4, 0x64)
        ∷ (200, 0x60)
        ∷ (0xD4, 0x64)
        ∷ (0xF3, 0x60)
        ∷ (0xD4, 0x64)
        ∷ (bit_or (bit_and b 0xDF) 2, 0x60)
        ∷ (0x60, 0x64)
        ∷ (0x20, 0x64)
        ∷ (0xA8, 0x64)
        ∷ [])
mouse_commands_lem_example = mouse_commands_lem sliding idle_pic

mouse-IsPlaced : IsPlaced mouse
mouse-IsPlaced = record {
  pointer = (omega arith, omega arith);
  cursor = inl (omega arith);
  apart = omega arith;
}

mouse_interrupt_handler-IsContained_example : IsContained mouse handled.0
mouse_interrupt_handler-IsContained_example =
    mouse_interrupt_handler-IsContained sliding mouse handled.0 mouse-IsPlaced handled.1
