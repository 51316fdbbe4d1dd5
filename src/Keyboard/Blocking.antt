-- ===== src/Keyboard/Blocking.antt =====
-- terminal.c: `terminal_read` with its wait, during which the keyboard goes on.
pub mod Typing
pub mod Elsewhere
mod Tests
use illinix_os.Base.{
  ℕ, zero, suc, Bool, true, false, not, Option, none, some, List, [], ◌∷◌, ◌==◌, ltb, if◌then◌else◌,
  ◌>>=◌, get_elem?, set, replicate, negative, minus_one,
}
use illinix_os.Libc.{strlen}
use illinix_os.Terminal.{Terminal}
use illinix_os.Terminal.Driver.{copy_line}
use illinix_os.Keyboard.{Keyboard, keyboard_interrupt_handler}

-- What happens while a program waits for a line: an interrupt of the keyboard with its scancode, or
-- what other interrupts and other programs do.
pub data Event : Type 0 where
  key : ℕ → Event
  other : (Keyboard → Keyboard) → Event

-- The test of the loop, `terminals[curr_running_terminal_idx].typing_finish`.
abbrev pub is_finished : ℕ → Keyboard → Option Bool
is_finished running k = get_elem? k.terminals running >>= λ t. some (not (t.typing_finish == 0))

-- The loop that waits: `none` if no line is finished in the end, or if a handler faults.
pub wait_line : List Event → ℕ → Keyboard → Option Keyboard
wait_line [] running k = is_finished running k >>= λ b. if b then some k else none
wait_line (key c ∷ es) running k =
    let later = keyboard_interrupt_handler c k >>= λ k'. wait_line es running k' in
    is_finished running k >>= λ b. if b then some k else later
wait_line (other f ∷ es) running k =
    let later = wait_line es running (f k) in
    is_finished running k >>= λ b. if b then some k else later

-- The end of `terminal_read`: the line of the terminal that runs has been taken, and the line that is
-- being typed on the displayed terminal is cleared.
abbrev pub after_read : ℕ → Terminal → Keyboard → Option Keyboard
after_read running t k =
    let ts = set k.terminals running (record t { typing_finish = 0 }) in
    get_elem? ts k.curr_terminal_idx >>= λ s. some (record k {
      terminals =
          set ts k.curr_terminal_idx (record s { typed_buf = replicate 128 0; curr_char_idx = 0 });
    })

-- `terminal_read` for the terminal `running`; a buffer of `none` is the null pointer.
unfoldable pub blocking_read :
    List Event → ℕ → Option (List ℕ) → ℕ → Keyboard → Option (ℕ × Option (List ℕ) × Keyboard)
unfolding wait_line
blocking_read es running none nbytes k = some (minus_one, none, k)
blocking_read es running (some buf) nbytes k =
    if negative nbytes
    then some (minus_one, some buf, k)
    else (wait_line es running k >>= λ k1. get_elem? k1.terminals running >>= λ t.
        copy_line t.share_buf (if ltb 128 nbytes then 128 else nbytes) 0 buf >>= λ out.
        after_read running t k1 >>= λ k2. strlen out >>= λ len. some (len, some out, k2))
