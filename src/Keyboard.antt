-- ===== src/Keyboard.antt =====
-- keyboard.c: the handler of the keyboard interrupt, which edits the line of the displayed terminal.
-- What it does to the screen and the speaker is a list of actions, the last one first.
pub mod Scancodes
pub mod Editing
pub mod Lines
pub mod Reading
pub mod Delivery
pub mod Blocking
mod Tests
use Scancodes.{
  lower_case_scancodes, upper_case_scancodes, cap_upper_case_scancodes, cap_lower_case_scancodes,
}
use illinix_os.Base.{
  ℕ, zero, suc, ◌+◌, ◌-◌, Bool, true, false, ◌&&◌, ◌||◌, not, Option, none, some, List, [], ◌∷◌,
  ◌++◌, ◌==◌, ltb, leb, if◌then◌else◌, ◌>>=◌, get_elem?, set, drop, replicate, bit_xor, negative,
}
use illinix_os.Libc.{strlen, store}
use illinix_os.Terminal.{Terminal}

-- A call of `putc`, of `clear` with the cursor put back, of `beep` and `nosound`, and the display of
-- another terminal.
pub data Action : Type 0 where
  put_char : ℕ → Action
  clear_screen beep nosound : Action
  show_terminal : ℕ → Action

-- The flags of the keys that are held down, 0 or 1.
pub record Keys : Type 0 where
  pub la_on : ℕ
  pub ls_on : ℕ
  pub rs_on : ℕ
  pub lctrl_on : ℕ
  pub cap_on : ℕ
  pub backspace_on : ℕ

-- The state of the handler for one terminal, that on display.
pub record Editor : Type 0 where
  pub keys : Keys
  pub t : Terminal
  pub actions : List Action

abbrev pub bufferlength : ℕ
bufferlength = 128

abbrev pub act : Action → Editor → Editor
act a e = record e { actions = a ∷ e.actions }

abbrev pub on_line : (Terminal → Terminal) → Editor → Editor
on_line f e = record e { t = f e.t }

-- `clear_buffer`.
abbrev pub clear_buffer : Terminal → Terminal
clear_buffer t = record t { typed_buf = replicate bufferlength 0 }

-- The history: a line goes into the next of the twenty rows, unless `hello_flag` is set.
pub remember : Terminal → Option Terminal
remember t =
    let size = if t.buffer_size == 20 then 0 else t.buffer_size in
    if t.hello_flag == 0
    then if ltb size 20
      then some (record t {
        buffer_for_ec = set t.buffer_for_ec size t.typed_buf;
        buffer_size = size + 1;
      })
      else none
    else some (record t { buffer_size = size })

-- The line is handed to `terminal_read`, and a new one begins.
abbrev pub submit : Terminal → Terminal
submit t = record (clear_buffer t) {
  share_buf = t.typed_buf;
  buffer_ec_idx = t.buffer_size;
  typing_finish = 1;
  curr_char_idx = 0;
}

-- Enter.
pub enter : Editor → Option Editor
unfolding remember
enter e = remember e.t >>= λ t. store t.typed_buf t.curr_char_idx 0x0A >>= λ line.
    some (record (act beep (act (put_char 0x0A) e)) { t = submit (record t { typed_buf = line }) })

-- A key on a line that is full: the line is handed on as it is.
pub break_line : Editor → Option Editor
unfolding remember
break_line e = remember e.t >>= λ t. some (record (act (put_char 0x0A) e) { t = submit t })

-- Ctrl-L.
abbrev pub clear_line : Editor → Editor
clear_line e = record (act clear_screen e) { t = record (clear_buffer e.t) { curr_char_idx = 0 } }

-- Backspace: the buffer keeps the character.
abbrev pub erase : Editor → Editor
erase e =
    if ltb 0 e.t.curr_char_idx
    then act beep
        (on_line (λ t. record t { curr_char_idx = t.curr_char_idx - 1 }) (act (put_char 0x08) e))
    else act beep e

-- The table that the flags choose.
abbrev pub scancodes : Keys → List ℕ
scancodes k =
    let shift = not (k.ls_on == 0) || not (k.rs_on == 0) in
    if k.cap_on == 0
    then (if shift then upper_case_scancodes else lower_case_scancodes)
    else (if shift then cap_lower_case_scancodes else cap_upper_case_scancodes)

-- A character comes to the end of the line.
pub type_char : ℕ → Editor → Option Editor
type_char ch e = store e.t.typed_buf e.t.curr_char_idx ch >>= λ line. some (
    act beep (
      act (put_char ch)
        (on_line (λ t. record t { typed_buf = line; curr_char_idx = t.curr_char_idx + 1 }) e)))

-- The end of the handler: the character of the scancode `c`, unless `ins_flag` is set.
pub print_key : ℕ → Bool → Editor → Option Editor
unfolding type_char
print_key c ins_flag e =
    if ins_flag then some e else (get_elem? (scancodes e.keys) (c - 1) >>= λ ch. type_char ch e)

-- The handler from the look at the table on, for a scancode in range.
pub edit_key : ℕ → Bool → Editor → Option Editor
unfolding enter break_line print_key
edit_key c ins_flag e = get_elem? lower_case_scancodes (c - 1) >>= λ lower.
    if lower == 0x45
    then enter e
    else if e.t.curr_char_idx == bufferlength
    then (break_line e >>= λ e'. print_key c ins_flag e')
    else if not (e.keys.lctrl_on == 0) && (c == 0x26)
    then some (clear_line e)
    else if not (e.keys.backspace_on == 0)
    then some (erase e)
    else print_key c ins_flag e

-- The flags of the keys: the new flags, and whether the handler ends there.
abbrev pub press : ℕ → Keys → Keys × Bool
press c k =
    if c == 0x38
    then (record k { la_on = 1 }, true)
    else if c == 0xB8
    then (record k { la_on = 0 }, true)
    else if c == 0x2A
    then (record k { ls_on = 1 }, true)
    else if c == 0x36
    then (record k { rs_on = 1 }, true)
    else if c == 0xAA
    then (record k { ls_on = 0 }, true)
    else if c == 0xB6
    then (record k { rs_on = 0 }, true)
    else if c == 0x1D
    then (record k { lctrl_on = 1 }, true)
    else if c == 0x9D
    then (record k { lctrl_on = 0 }, true)
    else if c == 0x3A
    then (record k { cap_on = bit_xor k.cap_on 1 }, true)
    else if c == 0x0E
    then (record k { backspace_on = 1 }, false)
    else if c == 0x8E
    then (record k { backspace_on = 0 }, true)
    else (k, false)

-- `while (curr_char_idx > 0) { putc('\b'); curr_char_idx--; }`
abbrev pub erase_all : ℕ → List Action → List Action
erase_all zero as' = as'
erase_all (suc n) as' = erase_all n (put_char 0x08 ∷ as')

-- The loop that brings a line back, with `left` rounds to go.
pub bring_back : List ℕ → ℕ → ℕ → List ℕ → List Action → Option (List ℕ × List Action)
bring_back row zero i line as' = some (line, as')
bring_back row (suc left) i line as' = get_elem? row i >>= λ ch.
    store line i ch >>= λ line'. bring_back row left (i + 1) line' (put_char ch ∷ as')

-- The rows of the history from one on, as they stand in memory.
abbrev pub flatten : List (List ℕ) → List ℕ
flatten [] = []
flatten (row ∷ rows) = row ++ flatten rows

-- The key Up. `strlen` of a row without a NUL reads on in the next.
pub recall : Editor → Option Editor
unfolding bring_back
recall e =
    if (e.t.buffer_ec_idx == 0) || negative e.t.buffer_ec_idx
    then some e
    else let at = e.t.buffer_ec_idx - 1 in
      let row = flatten (drop at e.t.buffer_for_ec) in
      (strlen row >>= λ len.
      bring_back row len 0 (replicate bufferlength 0) (erase_all e.t.curr_char_idx e.actions)
      >>= λ r. some (record e {
        t = record (e.t) { buffer_ec_idx = at; typed_buf = r.0; curr_char_idx = len };
        actions = r.1;
      }))

-- The handler for the scancode `c`, but for the switch to another terminal; `none` is an access out
-- of range.
pub handle_key : ℕ → Editor → Option Editor
unfolding edit_key recall
handle_key c e =
    let pressed = press c e.keys in
    let e' = record (act nosound e) { keys = pressed.0 } in
    if pressed.1
    then some e'
    else if c == 0x48
    then recall e'
    else if not (ltb 0 c && ltb c 0x3B) || (c == 0x37)
    then some e'
    else edit_key c (c == 0x0E) e'

-- The handler's own state: the flags, the terminals and the one on display.
pub record Keyboard : Type 0 where
  pub keys : Keys
  pub terminals : List Terminal
  pub curr_terminal_idx : ℕ
  pub actions : List Action

-- Alt with F1, F2 or F3.
abbrev pub is_switch : ℕ → Keys → Bool
is_switch c k = (k.la_on == 1) && (leb 0x3B c && leb c 0x3D)

-- `keyboard_interrupt_handler` for the scancode `c` that the keyboard sends.
unfoldable pub keyboard_interrupt_handler : ℕ → Keyboard → Option Keyboard
unfolding handle_key
keyboard_interrupt_handler c k =
    let pressed = press c k.keys in
    if not pressed.1 && is_switch c pressed.0
    then some (record k {
      keys = pressed.0;
      curr_terminal_idx = c - 0x3B;
      actions = show_terminal (c - 0x3B) ∷ nosound ∷ k.actions;
    })
    else (get_elem? k.terminals k.curr_terminal_idx >>= λ t.
        handle_key c (record { keys = k.keys; t = t; actions = k.actions }) >>= λ e.
        some (record k {
          keys = e.keys;
          terminals = set k.terminals k.curr_terminal_idx e.t;
          actions = e.actions;
        }))
