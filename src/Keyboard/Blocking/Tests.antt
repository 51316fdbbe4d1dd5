-- ===== src/Keyboard/Blocking/Tests.antt =====
-- Two terminals: "ls" is typed on the one that is displayed.
use illinix_os.Base.{ℕ, ◌≡◌, refl, some, List, [], ◌∷◌, ◌++◌, arith, map, get_elem?, replicate}
use illinix_os.Libc.{strlen}
use illinix_os.Terminal.{Terminal}
use illinix_os.Terminal.Driver.{copy_line}
use illinix_os.Keyboard.{Keyboard}
use illinix_os.Keyboard.Tests.{nothing_held, terminal, ls, text}
use illinix_os.Keyboard.Delivery.{filled}
use illinix_os.Keyboard.Blocking.{key, wait_line, blocking_read}
use illinix_os.Keyboard.Blocking.Typing.{put_editor, blocking_read-type_keys}
use illinix_os.Keyboard.Blocking.Elsewhere.{blocking_read-elsewhere}
use illinix_os.Keyboard.{Editor}

abbrev idle : Terminal
idle = record terminal { share_buf = 0x61 ∷ 0x0A ∷ replicate 126 0; typing_finish = 1 }

abbrev keyboard : Keyboard
keyboard = record {
  keys = nothing_held;
  terminals = terminal ∷ idle ∷ [];
  curr_terminal_idx = 0;
  actions = [];
}

abbrev buffer : List ℕ
buffer = 9 ∷ 9 ∷ 9 ∷ 9 ∷ 9 ∷ []

blocking_read-type_keys_example :
    (e : Editor) × (blocking_read (map key ls ++ key 0x1C ∷ []) 0 (some buffer) 4 keyboard
      ≡ some (3, some (filled (text ++ 0x0A ∷ []) 4 buffer), put_editor 0 keyboard e))
blocking_read-type_keys_example =
    blocking_read-type_keys ls keyboard terminal buffer 4 [] refl refl (refl, (refl, tt))
      (record { line = refl; count = refl; ctrl = refl; back = refl }) (omega arith)
      ((λ e. omega arith), ((λ e. omega arith), tt)) (omega arith) (omega arith) (omega arith)
      (omega arith)

abbrev half_typed : Terminal
half_typed = record terminal { typed_buf = 0x6C ∷ replicate 127 0; curr_char_idx = 1 }

abbrev busy : Keyboard
busy = record keyboard { terminals = half_typed ∷ idle ∷ [] }

reads :
    (k2 : Keyboard) × (blocking_read [] 1 (some buffer) 4 busy
      ≡ some (2, some (0x61 ∷ 0x0A ∷ 0 ∷ 0 ∷ 9 ∷ []), k2))
unfolding blocking_read copy_line strlen
reads = (_, refl)

waits : wait_line [] 1 busy ≡ some busy
unfolding wait_line
waits = refl

blocking_read-elsewhere_example :
    (get_elem? reads.0.terminals 1 ≡ some (record idle { typing_finish = 0 }))
    × (get_elem? reads.0.terminals 0 ≡ some terminal)
blocking_read-elsewhere_example =
    blocking_read-elsewhere [] 1 busy busy reads.0 idle half_typed buffer 4 2 _ waits
      (λ e. omega arith) refl refl (omega arith) reads.1
