-- ===== src/Keyboard/Tests.antt =====
-- "ls" typed and read.
use illinix_os.Base.{
  ℕ, ◌≡◌, refl, none, some, List, [], ◌∷◌, arith, get_elem?, replicate, length-replicate,
}
use illinix_os.Terminal.{Terminal}
use illinix_os.Keyboard.{Keys, Editor, act, nosound, type_char, scancodes, handle_key}
use illinix_os.Keyboard.Editing.{handle_key-is_plain}
use illinix_os.Keyboard.Lines.{IsTyping}
use illinix_os.Keyboard.Reading.{handle_key-full}

abbrev pub nothing_held : Keys
nothing_held = record {
  la_on = 0;
  ls_on = 0;
  rs_on = 0;
  lctrl_on = 0;
  cap_on = 0;
  backspace_on = 0;
}

abbrev pub terminal : Terminal
terminal = record {
  share_buf = replicate 128 0;
  typed_buf = replicate 128 0;
  typing_finish = 0;
  screen_x = 0;
  screen_y = 0;
  vid_on = 0;
  phys_mem_idx = [];
  video_mem = 0xB9000;
  curr_char_idx = 0;
  buffer_for_ec = replicate 20 (replicate 128 0);
  buffer_ec_idx = 0;
  buffer_size = 20;
  hello_flag = 0;
}

abbrev editor : Editor
editor = record { keys = nothing_held; t = terminal; actions = [] }

editor-IsTyping : IsTyping editor []
editor-IsTyping = record { line = refl; count = refl; ctrl = refl; back = refl }

-- The scancodes of "l" and "s".
abbrev pub ls : List ℕ
ls = 0x26 ∷ 0x1F ∷ []

abbrev pub text : List ℕ
text = 0x6C ∷ 0x73 ∷ []

handle_key-is_plain_example :
    (ch : ℕ) × (get_elem? (scancodes nothing_held) 0x25 ≡ some ch)
    × (handle_key 0x26 editor ≡ type_char ch (act nosound editor))
handle_key-is_plain_example = handle_key-is_plain 0x26 editor refl refl refl (λ e. omega arith)

abbrev full : Editor
full = record editor { t = record terminal { curr_char_idx = 128 } }

handle_key-full_example : handle_key 0x1C full ≡ none
handle_key-full_example = handle_key-full full (length-replicate {A = ℕ} 128 0) refl (omega arith)
