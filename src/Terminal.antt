-- ===== src/Terminal.antt =====
-- lib.h: `terminal_t`, the state of one terminal.
pub mod Driver
pub mod Output
use illinix_os.Base.{ℕ, List}

-- The numbers are C's `int`, as 32-bit words: -1 in `phys_mem_idx` is `minus_one`.
pub record Terminal : Type 0 where
  pub share_buf : List ℕ
  pub typed_buf : List ℕ
  pub typing_finish : ℕ
  pub screen_x : ℕ
  pub screen_y : ℕ
  pub vid_on : ℕ
  pub phys_mem_idx : List ℕ
  pub video_mem : ℕ
  pub curr_char_idx : ℕ
  pub buffer_for_ec : List (List ℕ)
  pub buffer_ec_idx : ℕ
  pub buffer_size : ℕ
  pub hello_flag : ℕ
