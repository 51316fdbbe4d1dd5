-- ===== src/Terminal/Driver.antt =====
-- terminal.c: reading a line from the terminal.
use illinix_os.Base.{
  ℕ, zero, suc, ◌+◌, Option, some, List, ltb, if◌then◌else◌, ◌>>=◌, get_elem?, replicate, negative,
  minus_one,
}
use illinix_os.Libc.{strlen, store}
use illinix_os.Terminal.{Terminal}

-- The loop of `terminal_read`, with `left` rounds to go.
unfoldable pub copy_line : List ℕ → ℕ → ℕ → List ℕ → Option (List ℕ)
copy_line share zero i buf = some buf
copy_line share (suc left) i buf =
    get_elem? share i >>= λ c. store buf i c >>= λ buf'. copy_line share left (i + 1) buf'

-- `terminal_read` with a buffer that is not null, of a finished line, on the displayed terminal: the
-- value, the buffer and the terminal. At most 128 bytes are copied.
unfoldable pub terminal_read : List ℕ → ℕ → Terminal → Option (ℕ × List ℕ × Terminal)
unfolding copy_line
terminal_read buf nbytes t =
    if negative nbytes
    then some (minus_one, buf, t)
    else (copy_line t.share_buf (if ltb 128 nbytes then 128 else nbytes) 0 buf >>= λ out.
        strlen out >>= λ len.
        some (
          len,
          out,
          record t { typing_finish = 0; typed_buf = replicate 128 0; curr_char_idx = 0 },
        ))
