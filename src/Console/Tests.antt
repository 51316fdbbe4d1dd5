-- ===== src/Console/Tests.antt =====
-- The theorems on the text screen at a pen in the last column.
use illinix_os.Base.{ℕ, ◌≡◌, refl, inl, inr, arith}
use illinix_os.Console.PhysMem.{Memory}
use illinix_os.Console.{Pen, putc_cells, putc_background}
use illinix_os.Console.Cursor.{InScreen, offset, putc_cells-cursor}
use illinix_os.Console.Writes.{putc_background-Off, putc_cells-Off}

abbrev blank : Memory
blank a = 0x20

-- Row 3, column 79.
abbrev pen : Pen
pen = record { screen_x = 0; screen_y = 0; x = 79; y = 3; mem = blank }

-- The page of the first terminal.
abbrev page : ℕ
page = 0xB9000

foreground_runs : ((putc_cells page 0x41 pen).x ≡ 0) × ((putc_cells page 0x41 pen).y ≡ 4)
unfolding putc_cells
foreground_runs = (refl, refl)

putc_cells-cursor_example :
    let q = putc_cells page 0x41 pen in
    InScreen q.x q.y × (offset q.x q.y ≡ 320) × (q.screen_x ≡ q.x) × (q.screen_y ≡ q.y)
putc_cells-cursor_example = putc_cells-cursor page 0x41 pen (inl (omega arith))

putc_background-Off_example : (putc_background page 0x41 pen).mem 0xBA000 ≡ 0x20
putc_background-Off_example =
    putc_background-Off page 0x41 pen 0xBA000 (inl (omega arith)) (inr (omega arith))

putc_cells-Off_example : (putc_cells page 0x41 pen).mem 0xBA000 ≡ 0x20
putc_cells-Off_example =
    putc_cells-Off page 0x41 pen 0xBA000 (omega arith) (inl (omega arith)) (inr (omega arith))
      (inr (omega arith))
