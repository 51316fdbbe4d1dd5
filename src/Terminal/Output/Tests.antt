-- ===== src/Terminal/Output/Tests.antt =====
-- Two characters, between which another terminal is displayed.
use illinix_os.Base.{if◌then◌else◌, ◌==◌, ℕ, ◌≡◌, ◌≢◌, ◌<◌, refl, some, [], ◌∷◌, arith}
use illinix_os.Io.{cli}
use illinix_os.Pic.{Pic, emit}
use illinix_os.Pic.Masks.{emit-IsSynced, IsSynced, masked}
use illinix_os.Pic.Tests.{controllers, controllers-ReadsBack, start, start-IsSynced}
use illinix_os.Terminal.Output.{putc, putc_background, terminal_write}
use illinix_os.Terminal.Output.Lines.{terminal_write_lem}

synced : IsSynced controllers (emit cli start)
synced = emit-IsSynced controllers controllers-ReadsBack cli start refl refl start-IsSynced

terminal_write_lem_example :
    (p' : Pic) × (terminal_write controllers
        (λ i. if i == 0 then 1 else 2)
        1
        (some (0x68 ∷ 0x69 ∷ []))
        2
        start
      ≡ some (2, putc 0x68 ∷ putc_background 0x69 ∷ [], p'))
    × (masked p' 0 ≡ 0)
    × ((k : ℕ) → k < 16 → k ≢ 0 → masked p' k ≡ masked start k)
terminal_write_lem_example =
    (terminal_write_lem controllers controllers-ReadsBack (λ i. if i == 0 then 1 else 2) 1 2
        (0x68 ∷ 0x69 ∷ []) start synced).0
      (omega arith) (omega arith)
