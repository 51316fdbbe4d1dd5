-- ===== src/Rtc/Tests.antt =====
-- The theorems on the clock at a machine whose ports all read as 0, and at controllers that keep
-- their masks.
use illinix_os.Base.{ℕ, ◌-◌, ◌^◌, ◌≡◌, ◌≢◌, ◌≤◌, ◌⊎◌, true, some, [], minus_one}
use illinix_os.Io.{Devices, cli, sti}
use illinix_os.Pic.{emit}
use illinix_os.Pic.Tests.{start}
use illinix_os.Rtc.{Rtc, on_pic, rtc_write, rtc_set_rate}
use illinix_os.Rtc.Rate.{rtc_write_lem}

abbrev dead : Devices
dead t port = 0

abbrev clock : Rtc
clock = record {
  pic = record { master_mask = 0; slave_mask = 0; trace = [] };
  rate = 2;
  interrupt_bool = true;
  loading_counter = 0;
}

rtc_write_lem_example :
    ((k : ℕ) × (k ≤ 10)
      × (32 ≡ 2 ^ k)
      × (◌≡◌ {A = ℕ} 4 4)
      × (rtc_write dead 0 (some 32) 4 clock
          ≡ some (4, on_pic (emit sti) (rtc_set_rate dead (16 - k) (on_pic (emit cli) clock)))))
    ⊎ ((◌≡◌ {A = ℕ} 4 4 → (k : ℕ) → k ≤ 10 → 32 ≢ 2 ^ k)
        × (rtc_write dead 0 (some 32) 4 clock ≡ some (minus_one, on_pic (emit cli) clock)))
rtc_write_lem_example = rtc_write_lem dead 0 32 4 clock

-- The clock on initialised controllers with all lines masked.
abbrev quiet : Rtc
quiet = record clock { pic = start }
