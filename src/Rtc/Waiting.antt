-- ===== src/Rtc/Waiting.antt =====
-- RTC.c: the wait of `RTC_read`.
use illinix_os.Base.{ℕ, zero, suc, ◌≡◌, refl, false, none, arith, replicate}
use illinix_os.Io.{Devices, sti}
use illinix_os.Pic.{emit, disable_irq}
use illinix_os.Rtc.{Rtc, look, on_pic, wait_rtc, rtc_read}

-- The clock as `RTC_read` leaves it for the wait.
abbrev pub waiting : Devices → Rtc → Rtc
waiting dev r = record (on_pic (λ p. disable_irq dev 1 (disable_irq dev 0 (emit sti p))) r) {
  interrupt_bool = false;
}

wait_rtc-silent :
    (dev : Devices) (n : ℕ) (r : Rtc)
    → r.interrupt_bool ≡ false
    → wait_rtc dev (replicate n look) r ≡ none
unfolding wait_rtc
wait_rtc-silent dev zero r clear = ground arith
wait_rtc-silent dev (suc n) r clear = ground (arith, wait_rtc-silent dev n r clear)

-- Without an interrupt of the clock `RTC_read` does not return, however long it looks: an interrupt
-- that came before the call does not count.
pub rtc_read-silent : (dev : Devices) (n : ℕ) (r : Rtc) → rtc_read dev (replicate n look) r ≡ none
unfolding rtc_read
rtc_read-silent dev n r = rw (wait_rtc-silent dev n (waiting dev r) refl) refl
