-- ===== src/Rtc.antt =====
-- RTC.c: the real-time clock.
pub mod Rate
pub mod Waiting
mod Tests
use illinix_os.Base.{
  ℕ, zero, suc, ◌+◌, ◌-◌, ◌*◌, ◌%◌, ◌/◌, Bool, true, false, ◌||◌, ◌&&◌, not, Option, none, some,
  List, [], ◌∷◌, ltb, ◌==◌, if◌then◌else◌, ◌>>=◌, u8, bit_and, bit_or, sub32, negative, minus_one,
}
use illinix_os.Io.{Event, Trace, Devices, cli, sti, outb, inb}
use illinix_os.Pic.{Pic, emit, enable_irq, disable_irq, send_eoi}

-- The globals `rate`, `interrupt_bool` and `loading_counter`, and the interrupt controllers, whose
-- trace is that of the whole processor.
pub record Rtc : Type 0 where
  pub pic : Pic
  pub rate : ℕ
  pub interrupt_bool : Bool
  pub loading_counter : ℕ

abbrev pub rtc_port_index : ℕ
rtc_port_index = 0x70

abbrev pub rtc_port_data : ℕ
rtc_port_data = 0x71

-- The rate that `RTC_init` and `RTC_close` set.
abbrev pub rtc_rate : ℕ
rtc_rate = 0x02

abbrev pub on_pic : (Pic → Pic) → Rtc → Rtc
on_pic f r = record r { pic = f r.pic }

module _ (dev : Devices) where
  -- The two accesses to register A: its value is asked for, and written with the new rate.
  unfoldable pub rtc_set_rate : ℕ → Rtc → Rtc
  rtc_set_rate input r =
      let rate = bit_and input 0xF in
      let selected = outb 0x8A rtc_port_index ∷ cli ∷ r.pic.trace in
      let prev = u8 (dev selected rtc_port_data) in
      record r {
        rate = rate;
        pic = record (r.pic) {
          trace =
              sti
              ∷ outb (bit_or (bit_and prev 0xF0) rate) rtc_port_data
              ∷ outb 0x8A rtc_port_index
              ∷ inb rtc_port_data
              ∷ selected;
        };
      }

  -- The rest of `RTC_init`: bit 6 of register B is set.
  abbrev pub turn_on : Rtc → Rtc
  turn_on r =
      let selected = outb 0x8B rtc_port_index ∷ r.pic.trace in
      let prev_b = u8 (dev selected rtc_port_data) in
      on_pic
        (λ p. record p {
          trace =
              sti
              ∷ outb (bit_or prev_b 0x40) rtc_port_data
              ∷ outb 0x8B rtc_port_index
              ∷ inb rtc_port_data
              ∷ selected;
        })
        r

  unfoldable pub rtc_init : Rtc → Rtc
  unfolding rtc_set_rate enable_irq
  rtc_init r = turn_on (rtc_set_rate rtc_rate (on_pic (λ p. emit cli (enable_irq dev 8 p)) r))

  -- Register C is read, so that the next interrupt can come.
  unfoldable pub rtc_interrupt_handler : Rtc → Rtc
  unfolding send_eoi
  rtc_interrupt_handler r = record r {
    loading_counter = r.loading_counter + 1;
    interrupt_bool = true;
    pic =
        send_eoi 8
          (record (r.pic) { trace = inb rtc_port_data ∷ outb 0x0C rtc_port_index ∷ r.pic.trace });
  }

-- The loop of `RTC_write` that turns a frequency into a rate. `temp` is a `double` that is a whole
-- number or ends in a half, since the loop returns at once at a half: `twice` is `2 * temp`. The
-- result is `none` for the `return -1`.
pub rate_loop : ℕ → ℕ → ℕ → Option (Option ℕ)
rate_loop zero twice rate_a = none
rate_loop (suc fuel) twice rate_a =
    let rest = rate_loop fuel (twice / 2) (rate_a + 1) in
    if twice == 2 then some (some rate_a) else if not (twice % 2 == 0) then some none else rest

-- Twelve rounds are enough below 2 ^ 11: each halves `twice`.
abbrev pub rate_fuel : ℕ
rate_fuel = 12

-- The tests of `RTC_write` on a frequency, an `int`.
abbrev pub bad_frequency : ℕ → Bool
bad_frequency f = (not (negative f) && ltb 1024 f) || (negative f || f == 0)

module _ (dev : Devices) where
  -- The value and the clock; `none` for `buf` is the null pointer. A value of `none` is a loop that
  -- has run out of fuel.
  unfoldable pub rtc_write : ℕ → Option ℕ → ℕ → Rtc → Option (ℕ × Rtc)
  unfolding rtc_set_rate rate_loop
  rtc_write fd none nbytes r = some (minus_one, on_pic (emit cli) r)
  rtc_write fd (some frequency) nbytes r =
      let r' = on_pic (emit cli) r in
      if not (nbytes == 4)
      then some (minus_one, r')
      else if bad_frequency frequency
      then some (minus_one, r')
      else elim (rate_loop rate_fuel (2 * frequency) 0) [
        | none ↦ none
        | some none ↦ some (minus_one, r')
        | some (some rate_a) ↦
            some (nbytes, on_pic (emit sti) (rtc_set_rate dev (sub32 16 rate_a) r'))
      ]

  unfoldable pub rtc_close : ℕ → Rtc → ℕ × Rtc
  unfolding rtc_set_rate
  rtc_close fd r = (0, rtc_set_rate dev rtc_rate r)

-- RTC_open.
unfoldable pub rtc_open : Option (List ℕ) → ℕ
rtc_open filename = 0

-- What the waiting loop of `RTC_read` sees: the clock's interrupt, or a look at the flag without one.
pub data Tick : Type 0 where
  interrupt look : Tick

module _ (dev : Devices) where
  -- `while(!interrupt_bool);` over what happens: `none` if the flag is still clear at the end.
  pub wait_rtc : List Tick → Rtc → Option Rtc
  wait_rtc [] r = if r.interrupt_bool then some r else none
  wait_rtc (interrupt ∷ ts) r =
      if r.interrupt_bool then some r else wait_rtc ts (rtc_interrupt_handler dev r)
  wait_rtc (look ∷ ts) r = if r.interrupt_bool then some r else wait_rtc ts r

  unfoldable pub rtc_read : List Tick → Rtc → Option (ℕ × Rtc)
  rtc_read ts r =
      let masked = on_pic (λ p. disable_irq dev 1 (disable_irq dev 0 (emit sti p))) r in
      wait_rtc ts (record masked { interrupt_bool = false }) >>= λ r'.
      some (0, on_pic (λ p. enable_irq dev 1 (enable_irq dev 0 p)) r')
