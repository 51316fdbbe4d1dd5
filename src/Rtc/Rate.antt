-- ===== src/Rtc/Rate.antt =====
-- RTC.c: the frequencies of `RTC_write` and their rates.
use native.Mathlib.Nat.{pow-suc}
use illinix_os.Base.{
  Bool-cases, ℕ, zero, suc, ◌+◌, ◌-◌, ◌*◌, ◌%◌, ◌/◌, ◌^◌, ◌≤◌, ◌<◌, ◌≡◌, refl, ◌≢◌, ◌⊎◌, ◌∙◌, ap,
  ap₂, subst, inl, inr, sym, Bool, true, false, ◌&&◌, none, some, arith, leb, ◌==◌, ==_iff, ==_ne,
  ℕ_discrete, if◌then◌else◌, minus_one, bit_and, all_below, all_below_sound, dec_lt,
}
use illinix_os.Io.{Devices, cli, sti, interrupt_flag}
use illinix_os.Pic.{emit}
use illinix_os.Rtc.{Rtc, on_pic, rate_loop, rate_fuel, bad_frequency, rtc_write, rtc_set_rate}

-- What the loop answers at `twice = t`: the exponent, or that `t` is no power of two.
abbrev Answer : ℕ → ℕ → ℕ → Type 0
Answer fuel t a =
    ((k : ℕ) × (t ≡ 2 ^ suc k) × (rate_loop fuel t a ≡ some (some (a + k))))
    ⊎ (((k : ℕ) → t ≢ 2 ^ suc k) × (rate_loop fuel t a ≡ some none))

half_power : (t k : ℕ) → t ≡ 2 ^ suc k → t ≢ 2 → (j : ℕ) × (t / 2 ≡ 2 ^ suc j)
half_power t zero e more = absurd (more e)
half_power t (suc j) e more = (j, omega (arith, pow-suc 2 (suc j)))

rate_loop-Answer : (fuel t a : ℕ) → 2 ≤ t → t < 2 ^ fuel → Answer fuel t a
unfolding rate_loop
rate_loop-Answer zero t a low high = absurd (omega arith)
rate_loop-Answer (suc fuel) t a low high = elim (ℕ_discrete t 2) [
  | yes two ↦ inl (0, two, rw ((==_iff t 2).1 two) (ap (λ k. some (some k)) (omega arith)))
  | no more ↦ elim (ℕ_discrete (t % 2) 0) [
    | no odd ↦
        inr
          ((λ k e. odd (omega (arith, pow-suc 2 k))), rw (==_ne t 2 more, ==_ne (t % 2) 0 odd) refl)
    | yes even ↦
        elim (rate_loop-Answer fuel (t / 2) (a + 1) (omega arith) (omega (arith, pow-suc 2 fuel))) [
          | inl (k, e, r) ↦ inl (
            suc k,
            omega (arith, pow-suc 2 (suc k)),
            rw (==_ne t 2 more, (==_iff (t % 2) 0).1 even)
                (r ∙ ap (λ n. some (some n)) (omega arith)),
          )
          | inr (differs, r) ↦ inr (
            (λ k e. let (j, half) = half_power t k e more in differs j half),
            rw (==_ne t 2 more, (==_iff (t % 2) 0).1 even) r,
          )
        ]
  ]
]

-- The powers of two up to 1024.
powers_table : all_below 11 (λ k. leb 1 (2 ^ k) && leb (2 ^ k) 1024) ≡ true
unfolding all_below
powers_table = refl

powers_small : (k : ℕ) → k ≤ 10 → (1 ≤ 2 ^ k) × (2 ^ k ≤ 1024)
powers_small k h = ground (
  arith,
  all_below_sound 11 (λ j. leb 1 (2 ^ j) && leb (2 ^ j) 1024) k powers_table (omega arith),
)

powers_large : (k : ℕ) → 11 ≤ k → 2048 ≤ 2 ^ k
powers_large zero h = absurd (omega arith)
powers_large (suc k) h = elim (ℕ_discrete k 10) [
  | yes e ↦ rw e (omega arith)
  | no ne ↦ omega (arith, pow-suc 2 k, powers_large k (omega arith))
]

small_exponent : (k : ℕ) → 2 ^ k ≤ 1024 → k ≤ 10
small_exponent k h = elim (dec_lt 10 k) [
  | yes big ↦ absurd (omega (arith, powers_large k big))
  | no low ↦ omega arith
]

good_frequency : (f : ℕ) → bad_frequency f ≡ false → (0 < f) × (f ≤ 1024)
good_frequency f h = ground arith

refused_frequency : (f k : ℕ) → bad_frequency f ≡ true → k ≤ 10 → f ≢ 2 ^ k
refused_frequency f k h low e = let (one, top) = powers_small k low in ground arith

-- `RTC_write` ends, whatever the frequency. If four bytes are given and the frequency is a power of
-- two from 1 to 1024, say 2 ^ k, it sets the rate 16 - k and returns 4. In every other case it
-- returns -1 and the clock is as it was, except that interrupts have been turned off.
pub rtc_write_lem :
    (dev : Devices) (fd f nbytes : ℕ) (r : Rtc)
    → ((k : ℕ) × (k ≤ 10)
        × (f ≡ 2 ^ k)
        × (nbytes ≡ 4)
        × (rtc_write dev fd (some f) nbytes r
            ≡ some (4, on_pic (emit sti) (rtc_set_rate dev (16 - k) (on_pic (emit cli) r)))))
      ⊎ ((nbytes ≡ 4 → (k : ℕ) → k ≤ 10 → f ≢ 2 ^ k)
          × (rtc_write dev fd (some f) nbytes r ≡ some (minus_one, on_pic (emit cli) r)))
unfolding rtc_write
rtc_write_lem dev fd f nbytes r = elim (ℕ_discrete nbytes 4) [
  | no other ↦ inr ((λ e. absurd (other e)), rw (==_ne nbytes 4 other) refl)
  | yes four ↦ elim (Bool-cases (bad_frequency f)) [
    | inl bad ↦
        inr ((λ _ k low. refused_frequency f k bad low), rw ((==_iff nbytes 4).1 four, bad) refl)
    | inr good ↦
        let (pos, top) = good_frequency f good in
        elim (rate_loop-Answer rate_fuel (2 * f) 0 (omega arith) (omega arith)) [
          | inl (k, e, a) ↦
              let power : f ≡ 2 ^ k = omega (arith, pow-suc 2 k) in
              let low : k ≤ 10 = small_exponent k (subst (λ n. n ≤ 1024) power top) in
              inl (
                k,
                low,
                power,
                four,
                rw ((==_iff nbytes 4).1 four, good, a)
                    (ap₂
                      (λ n i.
                        some (n, on_pic (emit sti) (rtc_set_rate dev i (on_pic (emit cli) r))))
                      four (omega arith)),
              )
          | inr (differs, a) ↦ inr (
            (λ _ k low h. differs k (omega (arith, pow-suc 2 k))),
            rw ((==_iff nbytes 4).1 four, good, a) refl,
          )
        ]
  ]
]

-- The rate that `RTC_set_rate` sets is the low four bits of what it is given: for the exponents of
-- `RTC_write`, 16 - k itself, but 0, the clock's code for no interrupts at all, for k = 0.
rate_table : all_below 11 (λ k. bit_and (16 - k) 0xF == (if k == 0 then 0 else 16 - k)) ≡ true
unfolding all_below
rate_table = refl

rate_of : (k : ℕ) → k ≤ 10 → bit_and (16 - k) 0xF ≡ (if k == 0 then 0 else 16 - k)
rate_of k h = (==_iff _ _).0 (
    all_below_sound 11 (λ i. bit_and (16 - i) 0xF == (if i == 0 then 0 else 16 - i)) k rate_table
      (omega arith))

abbrev distinct : ℕ → ℕ → Bool
distinct j k = if 2 ^ k == 2 ^ j then j == k else true

distinct_table : all_below 11 (λ j. all_below 11 (distinct j)) ≡ true
unfolding all_below
distinct_table = refl

exponent_injective : (j k : ℕ) → j ≤ 10 → k ≤ 10 → 2 ^ k ≡ 2 ^ j → j ≡ k
exponent_injective j k hj hk e = ground (
  arith,
  all_below_sound 11 (distinct j) k
      (all_below_sound 11 (λ i. all_below 11 (distinct i)) j distinct_table (omega arith))
      (omega arith),
)

-- After a call of `RTC_write` with a power of two, the rate is 16 less the exponent, and interrupts
-- are on; but the frequency 1 leaves the rate 0, at which the clock sends no interrupt.
pub rtc_write-rate :
    (dev : Devices) (fd k : ℕ) (r : Rtc)
    → k ≤ 10
    → (r' : Rtc) × (rtc_write dev fd (some (2 ^ k)) 4 r ≡ some (4, r'))
      × (r'.rate ≡ (if k == 0 then 0 else 16 - k))
      × (interrupt_flag false r'.pic.trace ≡ true)
unfolding rtc_set_rate
rtc_write-rate dev fd k r low = elim (rtc_write_lem dev fd (2 ^ k) 4 r) [
  | inr (none_such, e) ↦ absurd (none_such refl k low refl)
  | inl (j, lowj, same, four, e) ↦
      let agree : j ≡ k = exponent_injective j k lowj low same in
      (
        on_pic (emit sti) (rtc_set_rate dev (16 - j) (on_pic (emit cli) r)),
        e,
        subst (λ i. bit_and (16 - i) 0xF ≡ (if k == 0 then 0 else 16 - k)) (sym agree)
            (rate_of k low),
        refl,
      )
]
