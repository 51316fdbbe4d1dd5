-- ===== src/Keyboard/Editing.antt =====
-- keyboard.c: a single key that types a character.
use illinix_os.Base.{
  ℕ, zero, suc, ◌-◌, ◌<◌, ◌≡◌, refl, ◌≢◌, inl, inr, Bool, true, false, ◌&&◌, ◌||◌, not, some, List,
  [], ◌∷◌, arith, ◌==◌, ==_iff, ==_ne, ltb, lt→ltb, Bool-cases, get_elem?, get_or, length,
  all_below, all_below_sound,
}
use illinix_os.Keyboard.Scancodes.{lower_case_scancodes}
use illinix_os.Keyboard.{Keys, Editor, act, nosound, scancodes, press, type_char, handle_key}

-- The scancodes that print a character: those of the table but for the ones of the keys that set
-- flags, of Enter, Backspace and the key '*'.
abbrev pub is_plain : ℕ → Bool
is_plain c =
    (ltb 0 c && ltb c 0x3B)
    && (not (c == 0x37)
        && (not (c == 0x38)
            && (not (c == 0x2A)
                && (not (c == 0x36)
                    && (not (c == 0x1D)
                        && (not (c == 0x3A)
                            && (not (c == 0x0E) && (not (c == 0x1C) && not (c == 0x48)))))))))

-- A plain key sets no flag.
press-is_plain : (c : ℕ) (k : Keys) → is_plain c ≡ true → press c k ≡ (k, false)
press-is_plain c k h = ground arith

-- Each of the four tables has a character for a plain key, and in the first it is not that of Enter.
abbrev listed : List ℕ → ℕ → Bool
listed table i = ltb i (length table)

not_enter_table :
    all_below 58 (λ i. (i == 27) || not (get_or lower_case_scancodes i 0x45 == 0x45)) ≡ true
unfolding all_below
not_enter_table = refl

pub get_elem?-get_or :
    (xs : List ℕ) (i d : ℕ) → i < length xs → get_elem? xs i ≡ some (get_or xs i d)
get_elem?-get_or [] i d h = absurd (omega arith)
get_elem?-get_or (x ∷ xs) zero d h = refl
get_elem?-get_or (x ∷ xs) (suc i) d h = get_elem?-get_or xs i d (omega arith)

pub plain_range : (c : ℕ) → is_plain c ≡ true → (0 < c) × (c < 59) × (c ≢ 28)
plain_range c h = (ground arith, ground arith, λ e. ground arith)

plain_other : (c : ℕ) → is_plain c ≡ true → (c ≢ 0x48) × (c ≢ 0x37) × (c ≢ 0x0E)
plain_other c h = ((λ e. ground arith), (λ e. ground arith), λ e. ground arith)

not_enter : (i : ℕ) → i < 58 → i ≢ 27 → get_or lower_case_scancodes i 0x45 ≢ 0x45
not_enter i low other e =
    let checked =
      all_below_sound 58 (λ i. (i == 27) || not (get_or lower_case_scancodes i 0x45 == 0x45)) i
        not_enter_table low in
    refuted i (get_or lower_case_scancodes i 0x45) other e checked
  where
    refuted : (i l : ℕ) → i ≢ 27 → l ≡ 0x45 → ((i == 27) || not (l == 0x45)) ≡ true → ⊥
    refuted i l other e h = ground arith

plain_lower :
    (c : ℕ)
    → is_plain c ≡ true
    → (l : ℕ) × (get_elem? lower_case_scancodes (c - 1) ≡ some l) × (l ≢ 0x45)
plain_lower c h =
    let (pos, low, other) = plain_range c h in
    (
      get_or lower_case_scancodes (c - 1) 0x45,
      get_elem?-get_or lower_case_scancodes (c - 1) 0x45 (omega arith),
      not_enter (c - 1) (omega arith) (λ e. other (omega arith)),
    )

-- The character that the tables have for a plain key.
pub plain_char :
    (c : ℕ) (k : Keys) → is_plain c ≡ true → (ch : ℕ) × (get_elem? (scancodes k) (c - 1) ≡ some ch)
plain_char c k h =
    let (pos, low, other) = plain_range c h in
    (
      get_or (scancodes k) (c - 1) 0,
      get_elem?-get_or (scancodes k) (c - 1) 0 (wide k (c - 1) (omega arith)),
    )
  where
    wide : (k : Keys) (i : ℕ) → i < 58 → i < length (scancodes k)
    wide k i low = elim (Bool-cases (k.cap_on == 0)) [
      | inl cap ↦ elim (Bool-cases (not (k.ls_on == 0) || not (k.rs_on == 0))) [
        | inl shift ↦ rw (cap, shift) (omega arith)
        | inr shift ↦ rw (cap, shift) (omega arith)
      ]
      | inr cap ↦ elim (Bool-cases (not (k.ls_on == 0) || not (k.rs_on == 0))) [
        | inl shift ↦ rw (cap, shift) (omega arith)
        | inr shift ↦ rw (cap, shift) (omega arith)
      ]
    ]

-- The handler for a plain key, on a line that is not full and with neither Ctrl nor Backspace held:
-- it types the character of the table that the flags choose.
pub handle_key-is_plain :
    (c : ℕ) (e : Editor)
    → is_plain c ≡ true
    → e.keys.lctrl_on ≡ 0
    → e.keys.backspace_on ≡ 0
    → e.t.curr_char_idx ≢ 128
    → (ch : ℕ) × (get_elem? (scancodes e.keys) (c - 1) ≡ some ch)
      × (handle_key c e ≡ type_char ch (act nosound e))
unfolding handle_key
handle_key-is_plain c e h ctrl back room =
    let (l, el, nl) = plain_lower c h in
    let (ch, ech) = plain_char c e.keys h in
    let (pos, low, other) = plain_range c h in
    let (up, star, bs) = plain_other c h in
    (
      ch,
      ech,
      rw
          (
            press-is_plain c e.keys h,
            ==_ne c 0x48 up,
            lt→ltb 0 c pos,
            lt→ltb c 0x3B low,
            ==_ne c 0x37 star,
            el,
            ==_ne l 0x45 nl,
            ==_ne e.t.curr_char_idx 128 room,
            (==_iff e.keys.lctrl_on 0).1 ctrl,
            (==_iff e.keys.backspace_on 0).1 back,
            ==_ne c 0x0E bs,
            ech,
          )
          refl,
    )
