-- ===== src/Keyboard/Lines.antt =====
-- keyboard.c: the characters of a line.
use illinix_os.Base.{
  ℕ, zero, suc, ◌+◌, ◌-◌, ◌≤◌, ◌<◌, ◌≡◌, refl, ◌∙◌, ap, ap₂, sym, subst, true, Option, some, List,
  [], ◌∷◌, ◌++◌, arith, ◌>>=◌, get_elem?, get_or, length, replicate, length-append,
}
use mathlib.Core.Option.{some-injective, none-ne-some}
use mathlib.Core.List.{append-nil}
use illinix_os.Libc.{store}
use illinix_os.Libc.Copies.{store_here, assoc}
use illinix_os.Terminal.{Terminal}
use illinix_os.Keyboard.{
  Keys, Editor, act, nosound, beep, put_char, scancodes, type_char, handle_key,
}
use illinix_os.Keyboard.Editing.{is_plain, handle_key-is_plain}

-- The line holds the text `s` and nothing behind it, and neither Ctrl nor Backspace is held.
pub record IsTyping (e : Editor) (s : List ℕ) : Type 0 where
  pub line : e.t.typed_buf ≡ s ++ replicate (128 - length s) 0
  pub count : e.t.curr_char_idx ≡ length s
  pub ctrl : e.keys.lctrl_on ≡ 0
  pub back : e.keys.backspace_on ≡ 0

-- The editor with one more character on its line.
abbrev pub typed : ℕ → List ℕ → Editor → Editor
typed ch line e = record e {
  t = record (e.t) { typed_buf = line; curr_char_idx = e.t.curr_char_idx + 1 };
  actions = beep ∷ put_char ch ∷ e.actions;
}

-- The text `s` in a buffer of 128 bytes.
abbrev pub in_buffer : List ℕ → List ℕ
in_buffer s = s ++ replicate (128 - length s) 0

room_for_one : (n : ℕ) → n < 128 → replicate {A = ℕ} (128 - n) 0 ≡ 0 ∷ replicate (127 - n) 0
room_for_one n h = let e : 128 - n ≡ suc (127 - n) = omega arith in rw e refl

pub append_one :
    (s : List ℕ) (ch : ℕ)
    → length s < 128
    → store (in_buffer s) (length s) ch ≡ some (in_buffer (s ++ ch ∷ []))
append_one s ch h =
    let left : 127 - length s ≡ 128 - length (s ++ ch ∷ []) =
      omega (arith, length-append s (ch ∷ [])) in
    ap (λ r. store (s ++ r) (length s) ch) (room_for_one (length s) h)
    ∙ store_here s (replicate (127 - length s) 0) 0 ch
    ∙ ap (λ n. some (s ++ ch ∷ replicate n 0)) left
    ∙ ap some (sym (assoc s (ch ∷ []) (replicate (128 - length (s ++ ch ∷ [])) 0)))

type_char_lem :
    (ch : ℕ) (e : Editor) (s : List ℕ)
    → IsTyping e s
    → length s < 128
    → type_char ch e ≡ some (typed ch (in_buffer (s ++ ch ∷ [])) e)
unfolding type_char
type_char_lem ch e s t room =
    ap₂ (λ line i. store line i ch >>= λ out. some (typed ch out e)) t.line t.count
    ∙ ap (λ m. m >>= λ out. some (typed ch out e)) (append_one s ch room)

-- A plain key types its character at the end of the line.
pub handle_key-IsTyping :
    (c : ℕ) (e : Editor) (s : List ℕ)
    → is_plain c ≡ true
    → IsTyping e s
    → length s < 128
    → (ch : ℕ) × (get_elem? (scancodes e.keys) (c - 1) ≡ some ch)
      × (handle_key c e ≡ some (typed ch (in_buffer (s ++ ch ∷ [])) (act nosound e)))
      × IsTyping (typed ch (in_buffer (s ++ ch ∷ [])) (act nosound e)) (s ++ ch ∷ [])
handle_key-IsTyping c e s plain t room =
    let (ch, table, handled) =
      handle_key-is_plain c e plain t.ctrl t.back (λ full. omega (arith, t.count)) in
    (
      ch,
      table,
      handled
          ∙ type_char_lem ch (act nosound e) s
              (record { line = t.line; count = t.count; ctrl = t.ctrl; back = t.back }) room,
      record {
        line = refl;
        count = omega (arith, t.count, length-append s (ch ∷ []));
        ctrl = t.ctrl;
        back = t.back;
      },
    )

-- Several keys, one after the other.
unfoldable pub type_keys : List ℕ → Editor → Option Editor
type_keys [] e = some e
type_keys (c ∷ cs) e = handle_key c e >>= λ e'. type_keys cs e'

-- The characters of the scancodes, in the table that the flags choose.
abbrev pub characters : Keys → List ℕ → List ℕ
characters k [] = []
characters k (c ∷ cs) = get_or (scancodes k) (c - 1) 0 ∷ characters k cs

abbrev pub ArePlain : List ℕ → Type 0
ArePlain [] = Unit
ArePlain (c ∷ cs) = (is_plain c ≡ true) × ArePlain cs

get_or-get_elem? : (xs : List ℕ) (i d : ℕ) {x : ℕ} → get_elem? xs i ≡ some x → get_or xs i d ≡ x
get_or-get_elem? [] i d h = absurd (none-ne-some _ h)
get_or-get_elem? (y ∷ xs) zero d h = some-injective _ _ h
get_or-get_elem? (y ∷ xs) (suc i) d h = get_or-get_elem? xs i d h

-- Plain keys, typed on a line with room for them: the handler does not fault, and their characters
-- stand at the end of the line; no flag changes, nor anything of the terminal but its line.
pub type_keys_lem :
    (cs : List ℕ) (e : Editor) (s : List ℕ)
    → ArePlain cs
    → IsTyping e s
    → length s + length cs ≤ 128
    → (e' : Editor) × (type_keys cs e ≡ some e')
      × IsTyping e' (s ++ characters e.keys cs)
      × (e'.keys ≡ e.keys)
      × (record (e'.t) { typed_buf = e.t.typed_buf; curr_char_idx = e.t.curr_char_idx } ≡ e.t)
unfolding type_keys
type_keys_lem [] e s plain t room =
    (e, refl, subst (λ r. IsTyping e r) (sym (append-nil s)) t, refl, refl)
type_keys_lem (c ∷ cs) e s plain t room =
    let (ch, table, handled, t') = handle_key-IsTyping c e s plain.0 t (omega arith) in
    let next = typed ch (in_buffer (s ++ ch ∷ [])) (act nosound e) in
    let (e', run, after, keys, rest) =
      type_keys_lem cs next (s ++ ch ∷ []) plain.1 t' (omega (arith, length-append s (ch ∷ []))) in
    let text : (s ++ ch ∷ []) ++ characters e.keys cs ≡ s ++ characters e.keys (c ∷ cs) =
      assoc s (ch ∷ []) (characters e.keys cs)
      ∙ ap (λ x. s ++ x ∷ characters e.keys cs)
          (sym (get_or-get_elem? (scancodes e.keys) (c - 1) 0 table)) in
    (
      e',
      rw handled run,
      subst (λ r. IsTyping e' r) text after,
      keys,
      ap
          (λ (u : Terminal). record u {
            typed_buf = e.t.typed_buf;
            curr_char_idx = e.t.curr_char_idx;
          })
          rest,
    )
