-- ===== src/Keyboard/Blocking/Typing.antt =====
-- keyboard.c and terminal.c: a program waits for a line that is typed meanwhile.
use illinix_os.Base.{
  ℕ, ◌+◌, ◌≤◌, ◌<◌, ◌≡◌, refl, ◌∙◌, ap, sym, subst, Bool, false, not, ◌&&◌, leb, some, List, [],
  ◌∷◌, ◌++◌, arith, map, bind_elim, ltb, negative, lt→leb_false, if◌then◌else◌, get_elem?, set,
  replicate, length, get_elem?-set_self, set-set, set-same, get_elem?-lt, length-set, length-append,
  ==_iff, ==_ne, ◌==◌,
}
use mathlib.Core.Option.{some-injective}
use illinix_os.Libc.{strlen}
use illinix_os.Libc.Lengths.{HasNoNul}
use illinix_os.Terminal.{Terminal}
use illinix_os.Terminal.Driver.{copy_line, terminal_read}
use illinix_os.Keyboard.{Editor, Keyboard, press, handle_key, keyboard_interrupt_handler}
use illinix_os.Keyboard.Editing.{plain_range}
use illinix_os.Keyboard.Lines.{
  IsTyping, ArePlain, characters, type_keys, type_keys_lem, handle_key-IsTyping,
}
use illinix_os.Keyboard.Reading.{handle_key-enter}
use illinix_os.Keyboard.Delivery.{filled, terminal_read-type_keys}
use illinix_os.Keyboard.Blocking.{Event, key, other, wait_line, blocking_read}

-- The state with the flags, the terminal `d` and the actions of an editor.
abbrev pub put_editor : ℕ → Keyboard → Editor → Keyboard
put_editor d k e = record k {
  keys = e.keys;
  terminals = set k.terminals d e.t;
  actions = e.actions;
}

no_switch : (c : ℕ) (b b' p : Bool) → c < 0x3B → (not p && (b && (leb 0x3B c && b'))) ≡ false
no_switch c b b' p low = ground (arith, lt→leb_false 0x3B c low)

module _ (k : Keyboard) (there : k.curr_terminal_idx < length k.terminals) where
  here :
      (e : Editor)
      → get_elem? (put_editor k.curr_terminal_idx k e).terminals k.curr_terminal_idx ≡ some e.t
  here e = get_elem?-set_self k.terminals k.curr_terminal_idx e.t there

  -- A key below F1 goes to the displayed terminal.
  handler-editor :
      (c : ℕ) (e e' : Editor)
      → c < 0x3B
      → handle_key c e ≡ some e'
      → keyboard_interrupt_handler c (put_editor k.curr_terminal_idx k e)
        ≡ some (put_editor k.curr_terminal_idx k e')
  unfolding keyboard_interrupt_handler
  handler-editor c e e' low handled =
      rw
        (
          no_switch c ((press c e.keys).0.la_on == 1) (leb c 0x3D) (press c e.keys).1 low,
          here e,
          handled,
          set-set k.terminals k.curr_terminal_idx e.t e'.t,
        )
        refl

  wait_line-key :
      (c : ℕ) (es : List Event) (e e' : Editor)
      → c < 0x3B
      → e.t.typing_finish ≡ 0
      → handle_key c e ≡ some e'
      → wait_line (key c ∷ es) k.curr_terminal_idx (put_editor k.curr_terminal_idx k e)
        ≡ wait_line es k.curr_terminal_idx (put_editor k.curr_terminal_idx k e')
  unfolding wait_line
  wait_line-key c es e e' low begun handled =
      rw (here e, (==_iff e.t.typing_finish 0).1 begun, handler-editor c e e' low handled) refl

  wait_line-finished :
      (es : List Event) (e : Editor)
      → e.t.typing_finish ≡ 1
      → wait_line es k.curr_terminal_idx (put_editor k.curr_terminal_idx k e)
        ≡ some (put_editor k.curr_terminal_idx k e)
  unfolding wait_line
  wait_line-finished [] e fin = rw (here e, ==_ne e.t.typing_finish 0 (λ z. omega arith)) refl
  wait_line-finished (key c ∷ es) e fin =
      rw (here e, ==_ne e.t.typing_finish 0 (λ z. omega arith)) refl
  wait_line-finished (other f ∷ es) e fin =
      rw (here e, ==_ne e.t.typing_finish 0 (λ z. omega arith)) refl

  wait_line-type_keys :
      (cs : List ℕ) (e e' : Editor) (s : List ℕ) (es : List Event)
      → ArePlain cs
      → IsTyping e s
      → length s + length cs ≤ 128
      → e.t.typing_finish ≡ 0
      → type_keys cs e ≡ some e'
      → (wait_line (map key cs ++ es) k.curr_terminal_idx (put_editor k.curr_terminal_idx k e)
          ≡ wait_line es k.curr_terminal_idx (put_editor k.curr_terminal_idx k e'))
        × (e'.t.typing_finish ≡ 0)
  unfolding type_keys
  wait_line-type_keys [] e e' s es plain t room begun run =
      let same = some-injective _ _ run in
      (
        ap (λ r. wait_line es k.curr_terminal_idx (put_editor k.curr_terminal_idx k r)) same,
        subst (λ r. r.t.typing_finish ≡ 0) same begun,
      )
  wait_line-type_keys (c ∷ cs) e e' s es plain t room begun run =
      let (ch, table, handled, t') = handle_key-IsTyping c e s plain.0 t (omega arith) in
      let low : c < 0x3B = (plain_range c plain.0).1 in
      let (later, still) =
        wait_line-type_keys cs _ e' (s ++ ch ∷ []) es plain.1 t'
          (omega (arith, length-append s (ch ∷ []))) begun (rw handled at run) in
      (wait_line-key c (map key cs ++ es) e _ low begun handled ∙ later, still)

  -- A read of the displayed terminal, once a line is finished.
  blocking_read-finished :
      (es : List Event) (k0 : Keyboard) (e : Editor) (buf out : List ℕ) (n v : ℕ) (t' : Terminal)
      → wait_line es k.curr_terminal_idx k0 ≡ some (put_editor k.curr_terminal_idx k e)
      → n < 2147483648
      → terminal_read buf n e.t ≡ some (v, out, t')
      → blocking_read es k.curr_terminal_idx (some buf) n k0
        ≡ some (v, some out, put_editor k.curr_terminal_idx k (record e { t = t' }))
  unfolding blocking_read terminal_read
  blocking_read-finished es k0 e buf out n v t' waited small read =
      let nonneg : negative n ≡ false = lt→leb_false 2147483648 n small in
      let taken = record (e.t) { typing_finish = 0 } in
      let cleared = record taken { typed_buf = replicate 128 0; curr_char_idx = 0 } in
      let ts = set k.terminals k.curr_terminal_idx e.t in
      let self : get_elem? (set ts k.curr_terminal_idx taken) k.curr_terminal_idx ≡ some taken =
        get_elem?-set_self ts k.curr_terminal_idx taken
          (omega (arith, length-set k.terminals k.curr_terminal_idx e.t, there)) in
      bind_elim (copy_line e.t.share_buf (if ltb 128 n then 128 else n) 0 buf) _ (rw nonneg at read)
        λ line copied d1. bind_elim (strlen line) _ d1 λ len measured d2.
          rw
            (
              nonneg,
              waited,
              here e,
              copied,
              self,
              measured,
              set-set ts k.curr_terminal_idx taken cleared,
              set-set k.terminals k.curr_terminal_idx e.t cleared,
            )
            (ap
              (λ (r : ℕ × List ℕ × Terminal).
                some (r.0, some r.1, put_editor k.curr_terminal_idx k (record e { t = r.2 })))
              (some-injective _ _ d2))

-- A program waits on the displayed terminal for a line, of which nothing has been typed yet, with a
-- whole history: plain keys of which none types a NUL, at most 126 of them, then Enter, and then
-- whatever happens. `terminal_read` of `n` bytes, more than were typed, returns when the line is
-- finished: no step faults, it gives the number of characters and one for the line feed, and the
-- buffer starts with the characters that the flags choose for the keys, the line feed and NULs. No
-- other terminal changes.
pub blocking_read-type_keys :
    (cs : List ℕ) (k : Keyboard) (t : Terminal) (buf : List ℕ) (n : ℕ) (es : List Event)
    → get_elem? k.terminals k.curr_terminal_idx ≡ some t
    → t.typing_finish ≡ 0
    → ArePlain cs
    → IsTyping (record { keys = k.keys; t = t; actions = k.actions }) []
    → t.buffer_size ≤ 20
    → HasNoNul (characters k.keys cs)
    → length (characters k.keys cs) + 1 < n
    → length cs ≤ 126
    → n ≤ 128
    → n ≤ length buf
    → (e : Editor) × (blocking_read (map key cs ++ key 0x1C ∷ es) k.curr_terminal_idx (some buf) n k
        ≡ some (
          length (characters k.keys cs) + 1,
          some (filled (characters k.keys cs ++ 0x0A ∷ []) n buf),
          put_editor k.curr_terminal_idx k e,
        ))
blocking_read-type_keys cs k t buf n es at begun plain typing size text less few small fits =
    let d = k.curr_terminal_idx in
    let there = get_elem?-lt k.terminals d at in
    let e : Editor = record { keys = k.keys; t = t; actions = k.actions } in
    let (e1, e2, t1, run, entered, read) =
      terminal_read-type_keys cs e buf n plain typing size text less few small fits in
    let (f1, run', line, same_keys, rest) = type_keys_lem cs e [] plain typing (omega arith) in
    let same : f1 ≡ e1 = some-injective _ _ (sym run' ∙ run) in
    let line1 = subst (λ r. IsTyping r (characters e.keys cs)) same line in
    let size1 : e1.t.buffer_size ≤ 20 =
      subst (λ r. r.t.buffer_size ≤ 20) same (subst (λ u. u.buffer_size ≤ 20) (sym rest) size) in
    let (f2, entered', shared, fin, empty) =
      handle_key-enter e1 (characters k.keys cs) line1 (omega arith) size1 in
    let fin2 : e2.t.typing_finish ≡ 1 =
      subst (λ r. r.t.typing_finish ≡ 1) (some-injective _ _ (sym entered' ∙ entered)) fin in
    let (typed, still) =
      wait_line-type_keys k there cs e e1 [] (key 0x1C ∷ es) plain typing (omega arith) begun run in
    let start : put_editor d k e ≡ k =
      ap (λ ts. record k { terminals = ts }) (set-same k.terminals d at) in
    let waited : wait_line (map key cs ++ key 0x1C ∷ es) d k ≡ some (put_editor d k e2) =
      ap (wait_line (map key cs ++ key 0x1C ∷ es) d) (sym start)
      ∙ typed
      ∙ wait_line-key k there 0x1C es e1 e2 (omega arith) still entered
      ∙ wait_line-finished k there es e2 fin2 in
    (
      record e2 { t = t1 },
      blocking_read-finished k there (map key cs ++ key 0x1C ∷ es) k e2 buf _ n _ t1 waited
          (omega arith) read,
    )
