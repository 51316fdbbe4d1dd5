-- ===== src/Keyboard/Reading.antt =====
-- keyboard.c: the key Enter.
use illinix_os.Base.{
  ℕ, ◌+◌, ◌≤◌, ◌<◌, ◌≡◌, refl, ◌∙◌, ap, ap₂, false, none, some, List, [], ◌∷◌, ◌++◌, arith, ◌==◌,
  ==_iff, ==_ne, ltb, lt→ltb, le→ltb_false, if◌then◌else◌, set, length, ℕ_discrete,
}
use illinix_os.Libc.{store}
use illinix_os.Terminal.{Terminal}
use illinix_os.Keyboard.{Editor, act, nosound, beep, put_char, remember, submit, enter, handle_key}
use illinix_os.Keyboard.Lines.{IsTyping, in_buffer, append_one}

remember_lem :
    (t : Terminal)
    → t.buffer_size ≤ 20
    → (t' : Terminal) × (remember t ≡ some t')
      × (t'.typed_buf ≡ t.typed_buf)
      × (t'.curr_char_idx ≡ t.curr_char_idx)
unfolding remember
remember_lem t h = elim (ℕ_discrete t.hello_flag 0) [
  | no greets ↦ (
    record t { buffer_size = if t.buffer_size == 20 then 0 else t.buffer_size },
    rw (==_ne t.hello_flag 0 greets) refl,
    refl,
    refl,
  )
  | yes plain ↦
      let size = if t.buffer_size == 20 then 0 else t.buffer_size in
      let low : size < 20 = ground arith in
      (
        record t { buffer_for_ec = set t.buffer_for_ec size t.typed_buf; buffer_size = size + 1 },
        rw ((==_iff t.hello_flag 0).1 plain, lt→ltb size 20 low) refl,
        refl,
        refl,
      )
]

enter_lem :
    (e : Editor) (s : List ℕ)
    → IsTyping e s
    → length s < 128
    → e.t.buffer_size ≤ 20
    → (e' : Editor) × (enter e ≡ some e')
      × (e'.t.share_buf ≡ in_buffer (s ++ 0x0A ∷ []))
      × (e'.t.typing_finish ≡ 1)
      × IsTyping e' []
unfolding enter
enter_lem e s t room size =
    let (t', r, same, place) = remember_lem e.t size in
    let stored : store t'.typed_buf t'.curr_char_idx 0x0A ≡ some (in_buffer (s ++ 0x0A ∷ [])) =
      ap₂ (λ b i. store b i 0x0A) (same ∙ t.line) (place ∙ t.count) ∙ append_one s 0x0A room in
    (
      record e {
        t = submit (record t' { typed_buf = in_buffer (s ++ 0x0A ∷ []) });
        actions = beep ∷ put_char 0x0A ∷ e.actions;
      },
      rw (r, stored) refl,
      refl,
      refl,
      record { line = refl; count = refl; ctrl = t.ctrl; back = t.back },
    )

-- Enter on a line that is not full, with a whole history: the handler does not fault, hands the line
-- with a line feed at its end to `terminal_read`, and begins an empty line.
pub handle_key-enter :
    (e : Editor) (s : List ℕ)
    → IsTyping e s
    → length s < 128
    → e.t.buffer_size ≤ 20
    → (e' : Editor) × (handle_key 0x1C e ≡ some e')
      × (e'.t.share_buf ≡ in_buffer (s ++ 0x0A ∷ []))
      × (e'.t.typing_finish ≡ 1)
      × IsTyping e' []
unfolding handle_key
handle_key-enter e s t room size =
    enter_lem (act nosound e) s
      (record { line = t.line; count = t.count; ctrl = t.ctrl; back = t.back }) room size

-- Enter on a line of 128 characters, with a whole history, writes behind the end of the buffer: the
-- handler faults.
pub handle_key-full :
    (e : Editor)
    → length e.t.typed_buf ≡ 128
    → e.t.curr_char_idx ≡ 128
    → e.t.buffer_size ≤ 20
    → handle_key 0x1C e ≡ none
unfolding handle_key enter
handle_key-full e full end size =
    let (t', r, same, place) = remember_lem e.t size in
    let beyond : ltb t'.curr_char_idx (length t'.typed_buf) ≡ false =
      le→ltb_false _ _ (omega (arith, full, end, place, ap length same)) in
    rw (r, beyond) refl
