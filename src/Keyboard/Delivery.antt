-- ===== src/Keyboard/Delivery.antt =====
-- keyboard.c and terminal.c: from the keyboard to `terminal_read`.
use illinix_os.Base.{
  false, negative, ℕ, zero, suc, ◌+◌, ◌-◌, ◌≤◌, ◌<◌, ◌≡◌, refl, ◌∙◌, ap, ap₂, sym, subst, some,
  List, [], ◌∷◌, ◌++◌, arith, le→ltb_false, get_elem?, length, replicate, take, drop, length-append,
  length-replicate,
}
use illinix_os.Libc.{store, strlen}
use illinix_os.Libc.Lengths.{HasNoNul, strlen-append}
use illinix_os.Libc.Copies.{store_here, assoc}
use illinix_os.Terminal.{Terminal}
use illinix_os.Terminal.Driver.{copy_line, terminal_read}
use illinix_os.Keyboard.{Editor, handle_key, clear_buffer}
use illinix_os.Keyboard.Lines.{IsTyping, in_buffer, type_keys, type_keys_lem, characters, ArePlain}
use illinix_os.Keyboard.Reading.{handle_key-enter}

get_here : (d r : List ℕ) (x : ℕ) → get_elem? (d ++ x ∷ r) (length d) ≡ some x
get_here [] r x = refl
get_here (y ∷ d) r x = get_here d r x

longer : (d r : List ℕ) (x : ℕ) → d ++ x ∷ r ≡ (d ++ x ∷ []) ++ r
longer d r x = sym (assoc d (x ∷ []) r)

-- The loop, with the bytes `d` of the line behind it and `o` of the buffer written.
copy_line-from :
    (d sh o b : List ℕ) (n : ℕ)
    → length o ≡ length d
    → n ≤ length sh
    → n ≤ length b
    → copy_line (d ++ sh) n (length d) (o ++ b) ≡ some (o ++ (take n sh ++ drop n b))
unfolding copy_line
copy_line-from d sh o b zero same room fits = refl
copy_line-from d [] o b (suc n) same room fits = absurd (omega arith)
copy_line-from d (x ∷ sh) o [] (suc n) same room fits = absurd (omega arith)
copy_line-from d (x ∷ sh) o (y ∷ b) (suc n) same room fits =
    let stored : store (o ++ y ∷ b) (length d) x ≡ some (o ++ x ∷ b) =
      ap (λ i. store (o ++ y ∷ b) i x) (sym same) ∙ store_here o b y x in
    let next =
      copy_line-from (d ++ x ∷ []) sh (o ++ x ∷ []) b n
        (omega (arith, same, length-append d (x ∷ []), length-append o (x ∷ []))) (omega arith)
        (omega arith) in
    let place : length d + 1 ≡ length (d ++ x ∷ []) = omega (arith, length-append d (x ∷ [])) in
    rw (get_here d sh x, stored)
      (ap (λ i. copy_line (d ++ x ∷ sh) n i (o ++ x ∷ b)) place
        ∙ ap₂ (λ s m. copy_line s n (length (d ++ x ∷ [])) m) (longer d sh x) (longer o b x)
        ∙ next
        ∙ ap some (assoc o (x ∷ []) (take n sh ++ drop n b)))

take-append : (l r : List ℕ) (m : ℕ) → take (length l + m) (l ++ r) ≡ l ++ take m r
take-append [] r m = ap (λ k. take k r) (omega arith)
take-append (x ∷ l) r m =
    let e : suc (length l) + m ≡ suc (length l + m) = omega arith in
    ap (λ k. take k (x ∷ (l ++ r))) e ∙ ap (λ ys. x ∷ ys) (take-append l r m)

-- The front of a buffer that holds a line, with the line's NUL.
front :
    (line : List ℕ) (n : ℕ)
    → length line < n
    → n ≤ 128
    → take n (in_buffer line)
      ≡ line ++ 0 ∷ take (n - length line - 1) (replicate (127 - length line) 0)
front line n less small =
    let size : n ≡ length line + suc (n - length line - 1) = omega arith in
    let zeros : 128 - length line ≡ suc (127 - length line) = omega arith in
    ap (λ k. take k (in_buffer line)) size
    ∙ take-append line (replicate (128 - length line) 0) (suc (n - length line - 1))
    ∙ ap (λ k. line ++ take (suc (n - length line - 1)) (replicate k 0)) zeros

-- The buffer that `terminal_read` fills from a line.
abbrev pub filled : List ℕ → ℕ → List ℕ → List ℕ
filled line n buf = take n (in_buffer line) ++ drop n buf

-- `terminal_read` of a line without NUL, with more room than the line needs: it returns the length
-- of the line, fills the first bytes of the buffer with it and NULs, and clears the line.
terminal_read-line :
    (buf line : List ℕ) (n : ℕ) (t : Terminal)
    → t.share_buf ≡ in_buffer line
    → HasNoNul line
    → length line < n
    → n ≤ 128
    → n ≤ length buf
    → terminal_read buf n t
      ≡ some (
        length line,
        filled line n buf,
        record (clear_buffer t) { typing_finish = 0; curr_char_idx = 0 },
      )
unfolding terminal_read
terminal_read-line buf line n t shared text less small fits =
    let size : n ≤ length (in_buffer line) = omega (
      arith,
      length-append line (replicate (128 - length line) 0),
      length-replicate {A = ℕ} (128 - length line) 0,
    ) in
    let copied = copy_line-from [] (in_buffer line) [] buf n refl size fits in
    let nonneg : negative n ≡ false = ground arith in
    let measured : strlen (filled line n buf) ≡ some (length line) =
      ap (λ f. strlen (f ++ drop n buf)) (front line n less small)
      ∙ ap strlen (
          assoc line (0 ∷ take (n - length line - 1) (replicate (127 - length line) 0))
            (drop n buf))
      ∙ strlen-append line _ text in
    rw (shared, nonneg, le→ltb_false 128 n small, copied, measured) refl

HasNoNul-append : (s r : List ℕ) → HasNoNul s → HasNoNul r → HasNoNul (s ++ r)
HasNoNul-append [] r hs hr = hr
HasNoNul-append (c ∷ s) r hs hr = (hs.0, HasNoNul-append s r hs.1 hr)

-- The displayed terminal, with an empty line and a whole history: plain keys of which none types a
-- NUL, at most 126 of them, then Enter, and a `terminal_read` of `n` bytes, more than were typed. No
-- step faults; the read returns the number of characters and one for the line feed, and the buffer
-- starts with the characters that the flags choose for the keys, the line feed and NULs.
pub terminal_read-type_keys :
    (cs : List ℕ) (e : Editor) (buf : List ℕ) (n : ℕ)
    → ArePlain cs
    → IsTyping e []
    → e.t.buffer_size ≤ 20
    → HasNoNul (characters e.keys cs)
    → length (characters e.keys cs) + 1 < n
    → length cs ≤ 126
    → n ≤ 128
    → n ≤ length buf
    → (e' : Editor) × (e'' : Editor) × (t : Terminal) × (type_keys cs e ≡ some e')
      × (handle_key 0x1C e' ≡ some e'')
      × (terminal_read buf n e''.t
          ≡ some (
            length (characters e.keys cs) + 1,
            filled (characters e.keys cs ++ 0x0A ∷ []) n buf,
            t,
          ))
terminal_read-type_keys cs e buf n plain t size text less few small fits =
    let (e', run, typing, keys, rest) = type_keys_lem cs e [] plain t (omega arith) in
    let line = characters e.keys cs in
    let kept : e'.t.buffer_size ≤ 20 = subst (λ u. u.buffer_size ≤ 20) (sym rest) size in
    let (e'', entered, shared, finished, empty) =
      handle_key-enter e' line typing (omega arith) kept in
    let long : length (line ++ 0x0A ∷ []) ≡ length line + 1 = length-append line (0x0A ∷ []) in
    let read =
      terminal_read-line buf (line ++ 0x0A ∷ []) n e''.t shared
        (HasNoNul-append line (0x0A ∷ []) text (λ z. omega arith, tt)) (omega arith) small fits in
    (
      e',
      e'',
      record (clear_buffer e''.t) { typing_finish = 0; curr_char_idx = 0 },
      run,
      entered,
      read
          ∙ ap
              (λ k. some (
                k,
                filled (line ++ 0x0A ∷ []) n buf,
                record (clear_buffer e''.t) { typing_finish = 0; curr_char_idx = 0 },
              ))
              long,
    )
