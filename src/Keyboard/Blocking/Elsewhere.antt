-- ===== src/Keyboard/Blocking/Elsewhere.antt =====
-- terminal.c: `terminal_read` of a program whose terminal is not displayed.
use illinix_os.Base.{
  ℕ, ◌<◌, ◌≡◌, refl, ◌≢◌, ◌∙◌, ap, sym, subst, Option, some, List, bind_elim, false, ltb, negative,
  lt→leb_false, if◌then◌else◌, get_elem?, set, replicate, get_elem?-set_self, get_elem?-set_ne,
  get_elem?-lt,
}
use mathlib.Core.Option.{some-injective}
use illinix_os.Libc.{strlen}
use illinix_os.Terminal.{Terminal}
use illinix_os.Terminal.Driver.{copy_line}
use illinix_os.Keyboard.{Keyboard}
use illinix_os.Keyboard.Blocking.{Event, wait_line, after_read, blocking_read}

-- A read on a terminal in the background takes that terminal's line, but erases the line that is being
-- typed on the displayed terminal: when it returns, what was typed there and not yet entered is gone.
pub blocking_read-elsewhere :
    (es : List Event) (running : ℕ) (k k1 k2 : Keyboard) (t s : Terminal) (buf : List ℕ) (n v : ℕ)
    (out : Option (List ℕ))
    → wait_line es running k ≡ some k1
    → running ≢ k1.curr_terminal_idx
    → get_elem? k1.terminals running ≡ some t
    → get_elem? k1.terminals k1.curr_terminal_idx ≡ some s
    → n < 2147483648
    → blocking_read es running (some buf) n k ≡ some (v, out, k2)
    → (get_elem? k2.terminals running ≡ some (record t { typing_finish = 0 }))
      × (get_elem? k2.terminals k1.curr_terminal_idx
          ≡ some (record s { typed_buf = replicate 128 0; curr_char_idx = 0 }))
unfolding blocking_read
blocking_read-elsewhere es running k k1 k2 t s buf n v out waited apart mine displayed small done =
    let d = k1.curr_terminal_idx in
    let nonneg : negative n ≡ false = lt→leb_false 2147483648 n small in
    let taken = record t { typing_finish = 0 } in
    let erased = record s { typed_buf = replicate 128 0; curr_char_idx = 0 } in
    let ts = set k1.terminals running taken in
    let shown : get_elem? ts d ≡ some s = get_elem?-set_ne k1.terminals taken apart ∙ displayed in
    let end : Keyboard = record k1 { terminals = set ts d erased } in
    let finished : after_read running t k1 ≡ some end = rw shown refl in
    bind_elim (copy_line t.share_buf (if ltb 128 n then 128 else n) 0 buf) _
      (rw (nonneg, waited, mine) at done)
      λ line copied d1. bind_elim (strlen line) _ (rw finished at d1) λ len measured d2.
        let same : end ≡ k2 = ap (λ r. r.2) (some-injective _ _ d2) in
        (
          subst (λ q. get_elem? q.terminals running ≡ some taken) same
              (get_elem?-set_ne ts erased (λ e. apart (sym e))
                ∙ get_elem?-set_self k1.terminals running taken
                    (get_elem?-lt k1.terminals running mine)),
          subst (λ q. get_elem? q.terminals d ≡ some erased) same
              (get_elem?-set_self ts d erased (get_elem?-lt ts d shown)),
        )
