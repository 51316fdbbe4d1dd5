-- ===== src/Process/Execute/Launched.antt =====
-- system_call_handler.c: the state of `execute` on entering a program.
use mathlib.Core.Option.{some-injective}
use illinix_os.Base.{ℕ, ◌≡◌, ap, sym, Option, some, List, ◌>>=◌, >>=-eq-some, get_elem?}
use illinix_os.FileSystem.{Image, Dentry}
use illinix_os.Page.{Layout}
use illinix_os.Terminal.{Terminal}
use illinix_os.Process.{Pcb, Kernel}
use illinix_os.Process.Execute.{Frame, Outcome, enters, new_arg, launch, load_program, launched}

module _ {W : Type 0} (at : Layout) (img : Image) (frame : Frame) where
  -- What `launch` has done if it has not failed.
  pub record IsLaunched (page : ℕ × List ℕ) (k k' : Kernel W) (o : Outcome) : Type 0 where
    pub t : Terminal
    pub old : Pcb
    pub arg : List ℕ
    pub loaded : List ℕ
    pub addr_asm : ℕ
    pub outcome : o ≡ enters addr_asm
    pub terminal : get_elem? k.terminals k.curr_running_terminal_idx ≡ some t
    pub block : get_elem? k.pcbs (page.0) ≡ some old
    pub result : k' ≡ launched at img frame page t old arg loaded k

  pub launch-IsLaunched :
      (page : ℕ × List ℕ) (d : Dentry) (argument : Option (List ℕ)) (k k' : Kernel W) (o : Outcome)
      → launch at img frame (some page) d argument k ≡ some (o, k')
      → IsLaunched page k k' o
  unfolding launch
  launch-IsLaunched page d argument k k' o done =
      let (t, before, e1) =
        >>=-eq-some (get_elem? k.terminals k.curr_running_terminal_idx)
          (λ t. get_elem? k.pcbs (page.0) >>= λ old. new_arg argument old.arg >>= λ arg.
            load_program at img frame (page.0) d k >>= λ loaded.
            some (enters loaded.1, launched at img frame page t old arg loaded.0 k))
          done in
      let (old, block, e2) =
        >>=-eq-some (get_elem? k.pcbs (page.0))
          (λ old. new_arg argument old.arg >>= λ arg.
            load_program at img frame (page.0) d k >>= λ loaded.
            some (enters loaded.1, launched at img frame page t old arg loaded.0 k))
          e1 in
      let (arg, copied, e3) =
        >>=-eq-some (new_arg argument old.arg)
          (λ arg. load_program at img frame (page.0) d k >>= λ loaded.
            some (enters loaded.1, launched at img frame page t old arg loaded.0 k))
          e2 in
      let (l, read, e4) =
        >>=-eq-some (load_program at img frame (page.0) d k)
          (λ loaded. some (enters loaded.1, launched at img frame page t old arg loaded.0 k)) e3 in
      record {
        t = t;
        old = old;
        arg = arg;
        loaded = l.0;
        addr_asm = l.1;
        outcome = ap (λ r. r.0) (some-injective _ _ (sym e4));
        terminal = before;
        block = block;
        result = ap (λ r. r.1) (some-injective _ _ (sym e4));
      }
