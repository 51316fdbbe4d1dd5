-- ===== src/Process/Execute/Branches.antt =====
-- system_call_handler.c: the ways that `execute` can go.
use mathlib.Core.Option.{some-injective}
use illinix_os.Base.{
  ℕ, ◌≡◌, ◌∙◌, ap, Bool, Option, none, some, List, [], ◌∷◌, ◌++◌, if◌then◌else◌, ◌==◌, not,
  bind_elim, if_elim, minus_one, sym,
}
use illinix_os.FileSystem.{Image, Dentry, read_dentry_by_name, read_data}
use illinix_os.Page.{Layout}
use illinix_os.Process.{Kernel, Drivers, cli}
use illinix_os.Process.Execute.{
  Frame, Outcome, returns, launch, execute_file, take_page, execute, on_terminal,
}
use illinix_os.Libc.{strlen}
use illinix_os.Process.Execute.Command.{Parsed, parse_command, elf_magic, is_executable, is_hello}

module _ {W : Type 0} where
  -- The state of `execute` behind the greeting.
  abbrev pub begun : W → Kernel W → Kernel W
  begun w k = record (cli k) { exception_flag = 0; world = w }

  abbrev pub greet : Bool → Kernel W → Kernel W → Option (Kernel W)
  greet greets k k1 =
      if greets
      then on_terminal k.curr_terminal_idx (λ t. record t { hello_flag = 1 }) k1
      else some k1

  -- `execute` has refused at once, or it has refused the file, or it has come to the search for a page.
  pub data Ran (at : Layout) (img : Image) (frame : Frame) (k : Kernel W) (o : Outcome)
      (k' : Kernel W) : Type 0 where
    no_command : o ≡ returns minus_one → k' ≡ cli k → Ran at img frame k o k'
    refused :
        (greets : Bool) (w : W)
        → greet greets k (begun w k) ≡ some k'
        → o ≡ returns minus_one
        → Ran at img frame k o k'
    started :
        (greets : Bool) (w : W) (k2 : Kernel W) (d : Dentry) (argument : Option (List ℕ))
        → greet greets k (begun w k) ≡ some k2
        → launch at img frame (take_page 0 k2.phys_addr_available) d argument k2 ≡ some (o, k')
        → Ran at img frame k o k'

module _ {W : Type 0} (at : Layout) (img : Image) (frame : Frame) where
  execute_file-Ran :
      (p : Parsed) (k k2 k' : Kernel W) (o : Outcome) (greets : Bool) (w : W)
      → greet greets k (begun w k) ≡ some k2
      → execute_file at img frame p k2 ≡ some (o, k')
      → Ran at img frame k o k'
  unfolding execute_file
  execute_file-Ran p k k2 k' o greets w greeted done =
      let refuse : ◌≡◌ {A = Option (Outcome × Kernel W)} (some (returns minus_one, k2))
            (some (o, k'))
          → Ran at img frame k o k' =
        λ e.
          let same : ◌≡◌ {A = Outcome × Kernel W} (returns minus_one, k2) (o, k') =
            some-injective _ _ e in
          refused greets w (greeted ∙ ap (λ r. some (r.1)) same) (ap (λ r. r.0) (sym same)) in
      bind_elim (read_dentry_by_name img (some (p.filename ++ 0 ∷ [])) frame.curr_dentry) _ done
        λ r found rest.
          if_elim (r.0 == minus_one) rest (λ b e. refuse e)
            λ b more.
              bind_elim (read_data img (r.1).inode_idx 0 frame.buf_elf 4) _ more λ head read last.
                if_elim (not (is_executable head.1 elf_magic)) last (λ b e. refuse e)
                  (λ b e. started greets w k2 (r.1) p.argument greeted e)

  pub execute-Ran :
      (drivers : Drivers W) (command : Option (List ℕ)) (k k' : Kernel W) (o : Outcome)
      → execute at img frame drivers command k ≡ some (o, k')
      → Ran at img frame k o k'
  unfolding execute
  execute-Ran drivers none k k' o done =
      let same = some-injective _ _ done in
      no_command (ap (λ r. r.0) (sym same)) (ap (λ r. r.1) (sym same))
  execute-Ran drivers (some command) k k' o done =
      let w = drivers.enable_irq 0 k.world in
      bind_elim (strlen command) _ done λ len e1 d1.
        bind_elim (is_hello command len) _ d1 λ greets e2 d2.
          bind_elim (greet greets k (begun w k)) _ d2 λ k2 e3 d3.
            bind_elim (parse_command command) _ d3
              λ p e4 d4. execute_file-Ran p k k2 k' o greets w e3 d4
