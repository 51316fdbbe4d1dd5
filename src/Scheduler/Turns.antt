-- ===== src/Scheduler/Turns.antt =====
-- pit.c: a tick of the timer keeps the processes and their pages in order.
use mathlib.Core.Option.{some-injective}
use illinix_os.Base.{
  ℕ, ◌+◌, ◌%◌, ◌<◌, ◌≡◌, refl, ◌∙◌, ap, subst, false, ◌&&◌, Option, some, ◌==◌, ltb, ltb→lt, arith,
  if◌then◌else◌, ◌>>=◌, bind_elim, if_elim, get_elem?, set, drop, set-same,
}
use illinix_os.FileSystem.{Image}
use illinix_os.Page.{Layout}
use illinix_os.Console.{clear}
use illinix_os.Terminal.{Terminal}
use illinix_os.Process.{Pcb, Kernel, Drivers, last_process}
use illinix_os.Process.Execute.{Frame, Outcome, returns, enters, resumes, restarts_shell, execute}
use illinix_os.Process.Execute.Command.{shell}
use illinix_os.Process.Execute.Stack.{lists_of}
use illinix_os.Process.Execute.Stack.Counts.{get_elem?-map, map-set}
use illinix_os.Process.Execute.Stack.Steps.{IsOrderlyKernel, execute-stacks}
use illinix_os.Process.Execute.Stack.Sharing.{IsAlike-IsOrderly}
use illinix_os.Scheduler.{
  Machine, Switch, starts, switches, stays, eoi, on_kernel, clear_screen, saved, save, loaded, load,
  run_shell, start_next, switch_next, turn, first_program, copy_page, pit_interrupt_handler,
}

-- One of the three terminals runs, on an orderly kernel.
abbrev pub IsSteady : {W : Type 0} → Machine W → Type 0
IsSteady m = IsOrderlyKernel m.kernel × (m.kernel.curr_running_terminal_idx < 3)

module _ {W : Type 0} where
  finish :
      (o o' : Switch) (m m' : Machine W)
      → IsSteady m
      → ◌≡◌ {A = Option (Switch × Machine W)} (some (o, m)) (some (o', m'))
      → IsSteady m'
  finish o o' m m' steady e =
      let same : ◌≡◌ {A = Switch × Machine W} (o, m) (o', m') = some-injective _ _ e in
      subst IsSteady (ap (λ r. r.1) same) steady

  load-IsSteady :
      (p : ℕ) (m m' : Machine W) (o : Switch) → IsSteady m → load p m ≡ some (o, m') → IsSteady m'
  load-IsSteady p m m' o steady done =
      bind_elim (get_elem? m.kernel.pcbs p)
        (λ pcb. some (switches pcb.curr_esp pcb.curr_ebp, eoi (on_kernel (λ k. loaded k pcb) m)))
        done λ pcb there e. finish _ o (eoi (on_kernel (λ k. loaded k pcb) m)) m' steady e

  pub save_elim :
      {P : Type 0} (p : ℕ) (k : Kernel W) {A : Type 0} (f : Kernel W → Option A) {a : A}
      → (save p k >>= f) ≡ some a
      → ((pcb : Pcb)
          → get_elem? k.pcbs p ≡ some pcb
          → f (record k { pcbs = set k.pcbs p (saved k pcb) }) ≡ some a
          → P)
      → P
  save_elim p k f done rest = bind_elim (save p k) f done λ k1 e1 d1.
      bind_elim (get_elem? k.pcbs p) (λ pcb. some (record k { pcbs = set k.pcbs p (saved k pcb) }))
        e1 λ pcb there e2. rest pcb there (ap f (some-injective _ _ e2) ∙ d1)

  -- `execute` of the shell is over.
  after_shell :
      (rest : Machine W → Option (Switch × Machine W)) (m m' : Machine W) (x : Outcome) (o : Switch)
      → ((q : Machine W) → IsSteady q → rest q ≡ some (o, m') → IsSteady m')
      → IsSteady m
      → ◌≡◌ {A = Option (Switch × Machine W)}
          (elim x [ enters a ↦ some (starts a, m) | _ ↦ rest m ])
          (some (o, m'))
      → IsSteady m'
  after_shell rest m m' (enters a) o keep steady e = finish (starts a) o m m' steady e
  after_shell rest m m' (returns v) o keep steady e = keep m steady e
  after_shell rest m m' (resumes a b c) o keep steady e = keep m steady e
  after_shell rest m m' (restarts_shell a) o keep steady e = keep m steady e

  clear_screen-IsSteady : (m m' : Machine W) → IsSteady m → clear_screen m ≡ some m' → IsSteady m'
  unfolding clear_screen
  clear_screen-IsSteady m m' steady done =
      let k = m.kernel in
      let after : Terminal → Machine W = λ t.
        let pen = clear t.video_mem (record {
          screen_x = m.screen_x;
          screen_y = m.screen_y;
          x = t.screen_x;
          y = t.screen_y;
          mem = m.mem;
        }) in
        record m {
          mem = pen.mem;
          screen_x = pen.screen_x;
          screen_y = pen.screen_y;
          kernel = record k {
            terminals =
                set k.terminals k.curr_terminal_idx
                  (record t { screen_x = pen.x; screen_y = pen.y });
          };
        } in
      bind_elim (get_elem? k.terminals k.curr_terminal_idx) (λ t. some (after t)) done
        λ t there e. subst IsSteady (some-injective _ _ e) (
          IsAlike-IsOrderly k (after t).kernel
              (record {
                pages = refl;
                lists =
                    map-set (λ u. u.phys_mem_idx) k.terminals k.curr_terminal_idx _
                    ∙ set-same (lists_of k.terminals) k.curr_terminal_idx
                        (get_elem?-map (λ u. u.phys_mem_idx) k.terminals k.curr_terminal_idx there);
              })
              steady.0,
          steady.1,
        )

module _ {W : Type 0} (at : Layout) (img : Image) (frame : Frame) (drivers : Drivers W) where
  run_shell-IsSteady :
      (rest : Machine W → Option (Switch × Machine W)) (m m' : Machine W) (o : Switch)
      → ((q : Machine W) → IsSteady q → rest q ≡ some (o, m') → IsSteady m')
      → IsSteady m
      → run_shell at img frame drivers rest m ≡ some (o, m')
      → IsSteady m'
  run_shell-IsSteady rest m m' o keep steady done =
      bind_elim (execute at img frame drivers (some shell) m.kernel)
        (λ r.
          let m' = record m { kernel = r.1 } in
          elim (r.0) [ enters a ↦ some (starts a, m') | _ ↦ rest m' ])
        done
        λ r ran e.
          let (change, orderly, running) =
            execute-stacks at img frame drivers (some shell) m.kernel (r.1) (r.0) steady.0 ran in
          after_shell rest (record m { kernel = r.1 }) m' (r.0) o keep
            (orderly, omega (arith, running, steady.1)) e

  start_next-IsSteady :
      (t : Terminal) (m m' : Machine W) (o : Switch)
      → IsSteady m
      → start_next at img frame drivers t m ≡ some (o, m')
      → IsSteady m'
  unfolding start_next
  start_next-IsSteady t m m' o steady done =
      let r = m.kernel.curr_running_terminal_idx in
      let m1 = record m {
        flag = if r == 2 then 1 else m.flag;
        init_flag = if r == 2 then 1 else m.init_flag;
      } in
      let next : Kernel W → ℕ → Machine W =
        λ k i. record m1 { kernel = record k { curr_running_terminal_idx = i } } in
      let go : Kernel W → Option (Switch × Machine W) = λ k.
        if ltb (r + 1) 3
        then run_shell at img frame drivers (λ m2. some (stays, m2)) (eoi (next k (r + 1)))
        else load 0 (next k 0) in
      bind_elim (get_elem? t.phys_mem_idx 0) (λ p. save p m1.kernel >>= go) done
        λ p e1 d1. save_elim p m1.kernel go d1 λ pcb there d2.
          let k1 = record (m1.kernel) { pcbs = set m1.kernel.pcbs p (saved m1.kernel pcb) } in
          if_elim (ltb (r + 1) 3) d2
            (λ b e.
              run_shell-IsSteady (λ m2. some (stays, m2)) (eoi (next k1 (r + 1))) m' o
                (λ q steady' e'. finish stays o q m' steady' e') (steady.0, ltb→lt (r + 1) 3 b) e)
            (λ b e. load-IsSteady 0 (next k1 0) m' o (steady.0, omega arith) e)

  switch_next-IsSteady :
      (t : Terminal) (m m' : Machine W) (o : Switch)
      → IsSteady m
      → switch_next at img frame drivers t m ≡ some (o, m')
      → IsSteady m'
  unfolding switch_next
  switch_next-IsSteady t m m' o steady done =
      let k = m.kernel in
      let r = k.curr_running_terminal_idx in
      let mem =
        if r == k.curr_terminal_idx && t.vid_on == 1 then copy_page t.video_mem m.mem else m.mem in
      let next = (r + 1) % 3 in
      let turned : Kernel W → Machine W =
        λ k1. record m { mem = mem; kernel = record k1 { curr_running_terminal_idx = next } } in
      let go : Kernel W → Option (Switch × Machine W) = λ k1. get_elem? k1.terminals next >>= λ u.
      last_process u.phys_mem_idx >>= λ q. load q (turned k1) in
      bind_elim (last_process t.phys_mem_idx) (λ p. save p k >>= go) done
        λ p e1 d1. save_elim p k go d1 λ pcb there d2.
          let k1 = record k { pcbs = set k.pcbs p (saved k pcb) } in
          bind_elim (get_elem? k1.terminals next)
            (λ u. last_process u.phys_mem_idx >>= λ q. load q (turned k1)) d2
            λ u e3 d3.
              bind_elim (last_process u.phys_mem_idx) (λ q. load q (turned k1)) d3
                λ q e4 d4. load-IsSteady q (turned k1) m' o (steady.0, omega arith) d4

  turn-IsSteady :
      (m m' : Machine W) (o : Switch)
      → IsSteady m
      → turn at img frame drivers m ≡ some (o, m')
      → IsSteady m'
  unfolding turn
  turn-IsSteady m m' o steady done =
      let k = m.kernel in
      let go : Terminal → Option (Switch × Machine W) = λ t.
        if first_program 1 (drop 1 t.phys_mem_idx) == 6 && m.flag == 0
        then start_next at img frame drivers t m
        else switch_next at img frame drivers t m in
      bind_elim (get_elem? k.terminals k.curr_running_terminal_idx) go done λ t there d1.
        if_elim (first_program 1 (drop 1 t.phys_mem_idx) == 6 && m.flag == 0) d1
          (λ b e. start_next-IsSteady t m m' o steady e)
          (λ b e. switch_next-IsSteady t m m' o steady e)

  -- A tick of the timer keeps the system in order, whatever it does: the start of a shell, a switch to
  -- the next terminal, or the way back to the process that was interrupted. If the kernel was orderly
  -- and one of the three terminals ran, the same holds afterwards.
  pub pit_interrupt_handler-IsSteady :
      (m m' : Machine W) (o : Switch)
      → IsSteady m
      → pit_interrupt_handler at img frame drivers m ≡ some (o, m')
      → IsSteady m'
  unfolding pit_interrupt_handler
  pit_interrupt_handler-IsSteady m m' o steady done =
      let m1 = record m { kernel = record (m.kernel) { interrupts = false }; init_flag = 0 } in
      if_elim (m.flag_first_execute == 0) done (λ b e. turn-IsSteady m1 m' o steady e)
        λ b d1.
          bind_elim (clear_screen (record m1 { flag_first_execute = 0 }))
            (λ m2. run_shell at img frame drivers (turn at img frame drivers) (eoi m2)) d1
            λ m2 e1 d2.
              run_shell-IsSteady (turn at img frame drivers) (eoi m2) m' o
                (λ q steady' e. turn-IsSteady q m' o steady' e)
                (clear_screen-IsSteady (record m1 { flag_first_execute = 0 }) m2 steady e1) d2
