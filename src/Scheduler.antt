-- ===== src/Scheduler.antt =====
-- pit.c: the handler of the timer interrupt, which starts a shell on each terminal and then switches
-- from one terminal to the next at each tick.
pub mod Places
pub mod Turns
pub mod Rounds
pub mod Tests
use illinix_os.Base.{
  ℕ, zero, suc, ◌+◌, ◌-◌, ◌/◌, ◌%◌, Bool, true, false, ◌&&◌, Option, none, some, List, [], ◌∷◌,
  ◌==◌, leb, ltb, if◌then◌else◌, ◌>>=◌, get_elem?, set, drop, minus_one,
}
use illinix_os.Io.{Devices, cli, sti, outb}
use illinix_os.Pic.{Pic, emit, enable_irq, send_eoi}
use illinix_os.Console.{Pen, clear, video}
use illinix_os.Console.PhysMem.{Memory}
use illinix_os.FileSystem.{Image}
use illinix_os.Page.{Layout}
use illinix_os.Terminal.{Terminal}
use illinix_os.Process.{Pcb, Kernel, Drivers, last_process}
use illinix_os.Process.Execute.{Frame, Outcome, enters, execute}
use illinix_os.Process.Execute.Command.{shell}

-- The globals that the handler uses: those of the system calls, the interrupt controllers, the
-- physical memory and lib.c's own cursor, and its flags.
pub record Machine (W : Type 0) : Type 0 where
  pub kernel : Kernel W
  pub pic : Pic
  pub mem : Memory
  pub screen_x : ℕ
  pub screen_y : ℕ
  pub order : List ℕ
  pub flag : ℕ
  pub init_flag : ℕ
  pub flag_first_execute : ℕ

-- PIT_CONST/FREQ.
abbrev pub reload_val : ℕ
reload_val = 1193182 / 20

-- How the handler ends: it enters the shell, goes on with the stack of another process, or returns
-- to the process that was interrupted.
pub data Switch : Type 0 where
  starts : ℕ → Switch
  switches : ℕ → ℕ → Switch
  stays : Switch

-- `for(i = ONE; i<SIX; i++) if(phys_mem_idx[i]!=-1) break;`: the `i` at the end.
pub first_program : ℕ → List ℕ → ℕ
first_program i [] = i
first_program i (p ∷ ps) = if p == minus_one then first_program (i + 1) ps else i

-- The copy of a page to the screen.
abbrev pub copy_page : ℕ → Memory → Memory
copy_page page m b = if leb video b && ltb b (video + 4096) then m (page + (b - video)) else m b

module _ {W : Type 0} where
  -- `PIT_init`.
  unfoldable pub pit_init : Devices → Machine W → Machine W
  pit_init dev m =
      let unmasked = enable_irq dev 0 m.pic in
      record m {
        order = 0 ∷ 1 ∷ 2 ∷ [];
        kernel = record (m.kernel) { curr_running_terminal_idx = 0; interrupts = true };
        pic = record unmasked {
          trace =
              sti
              ∷ outb (reload_val / 256) 0x40
              ∷ outb (reload_val % 256) 0x40
              ∷ outb 0x34 0x43
              ∷ cli
              ∷ unmasked.trace;
        };
      }

  -- `send_eoi(0)`, which ends with `sti`.
  abbrev pub eoi : Machine W → Machine W
  eoi m = record m { kernel = record (m.kernel) { interrupts = true }; pic = send_eoi 0 m.pic }

  abbrev pub on_kernel : (Kernel W → Kernel W) → Machine W → Machine W
  on_kernel f m = record m { kernel = f m.kernel }

  -- `clear()`, on the displayed terminal.
  pub clear_screen : Machine W → Option (Machine W)
  clear_screen m =
      let k = m.kernel in
      get_elem? k.terminals k.curr_terminal_idx >>= λ t.
      let pen = clear t.video_mem (record {
        screen_x = m.screen_x;
        screen_y = m.screen_y;
        x = t.screen_x;
        y = t.screen_y;
        mem = m.mem;
      }) in
      some (record m {
        mem = pen.mem;
        screen_x = pen.screen_x;
        screen_y = pen.screen_y;
        kernel = record k {
          terminals =
              set k.terminals k.curr_terminal_idx (record t { screen_x = pen.x; screen_y = pen.y });
        };
      })

  -- The registers go into the block of process `p`.
  abbrev pub saved : Kernel W → Pcb → Pcb
  saved k pcb = record pcb {
    curr_esp = k.cpu.esp;
    curr_ebp = k.cpu.ebp;
    curr_pdbr = k.paging.cr3;
    curr_esp0 = k.cpu.tss_esp0;
  }

  abbrev pub save : ℕ → Kernel W → Option (Kernel W)
  save p k = get_elem? k.pcbs p >>= λ pcb. some (record k { pcbs = set k.pcbs p (saved k pcb) })

  -- The registers that process `p` had come back; with them, where the handler goes on.
  abbrev pub loaded : Kernel W → Pcb → Kernel W
  loaded k pcb = record k {
    cpu = record (k.cpu) { esp = pcb.curr_esp; ebp = pcb.curr_ebp; tss_esp0 = pcb.curr_esp0 };
    paging = record (k.paging) { cr3 = pcb.curr_pdbr };
  }

  abbrev pub load : ℕ → Machine W → Option (Switch × Machine W)
  load p m = get_elem? m.kernel.pcbs p >>= λ pcb.
      some (switches pcb.curr_esp pcb.curr_ebp, eoi (on_kernel (λ k. loaded k pcb) m))

  -- `execute("shell")`: if it returns, the handler goes on with `rest`.
  abbrev pub run_shell :
      Layout
      → Image
      → Frame
      → Drivers W
      → (Machine W → Option (Switch × Machine W))
      → Machine W
      → Option (Switch × Machine W)
  run_shell at img frame drivers rest m =
      execute at img frame drivers (some shell) m.kernel >>= λ r.
      let m' = record m { kernel = r.1 } in
      elim (r.0) [ enters a ↦ some (starts a, m') | _ ↦ rest m' ]

  module _ (at : Layout) (img : Image) (frame : Frame) (drivers : Drivers W) where
    -- The next terminal gets its shell, or, behind the third, the first shell goes on.
    pub start_next : Terminal → Machine W → Option (Switch × Machine W)
    start_next t m =
        let r = m.kernel.curr_running_terminal_idx in
        let m1 = record m {
          flag = if r == 2 then 1 else m.flag;
          init_flag = if r == 2 then 1 else m.init_flag;
        } in
        get_elem? t.phys_mem_idx 0 >>= λ p. save p m1.kernel >>= λ k.
        if ltb (r + 1) 3
        then run_shell at img frame drivers (λ m2. some (stays, m2))
            (eoi (record m1 { kernel = record k { curr_running_terminal_idx = r + 1 } }))
        else load 0 (record m1 { kernel = record k { curr_running_terminal_idx = 0 } })

    -- The process that runs gives way to the process that runs on the next terminal.
    pub switch_next : Terminal → Machine W → Option (Switch × Machine W)
    switch_next t m =
        let k = m.kernel in
        let r = k.curr_running_terminal_idx in
        let mem =
          if r == k.curr_terminal_idx && t.vid_on == 1
          then copy_page t.video_mem m.mem
          else m.mem in
        last_process t.phys_mem_idx >>= λ p. save p k >>= λ k1.
        let next = (r + 1) % 3 in
        get_elem? k1.terminals next >>= λ u. last_process u.phys_mem_idx >>= λ q.
        load q (record m { mem = mem; kernel = record k1 { curr_running_terminal_idx = next } })

    -- The handler from the search for a program on.
    pub turn : Machine W → Option (Switch × Machine W)
    unfolding start_next switch_next first_program
    turn m =
        let k = m.kernel in
        get_elem? k.terminals k.curr_running_terminal_idx >>= λ t.
        if first_program 1 (drop 1 t.phys_mem_idx) == 6 && m.flag == 0
        then start_next t m
        else switch_next t m

    -- `PIT_interrupt_handler`.
    unfoldable pub pit_interrupt_handler : Machine W → Option (Switch × Machine W)
    unfolding turn clear_screen
    pit_interrupt_handler m =
        let m1 = record m { kernel = record (m.kernel) { interrupts = false }; init_flag = 0 } in
        if m.flag_first_execute == 0
        then turn m1
        else (clear_screen (record m1 { flag_first_execute = 0 }) >>= λ m2.
            run_shell at img frame drivers turn (eoi m2))
