-- ===== src/Scheduler/Tests.antt =====
-- Three shells that take turns.
use illinix_os.Base.{
  ℕ, ◌≡◌, refl, false, ◌&&◌, some, [], ◌∷◌, arith, ◌==◌, if◌then◌else◌, get_or, set,
}
use illinix_os.Process.{first_unused, last_process}
use illinix_os.Process.Execute.Tests.{idle, at, image, frame, pcb, terminal}
use illinix_os.Process.Execute.Stack.Tests.{three_shells, three_shells-IsOrderly}
use illinix_os.Scheduler.{
  Machine, Switch, switches, eoi, on_kernel, saved, loaded, copy_page, pit_interrupt_handler,
}
use illinix_os.Scheduler.Turns.{IsSteady, pit_interrupt_handler-IsSteady}
use illinix_os.Scheduler.Rounds.{IsUp, IsBetween, running, next_of, pit_interrupt_handler-round}

-- The first shell runs on its stack at 0x7FFF00.
abbrev pub machine : Machine Unit
machine = record {
  kernel = three_shells;
  pic = record { master_mask = 0xF8; slave_mask = 0xFF; trace = [] };
  mem = λ b. 0;
  screen_x = 0;
  screen_y = 0;
  order = 0 ∷ 1 ∷ 2 ∷ [];
  flag = 1;
  init_flag = 1;
  flag_first_execute = 0;
}

-- The machine behind a tick: shell `r` is on page `r`.
abbrev after : ℕ → Machine Unit → Machine Unit
after r m =
    let k = m.kernel in
    let pcbs = set k.pcbs r (saved k (get_or k.pcbs r pcb)) in
    let mem =
      if r == k.curr_terminal_idx && terminal.vid_on == 1
      then copy_page terminal.video_mem m.mem
      else m.mem in
    eoi (
      on_kernel (λ q. loaded q (get_or pcbs (next_of r) pcb))
        (record m {
          mem = mem;
          init_flag = 0;
          kernel = record k {
            interrupts = false;
            pcbs = pcbs;
            curr_running_terminal_idx = next_of r;
          };
        }))

abbrev one : Machine Unit
one = after 0 machine

abbrev two : Machine Unit
two = after 1 one

abbrev three : Machine Unit
three = after 2 two

first_tick : pit_interrupt_handler at image frame idle machine ≡ some (switches 0 0, one)
unfolding pit_interrupt_handler last_process
first_tick = refl

second_tick : pit_interrupt_handler at image frame idle one ≡ some (switches 0 0, two)
unfolding pit_interrupt_handler last_process
second_tick = refl

third_tick :
    pit_interrupt_handler at image frame idle two ≡ some (switches 0x7FFF00 0x7FFF80, three)
unfolding pit_interrupt_handler last_process
third_tick = refl

machine-IsSteady : IsSteady machine
machine-IsSteady = (three_shells-IsOrderly, omega arith)

one-IsSteady : IsSteady one
one-IsSteady =
    pit_interrupt_handler-IsSteady at image frame idle machine one (switches 0 0) machine-IsSteady
      first_tick

pit_interrupt_handler-IsSteady_example : IsSteady two
pit_interrupt_handler-IsSteady_example =
    pit_interrupt_handler-IsSteady at image frame idle one two (switches 0 0) one-IsSteady
      second_tick

still : (m : Machine Unit) → IsSteady m → IsUp m → IsBetween 0 0 m m
still m steady up = record { steady = steady; up = up; same = refl; top = refl; kept = refl }

pit_interrupt_handler-round_example :
    ◌≡◌ {A = Switch} (switches 0x7FFF00 0x7FFF80) (switches 0x7FFF00 0x7FFF80)
    × (three.kernel.paging.cr3 ≡ 0x420001)
    × (three.kernel.cpu.tss_esp0 ≡ 0x800000)
    × (running three ≡ 0)
unfolding first_unused last_process
pit_interrupt_handler-round_example =
    pit_interrupt_handler-round at image frame idle machine one one two two three (switches 0 0)
      (switches 0 0) (switches 0x7FFF00 0x7FFF80) 0 machine-IsSteady ((λ e. omega arith), refl) refl
      first_tick (still one one-IsSteady ((λ e. omega arith), refl)) second_tick
      (still two pit_interrupt_handler-IsSteady_example ((λ e. omega arith), refl)) third_tick
