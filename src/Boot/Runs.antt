-- ===== src/Boot/Runs.antt =====
-- From the start of the kernel on: the processes, their pages and the memory of a new one.
use mathlib.Core.Option.{some-injective, none-ne-some}
use illinix_os.Base.{
  Option, ℕ, zero, suc, ◌+◌, ◌≡◌, refl, subst, some, List, [], ◌∷◌, arith, get_elem?, length, map,
  replicate,
}
use illinix_os.Io.{Devices}
use illinix_os.FileSystem.{Image}
use illinix_os.Page.{Layout}
use illinix_os.Terminal.{Terminal}
use illinix_os.Process.{Kernel, Drivers}
use illinix_os.Process.Execute.Slots.{unused}
use illinix_os.Process.Execute.Stack.{stack_of, processes, uses, count, total, free_bit, free_at}
use illinix_os.Process.Execute.Stack.Tied.{one_of_six}
use illinix_os.Process.Execute.Stack.Orderly.{IsPlaces}
use illinix_os.Process.Execute.Stack.Sharing.{Step-IsOrderly}
use illinix_os.Process.Execute.Stack.Memory.{IsIsolated, execute-IsIsolated}
use illinix_os.Process.Execute.{Frame, enters, execute}
use illinix_os.Page.Translate.{IsAligned}
use illinix_os.Scheduler.{Machine, pit_init}
use illinix_os.Scheduler.Turns.{IsSteady, pit_interrupt_handler-IsSteady}
use illinix_os.Boot.{init_terminals, terminal_init, Run, booted, tick, step}

-- No terminal has a process.
idle_stacks :
    (i : ℕ) (ts : List Terminal) (p : ℕ)
    → (uses p (map stack_of (init_terminals i ts)) ≡ 0)
      × (total length (map stack_of (init_terminals i ts)) ≡ 0)
unfolding init_terminals processes total count
idle_stacks i [] p = (refl, refl)
idle_stacks i (t ∷ ts) p =
    let (a, b) = idle_stacks (i + 1) ts p in (omega (arith, a), omega (arith, b))

idle-IsPlaces :
    (i j : ℕ) (ts : List Terminal) (t : Terminal)
    → get_elem? (init_terminals i ts) j ≡ some t
    → IsPlaces t.phys_mem_idx
unfolding init_terminals
idle-IsPlaces i j [] t h = absurd (none-ne-some _ h)
idle-IsPlaces i zero (u ∷ ts) t h =
    subst (λ v. IsPlaces v.phys_mem_idx) (some-injective _ _ h) (λ j q low e. unused 6 j q e, refl)
idle-IsPlaces i (suc j) (u ∷ ts) t h = idle-IsPlaces (i + 1) j ts t h

free_pages : (p : ℕ) → free_at (replicate 6 1) p ≡ one_of_six p
free_pages zero = refl
free_pages (suc zero) = refl
free_pages (suc (suc zero)) = refl
free_pages (suc (suc (suc zero))) = refl
free_pages (suc (suc (suc (suc zero)))) = refl
free_pages (suc (suc (suc (suc (suc zero))))) = refl
free_pages (suc (suc (suc (suc (suc (suc p)))))) = ground arith

six_free : total free_bit (replicate 6 1) ≡ 6
unfolding total
six_free = refl

module _ {W : Type 0} (dev : Devices) where
  start-IsSteady : (m : Machine W) → IsSteady (pit_init dev (terminal_init m))
  unfolding pit_init terminal_init
  start-IsSteady m = (
    record {
      tied = record {
        six = refl;
        once = λ p. omega (arith, (idle_stacks 0 m.kernel.terminals p).0, free_pages p);
        balance = omega (arith, (idle_stacks 0 m.kernel.terminals 0).1, six_free);
      };
      places = λ j t h. idle-IsPlaces 0 j m.kernel.terminals t h;
    },
    omega arith,
  )

module _ {W : Type 0} (dev : Devices) (at : Layout) (img : Image) (drivers : Drivers W) where
  -- The invariant of the system. Whatever stood in the globals before, in every state that the kernel
  -- comes to after `terminal_init` and `PIT_init`, by ticks of the timer, system calls and other code
  -- that leaves the pages and the lists of processes alone, in any order, each of the six pages is free
  -- or belongs to one process, on each terminal the places in use come first, and one of the three
  -- terminals runs.
  pub Run-IsSteady : (m n : Machine W) → Run dev at img drivers m n → IsSteady n
  Run-IsSteady m n booted = start-IsSteady dev m
  Run-IsSteady m n (tick {n = before} frame o run done) =
      pit_interrupt_handler-IsSteady at img frame drivers before n o (Run-IsSteady m before run)
        done
  Run-IsSteady m _ (step {n = before} k run moved same) =
      let (orderly, low) = Run-IsSteady m before run in
      (Step-IsOrderly at img drivers moved orderly, omega (arith, same, low))

  -- Memory is not shared. In every state that the kernel comes to after its start, when `execute`
  -- enters a program, a new process is on top of the stack of the terminal that runs; its page directory
  -- is loaded, and maps the 4 MB from 128 MB on, for user code, to the page `p` of memory at
  -- 8 MB + 4 MB * p, and the kernel's memory for the kernel only; and no process on any stack has that
  -- page: the memory, the block and the page directory of each of them stay as they were.
  pub Run-IsIsolated :
      (m n : Machine W) (frame : Frame) (command : Option (List ℕ)) (k' : Kernel W) (addr_asm : ℕ)
      → IsAligned at
      → Run dev at img drivers m n
      → execute at img frame drivers command n.kernel ≡ some (enters addr_asm, k')
      → (p : ℕ) × IsIsolated at n.kernel k' p
  Run-IsIsolated m n frame command k' addr_asm aligned run done =
      execute-IsIsolated at img frame aligned drivers command n.kernel k' addr_asm
        (Run-IsSteady m n run).0 done
