-- ===== src/Process/Execute/Stack/Tests.antt =====
-- Three shells, a program that one of them starts, and the end of the program.
use illinix_os.Base.{
  ℕ, zero, suc, ◌+◌, ◌≡◌, ◌≢◌, subst, ==_ne, refl, false, some, List, [], ◌∷◌, arith, get_elem?,
  replicate, minus_one,
}
use mathlib.Core.Option.{some-injective, none-ne-some}
use illinix_os.FileSystem.{Image, read_data, read_dentry_by_name}
use illinix_os.Terminal.{Terminal}
use illinix_os.Page.{set_page}
use illinix_os.Libc.{strlen, strncmp}
use illinix_os.Process.{Kernel, Pcb, first_unused}
use illinix_os.Process.Execute.{
  enters, resumes, launched, execute, halt, end_process, execute_file, launch, load_program,
  push_process, take_page, new_pcb,
}
use illinix_os.Process.Execute.Command.{parse_command}
use illinix_os.Process.Execute.Tests.{idle, at, image, frame, pcb, terminal, shell_runs, program}
use illinix_os.Process.Execute.Slots.{IsPacked, unused}
use illinix_os.Process.Execute.Stack.{stacks, uses, total, count, processes, free_at}
use illinix_os.Process.Execute.Stack.Tied.{one_of_six}
use illinix_os.Process.Execute.Stack.Orderly.{IsPlaces}
use illinix_os.Process.Execute.Stack.Steps.{IsOrderlyKernel, AfterExecute, execute-stacks}
use illinix_os.Process.Execute.Stack.Ends.{AfterHalt, halt-stacks}

abbrev pub shell_of : ℕ → Terminal
shell_of p = record terminal { phys_mem_idx = p ∷ replicate 5 minus_one }

abbrev pub three_shells : Kernel Unit
three_shells = record shell_runs { terminals = shell_of 0 ∷ shell_of 1 ∷ shell_of 2 ∷ [] }

shell_of-IsPlaces : (p : ℕ) → p ≢ minus_one → IsPlaces (shell_of p).phys_mem_idx
unfolding first_unused
shell_of-IsPlaces p ne = (packed, refl)
  where
    packed : IsPacked (shell_of p).phys_mem_idx
    packed zero q low h = absurd (let e = ==_ne p minus_one ne in ground arith)
    packed (suc j) q low h = unused 5 j q h

pub three_shells-IsOrderly : IsOrderlyKernel three_shells
unfolding total count processes
three_shells-IsOrderly = record {
  tied = record { six = refl; once = once; balance = refl };
  places = places;
}
  where
    once :
        (p : ℕ)
        → uses p (stacks three_shells) + free_at three_shells.phys_addr_available p ≡ one_of_six p
    once zero = refl
    once (suc zero) = refl
    once (suc (suc zero)) = refl
    once (suc (suc (suc zero))) = refl
    once (suc (suc (suc (suc zero)))) = refl
    once (suc (suc (suc (suc (suc zero))))) = refl
    once (suc (suc (suc (suc (suc (suc p)))))) = ground arith

    places :
        (i : ℕ) (t : Terminal)
        → get_elem? three_shells.terminals i ≡ some t
        → IsPlaces t.phys_mem_idx
    places zero t h =
        subst (λ u. IsPlaces u.phys_mem_idx) (some-injective _ _ h)
          (shell_of-IsPlaces 0 (λ e. omega arith))
    places (suc zero) t h =
        subst (λ u. IsPlaces u.phys_mem_idx) (some-injective _ _ h)
          (shell_of-IsPlaces 1 (λ e. omega arith))
    places (suc (suc zero)) t h =
        subst (λ u. IsPlaces u.phys_mem_idx) (some-injective _ _ h)
          (shell_of-IsPlaces 2 (λ e. omega arith))
    places (suc (suc (suc i))) t h = absurd (none-ne-some _ h)

-- The disk with the program under the name "p".
abbrev pub disk : Image
disk = record image {
  boot_block = record {
    dir_num = 1;
    inode_num = 1;
    data_block_num = 1;
    dir_entry =
        (record program { file_name = 112 ∷ replicate 31 0; reserved = replicate 24 0 }) ∷ [];
  };
}

abbrev pub command : List ℕ
command = 112 ∷ 0 ∷ []

abbrev pub child : Kernel Unit
child =
    launched at disk frame (3, 0 ∷ 0 ∷ 0 ∷ 0 ∷ 1 ∷ 1 ∷ []) (shell_of 0) pcb (0 ∷ []) image.bytes
      three_shells

pub runs : execute at disk frame idle (some command) three_shells ≡ some (enters 0x08048074, child)
unfolding execute execute_file parse_command read_dentry_by_name strlen strncmp launch load_program
    read_data push_process take_page
runs = refl

execute-stacks_example : AfterExecute three_shells (enters 0x08048074) child
execute-stacks_example =
    execute-stacks at disk frame idle (some command) three_shells child (enters 0x08048074)
      three_shells-IsOrderly runs

pub child-IsOrderly : IsOrderlyKernel child
child-IsOrderly =
    (execute-stacks at disk frame idle (some command) three_shells child (enters 0x08048074)
      three_shells-IsOrderly runs).1

abbrev pub child_pcb : Pcb
child_pcb =
    new_pcb 3 (0 ∷ []) three_shells.cpu three_shells.paging
      (set_page at 32 0x1400000 4 false 0 three_shells.paging) pcb

abbrev pub child_terminal : Terminal
child_terminal = record (shell_of 0) { phys_mem_idx = 0 ∷ 3 ∷ replicate 4 minus_one }

abbrev pub back : Kernel Unit
back = end_process 3 1 child_terminal child_pcb child

pub ends : halt at disk frame idle 7 child ≡ some (resumes 0x7FFF00 0x7FFF80 7, back)
unfolding halt illinix_os.Process.last_process push_process
ends = refl

halt-stacks_example : AfterHalt child (resumes 0x7FFF00 0x7FFF80 7) back
halt-stacks_example =
    halt-stacks at disk frame idle 7 child back (resumes 0x7FFF00 0x7FFF80 7) child-IsOrderly ends
