-- ===== src/Process/Execute/Stack/Sharing.antt =====
-- system_call_handler.c: the steps of the system, by system calls and by other code, and the pages and
-- stacks of processes across each of them.
use mathlib.Core.Option.{some-injective, none-ne-some}
use illinix_os.Base.{
  ℕ, zero, suc, ◌≡◌, refl, ◌∙◌, ap, sym, subst, subst₂, some, Option, List, [], ◌∷◌, get_elem?, map,
}
use illinix_os.FileSystem.{Image, Dentry}
use illinix_os.Page.{Layout}
use illinix_os.Terminal.{Terminal}
use illinix_os.Process.{Kernel, Drivers, sys_open, sys_close, sys_read, sys_write}
use illinix_os.Process.Execute.{Frame, Outcome, execute, halt, vidmap}
use illinix_os.Process.Execute.Stack.{processes, stack_of, IsAlike, lists_of}
use illinix_os.Process.Execute.Stack.Files.{
  sys_open-IsAlike, sys_close-IsAlike, sys_read-IsAlike, sys_write-IsAlike, vidmap-IsAlike,
}
use illinix_os.Process.Execute.Stack.Counts.{get_elem?-map}
use illinix_os.Process.Execute.Stack.Tied.{IsTied}
use illinix_os.Process.Execute.Stack.Orderly.{IsPlaces}
use illinix_os.Process.Execute.Stack.Steps.{IsOrderlyKernel, execute-stacks}
use illinix_os.Process.Execute.Stack.Ends.{halt-stacks}

module _ {W : Type 0} where
  -- A step of the system: a system call, or other code: a program, an interrupt handler, the scheduler.
  pub data Step (at : Layout) (img : Image) (drivers : Drivers W)
      : Kernel W → Kernel W → Type 0 where
    executes :
        (frame : Frame) (command : Option (List ℕ)) (o : Outcome) {k k' : Kernel W}
        → execute at img frame drivers command k ≡ some (o, k')
        → Step at img drivers k k'
    halts :
        (frame : Frame) (status : ℕ) (o : Outcome) {k k' : Kernel W}
        → halt at img frame drivers status k ≡ some (o, k')
        → Step at img drivers k k'
    opens :
        (blank : Dentry) (filename : Option (List ℕ)) (v : ℕ) {k k' : Kernel W}
        → sys_open drivers img blank filename k ≡ some (v, k')
        → Step at img drivers k k'
    closes : (fd v : ℕ) {k k' : Kernel W} → sys_close fd k ≡ some (v, k') → Step at img drivers k k'
    reads :
        (fd n v : ℕ) (buf out : Option (List ℕ)) {k k' : Kernel W}
        → sys_read drivers fd buf n k ≡ some (v, out, k')
        → Step at img drivers k k'
    writes :
        (fd n v : ℕ) (buf : Option (List ℕ)) {k k' : Kernel W}
        → sys_write drivers fd buf n k ≡ some (v, k')
        → Step at img drivers k k'
    maps :
        (screen_start v : ℕ) (stored : Option ℕ) {k k' : Kernel W}
        → vidmap at screen_start k ≡ some (v, stored, k')
        → Step at img drivers k k'
    others : {k k' : Kernel W} → IsAlike k k' → Step at img drivers k k'

stacks-lists : (ts : List Terminal) → map stack_of ts ≡ map processes (lists_of ts)
stacks-lists [] = refl
stacks-lists (t ∷ ts) = ap (λ ss. stack_of t ∷ ss) (stacks-lists ts)

list_at :
    (ts ts' : List Terminal) (i : ℕ) (t' : Terminal)
    → lists_of ts' ≡ lists_of ts
    → get_elem? ts' i ≡ some t'
    → (t : Terminal) × (get_elem? ts i ≡ some t) × (t.phys_mem_idx ≡ t'.phys_mem_idx)
list_at ts ts' i t' same there =
    find ts i (sym (ap (λ l. get_elem? l i) same) ∙ get_elem?-map _ ts' i there)
  where
    find :
        (ts : List Terminal) (i : ℕ) {ps : List ℕ}
        → get_elem? (lists_of ts) i ≡ some ps
        → (t : Terminal) × (get_elem? ts i ≡ some t) × (t.phys_mem_idx ≡ ps)
    find [] i h = absurd (none-ne-some _ h)
    find (t ∷ ts) zero h = (t, refl, some-injective _ _ h)
    find (t ∷ ts) (suc i) h = find ts i h

module _ {W : Type 0} where
  pub IsAlike-IsOrderly : (k k' : Kernel W) → IsAlike k k' → IsOrderlyKernel k → IsOrderlyKernel k'
  IsAlike-IsOrderly k k' alike orderly = record {
    tied =
        subst₂ IsTied (sym alike.pages)
          (stacks-lists k.terminals
            ∙ ap (map processes) (sym alike.lists)
            ∙ sym (stacks-lists k'.terminals))
          orderly.tied;
    places = λ i t' there.
        let (t, before, same) = list_at k.terminals k'.terminals i t' alike.lists there in
        subst IsPlaces same (orderly.places i t before);
  }

module _ {W : Type 0} (at : Layout) (img : Image) (drivers : Drivers W) where
  pub Step-IsOrderly :
      {k k' : Kernel W} → Step at img drivers k k' → IsOrderlyKernel k → IsOrderlyKernel k'
  Step-IsOrderly {k} {k'} (executes frame command o done) orderly =
      (execute-stacks at img frame drivers command k k' o orderly done).1
  Step-IsOrderly {k} {k'} (halts frame status o done) orderly =
      (halt-stacks at img frame drivers status k k' o orderly done).1
  Step-IsOrderly {k} {k'} (opens blank filename v done) orderly =
      IsAlike-IsOrderly k k' (sys_open-IsAlike drivers img blank filename v k k' done) orderly
  Step-IsOrderly {k} {k'} (closes fd v done) orderly =
      IsAlike-IsOrderly k k' (sys_close-IsAlike fd v k k' done) orderly
  Step-IsOrderly {k} {k'} (reads fd n v buf out done) orderly =
      IsAlike-IsOrderly k k' (sys_read-IsAlike drivers fd n v buf out k k' done) orderly
  Step-IsOrderly {k} {k'} (writes fd n v buf done) orderly =
      IsAlike-IsOrderly k k' (sys_write-IsAlike drivers fd n v buf k k' done) orderly
  Step-IsOrderly {k} {k'} (maps screen_start v stored done) orderly =
      IsAlike-IsOrderly k k' (vidmap-IsAlike at screen_start v stored k k' done) orderly
  Step-IsOrderly {k} {k'} (others alike) orderly = IsAlike-IsOrderly k k' alike orderly
