-- ===== src/Process/Execute/Stack/Orderly.antt =====
-- system_call_handler.c: the invariant of the pages and the stacks of processes, kept by a push and
-- by a pop.
use illinix_os.Base.{
  ℕ, ◌-◌, ◌<◌, ◌≡◌, ◌≢◌, inl, inr, ◌∙◌, ap, sym, subst, some, List, [], ◌∷◌, ◌++◌, arith, get_elem?,
  get_elem?-lt, set, length, length-set, get_elem?-set, map, minus_one,
}
use illinix_os.Terminal.{Terminal}
use illinix_os.Process.{first_unused, last_process}
use illinix_os.Process.Execute.{push_process}
use illinix_os.Process.Execute.Slots.{IsPacked}
use illinix_os.Process.Execute.Stack.{processes, stack_of, free_bit, uses}
use illinix_os.Process.Execute.Stack.Places.{
  length-processes, processes-push_process, push_process-IsPacked, length-push_process, pop_process,
}
use illinix_os.Process.Execute.Stack.Counts.{total-le, get_elem?-map, map-set}
use illinix_os.Process.Execute.Stack.Tied.{IsTied, unused_of, grow-IsTied, shrink-IsTied}

-- The places of a terminal: six, and those in use come first.
abbrev pub IsPlaces : List ℕ → Type 0
IsPlaces ps = IsPacked ps × (length ps ≡ 6)

pub record IsOrderly (pages : List ℕ) (ts : List Terminal) : Type 0 where
  pub tied : IsTied pages (map stack_of ts)
  pub places : (i : ℕ) (t : Terminal) → get_elem? ts i ≡ some t → IsPlaces t.phys_mem_idx

pub IsPlaces-set :
    (pages : List ℕ) (ts : List Terminal) (r : ℕ) (t' : Terminal)
    → IsOrderly pages ts
    → IsPlaces t'.phys_mem_idx
    → (i : ℕ) (u : Terminal) → get_elem? (set ts r t') i ≡ some u
    → IsPlaces u.phys_mem_idx
IsPlaces-set pages ts r t' o new i u h = elim (get_elem?-set ts r i t' h) [
  | inl e ↦ subst (λ v. IsPlaces v.phys_mem_idx) (sym e) new
  | inr old ↦ o.places i u old
]

module _ (pages : List ℕ) (ts : List Terminal) (r : ℕ) (t t' : Terminal) (i : ℕ)
    (o : IsOrderly pages ts) (there : get_elem? ts r ≡ some t) where
  room : (a : ℕ) → get_elem? pages i ≡ some a → a ≢ 0 → first_unused t.phys_mem_idx < 6
  room a page free = omega (
    arith,
    o.tied.balance,
    length-processes t.phys_mem_idx,
    total-le length (map stack_of ts) r (get_elem?-map stack_of ts r there),
    total-le free_bit pages i page,
    bit,
  )
    where
      bit : free_bit a ≡ 1
      bit = ground arith

  -- A page that is free goes to a new process on top of the stack.
  pub push-IsOrderly :
      (a : ℕ)
      → get_elem? pages i ≡ some a
      → a ≢ 0
      → t'.phys_mem_idx ≡ push_process i t.phys_mem_idx
      → IsOrderly (set pages i 0) (set ts r t')
        × (uses i (map stack_of ts) ≡ 0)
        × (map stack_of (set ts r t') ≡ set (map stack_of ts) r (stack_of t ++ i ∷ []))
  push-IsOrderly a page free list =
      let few = room a page free in
      let (packed, six) = o.places r t there in
      let ne : i ≢ minus_one = λ e. omega (arith, get_elem?-lt pages i page, o.tied.six) in
      let space : first_unused t.phys_mem_idx < length t.phys_mem_idx = omega arith in
      let here = get_elem?-map stack_of ts r there in
      let grown : map stack_of (set ts r t') ≡ set (map stack_of ts) r (stack_of t ++ i ∷ []) =
        map-set stack_of ts r t'
        ∙ ap (set (map stack_of ts) r)
            (ap processes list ∙ processes-push_process i t.phys_mem_idx ne space packed) in
      (
        record {
          tied =
              subst (IsTied (set pages i 0)) (sym grown)
                (grow-IsTied pages (map stack_of ts) r i (stack_of t) o.tied a page free here);
          places = IsPlaces-set pages ts r t' o (
              subst IsPlaces (sym list) (
                push_process-IsPacked i t.phys_mem_idx ne space packed,
                length-push_process i t.phys_mem_idx ∙ six,
              ));
        },
        unused_of pages (map stack_of ts) r i (stack_of t) o.tied a page free,
        grown,
      )

  -- The page of the process on top becomes free.
  pub pop-IsOrderly :
      last_process t.phys_mem_idx ≡ some i
      → t'.phys_mem_idx ≡ set t.phys_mem_idx (first_unused t.phys_mem_idx - 1) minus_one
      → IsOrderly (set pages i 1) (set ts r t')
        × (get_elem? (map stack_of ts) r ≡ some (stack_of t' ++ i ∷ []))
        × (map stack_of (set ts r t') ≡ set (map stack_of ts) r (stack_of t'))
  pop-IsOrderly last list =
      let (packed, six) = o.places r t there in
      let (stack, packed', more) = pop_process t.phys_mem_idx i last packed in
      let split : stack_of t ≡ stack_of t' ++ i ∷ [] =
        stack ∙ ap (λ ps. processes ps ++ i ∷ []) (sym list) in
      let here = get_elem?-map stack_of ts r there ∙ ap some split in
      let shrunk = map-set stack_of ts r t' in
      (
        record {
          tied =
              subst (IsTied (set pages i 1)) (sym shrunk)
                (shrink-IsTied pages (map stack_of ts) r i (stack_of t') o.tied here);
          places = IsPlaces-set pages ts r t' o (
              subst IsPlaces (sym list) (
                packed',
                length-set t.phys_mem_idx (first_unused t.phys_mem_idx - 1) minus_one ∙ six,
              ));
        },
        here,
        shrunk,
      )
