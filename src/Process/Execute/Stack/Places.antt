-- ===== src/Process/Execute/Stack/Places.antt =====
-- system_call_handler.c: the list of the places of a terminal as a stack.
use mathlib.Core.Option.{some-injective, none-ne-some}
use illinix_os.Base.{
  ℕ, zero, suc, ◌-◌, ◌≤◌, ◌<◌, ◌≡◌, refl, ◌≢◌, inl, inr, ◌∙◌, ap, ap₂, sym, some, List, [], ◌∷◌,
  ◌++◌, arith, get_elem?, set, length, get_elem?-set_self, get_elem?-set_ne, get_elem?-lt, ==_ne,
  ==_iff, ℕ_discrete, minus_one,
}
use illinix_os.Process.{first_unused, last_process}
use illinix_os.Process.Execute.{push_process}
use illinix_os.Process.Execute.Slots.{
  IsPacked, push_process-entry, first_unused-push_process, first_unused-nothing, push_process-cons,
  later_room, later-IsPacked,
}
use illinix_os.Process.Execute.Stack.{processes}

processes-cons : (r : ℕ) (ps : List ℕ) → r ≢ minus_one → processes (r ∷ ps) ≡ r ∷ processes ps
unfolding processes
processes-cons r ps ne = rw (==_ne r minus_one ne) refl

processes-nil : (r : ℕ) (ps : List ℕ) → r ≡ minus_one → processes (r ∷ ps) ≡ []
unfolding processes
processes-nil r ps e = rw ((==_iff r minus_one).1 e) refl

first_unused-cons :
    (r : ℕ) (ps : List ℕ) → r ≢ minus_one → first_unused (r ∷ ps) ≡ suc (first_unused ps)
unfolding first_unused
first_unused-cons r ps ne = rw (==_ne r minus_one ne) (omega arith)

first_unused-nil : (r : ℕ) (ps : List ℕ) → r ≡ minus_one → first_unused (r ∷ ps) ≡ 0
unfolding first_unused
first_unused-nil r ps e = rw ((==_iff r minus_one).1 e) refl

-- There are as many as the search for a free place passes.
pub length-processes : (ps : List ℕ) → length (processes ps) ≡ first_unused ps
unfolding processes first_unused
length-processes [] = refl
length-processes (p ∷ ps) = ground (arith, length-processes ps)

processes-none : (ps : List ℕ) → first_unused ps ≡ 0 → processes ps ≡ []
unfolding processes first_unused
processes-none [] e = refl
processes-none (p ∷ ps) e = ground arith

pub first_unused-le : (ps : List ℕ) → first_unused ps ≤ length ps
unfolding first_unused
first_unused-le [] = omega arith
first_unused-le (p ∷ ps) = ground (arith, first_unused-le ps)

-- A new process stands on top.
pub processes-push_process :
    (p : ℕ) (ps : List ℕ)
    → p ≢ minus_one
    → first_unused ps < length ps
    → IsPacked ps
    → processes (push_process p ps) ≡ processes ps ++ p ∷ []
unfolding push_process
processes-push_process p [] ne room packed = absurd (omega arith)
processes-push_process p (r ∷ ps) ne room packed = elim (ℕ_discrete r minus_one) [
  | yes e ↦
      let end : first_unused ps ≡ 0 =
        first_unused-nothing ps
          (λ j q h. packed (suc j) q (omega (arith, first_unused-nil r ps e)) h) in
      rw ((==_iff r minus_one).1 e) (
        processes-cons p ps ne
        ∙ ap (λ qs. p ∷ qs) (processes-none ps end)
        ∙ ap (λ qs. qs ++ p ∷ []) (sym (processes-nil r ps e)))
  | no more ↦
      ap processes (push_process-cons p r ps more)
      ∙ processes-cons r (push_process p ps) more
      ∙ ap (λ qs. r ∷ qs)
          (processes-push_process p ps ne (later_room r ps more room)
            (later-IsPacked r ps more packed))
      ∙ ap (λ qs. qs ++ p ∷ []) (sym (processes-cons r ps more))
]

pub push_process-IsPacked :
    (p : ℕ) (ps : List ℕ)
    → p ≢ minus_one
    → first_unused ps < length ps
    → IsPacked ps
    → IsPacked (push_process p ps)
push_process-IsPacked p ps ne room packed j q low h =
    let more = first_unused-push_process p ps ne room packed in
    elim (push_process-entry p ps j q h) [
      | inl (e, at) ↦ absurd (omega arith)
      | inr old ↦ packed j q (omega arith) old
    ]

pub length-push_process : (p : ℕ) (ps : List ℕ) → length (push_process p ps) ≡ length ps
unfolding push_process
length-push_process p [] = refl
length-push_process p (q ∷ ps) = ground (arith, length-push_process p ps)

used_of : (r : ℕ) (ps : List ℕ) (n : ℕ) → first_unused (r ∷ ps) ≡ suc n → r ≢ minus_one
used_of r ps n e gone = omega (arith, first_unused-nil r ps gone)

-- The last process is taken off.
pop_at :
    (ps : List ℕ) (n p : ℕ)
    → first_unused ps ≡ suc n
    → get_elem? ps n ≡ some p
    → (processes ps ≡ processes (set ps n minus_one) ++ p ∷ [])
      × (first_unused (set ps n minus_one) ≡ n)
pop_at [] n p e h = absurd (none-ne-some _ h)
pop_at (r ∷ ps) zero p e h =
    let used = used_of r ps 0 e in
    let end : processes ps ≡ [] = processes-none ps (omega (arith, first_unused-cons r ps used)) in
    (
      processes-cons r ps used
          ∙ ap₂ (λ q qs. q ∷ qs) (some-injective _ _ h) end
          ∙ ap (λ qs. qs ++ p ∷ []) (sym (processes-nil minus_one ps refl)),
      first_unused-nil minus_one ps refl,
    )
pop_at (r ∷ ps) (suc m) p e h =
    let used = used_of r ps (suc m) e in
    let (stack, first) = pop_at ps m p (omega (arith, first_unused-cons r ps used)) h in
    (
      processes-cons r ps used
          ∙ ap (λ qs. r ∷ qs) stack
          ∙ ap (λ qs. qs ++ p ∷ []) (sym (processes-cons r (set ps m minus_one) used)),
      first_unused-cons r (set ps m minus_one) used ∙ ap suc first,
    )

-- What `halt` does with the list of its terminal.
pub pop_process :
    (ps : List ℕ) (p : ℕ)
    → last_process ps ≡ some p
    → IsPacked ps
    → (processes ps ≡ processes (set ps (first_unused ps - 1) minus_one) ++ p ∷ [])
      × IsPacked (set ps (first_unused ps - 1) minus_one)
      × (0 < first_unused ps)
unfolding last_process
pop_process ps p last packed = elim (ℕ_discrete (first_unused ps) 0) [
  | yes e ↦ absurd (ground arith)
  | no more ↦
      let there : get_elem? ps (first_unused ps - 1) ≡ some p = ground arith in
      let n = first_unused ps - 1 in
      let (stack, first) = pop_at ps n p (omega arith) there in
      (
        stack,
        λ j q low h. elim (ℕ_discrete n j) [
          | yes e ↦ some-injective _ _ (
              sym h
              ∙ ap (get_elem? (set ps n minus_one)) (sym e)
              ∙ get_elem?-set_self ps n minus_one (get_elem?-lt ps n there))
          | no ne ↦ packed j q (omega arith) (sym (get_elem?-set_ne ps minus_one ne) ∙ h)
        ],
        omega arith,
      )
]
