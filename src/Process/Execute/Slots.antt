-- ===== src/Process/Execute/Slots.antt =====
-- system_call_handler.c: the pages of memory and the lists of the processes of each terminal.
use mathlib.Core.Option.{some-injective, none-ne-some}
use illinix_os.Base.{
  replicate, ℕ, zero, suc, ◌+◌, ◌-◌, ◌≤◌, ◌<◌, ◌≡◌, refl, ◌≢◌, ◌⊎◌, inl, inr, ◌∙◌, ap, ap₂, sym,
  none, some, List, [], ◌∷◌, arith, get_elem?, set, length, ==_ne, ==_iff, ℕ_discrete, minus_one,
}
use illinix_os.Process.{first_unused, last_process}
use illinix_os.Process.Execute.{take_page, push_process}

-- What the search for a free page does: it takes the first page that is free, or there is none.
pub take_page_lem :
    (i : ℕ) (pages : List ℕ)
    → ((j : ℕ) × (a : ℕ) × (get_elem? pages j ≡ some a)
        × (a ≢ 0)
        × (take_page i pages ≡ some (i + j, set pages j 0)))
      ⊎ (take_page i pages ≡ none)
unfolding take_page
take_page_lem i [] = inr refl
take_page_lem i (a ∷ rest) = elim (ℕ_discrete a 0) [
  | no free ↦
      inl (0, a, refl, free, rw (==_ne a 0 free) (ap (λ n. some (n, 0 ∷ rest)) (omega arith)))
  | yes busy ↦ elim (take_page_lem (i + 1) rest) [
    | inl (j, b, e, free, t) ↦ inl (
      suc j,
      b,
      e,
      free,
      rw ((==_iff a 0).1 busy, t) (ap (λ n. some (n, a ∷ set rest j 0)) (omega arith)),
    )
    | inr t ↦ inr (rw ((==_iff a 0).1 busy, t) refl)
  ]
]

-- Behind the first place that is not used, no place is.
abbrev pub IsPacked : List ℕ → Type 0
IsPacked ps = (j : ℕ) (q : ℕ) → first_unused ps ≤ j → get_elem? ps j ≡ some q → q ≡ minus_one

-- The entries of a list with one more process.
pub push_process-entry :
    (p : ℕ) (ps : List ℕ) (j q : ℕ)
    → get_elem? (push_process p ps) j ≡ some q
    → ((q ≡ p) × (j ≡ first_unused ps)) ⊎ (get_elem? ps j ≡ some q)
unfolding push_process first_unused
push_process-entry p [] j q h = inr h
push_process-entry p (r ∷ ps) zero q h = ground arith
push_process-entry p (r ∷ ps) (suc j) q h = ground (arith, push_process-entry p ps j q)

-- A list of which no place is used.
pub first_unused-nothing :
    (ps : List ℕ) → ((j q : ℕ) → get_elem? ps j ≡ some q → q ≡ minus_one) → first_unused ps ≡ 0
unfolding first_unused
first_unused-nothing [] h = refl
first_unused-nothing (p ∷ ps) h = rw ((==_iff p minus_one).1 (h 0 p refl)) refl

first_unused-cons :
    (r : ℕ) (ps : List ℕ) → r ≢ minus_one → first_unused (r ∷ ps) ≡ first_unused ps + 1
unfolding first_unused
first_unused-cons r ps ne = rw (==_ne r minus_one ne) refl

first_unused-suc :
    (r : ℕ) (ps : List ℕ) → r ≢ minus_one → first_unused (r ∷ ps) ≡ suc (first_unused ps)
first_unused-suc r ps ne = omega (arith, first_unused-cons r ps ne)

pub push_process-cons :
    (p r : ℕ) (ps : List ℕ) → r ≢ minus_one → push_process p (r ∷ ps) ≡ r ∷ push_process p ps
unfolding push_process
push_process-cons p r ps ne = rw (==_ne r minus_one ne) refl

pub later_room :
    (r : ℕ) (ps : List ℕ)
    → r ≢ minus_one
    → first_unused (r ∷ ps) < length (r ∷ ps)
    → first_unused ps < length ps
unfolding first_unused
later_room r ps ne h = let e = ==_ne r minus_one ne in ground arith

pub later-IsPacked : (r : ℕ) (ps : List ℕ) → r ≢ minus_one → IsPacked (r ∷ ps) → IsPacked ps
unfolding first_unused
later-IsPacked r ps ne packed j q low h =
    packed (suc j) q (rw (==_ne r minus_one ne) (omega arith)) h

-- A new process stands behind the others.
pub first_unused-push_process :
    (p : ℕ) (ps : List ℕ)
    → p ≢ minus_one
    → first_unused ps < length ps
    → IsPacked ps
    → first_unused (push_process p ps) ≡ first_unused ps + 1
unfolding push_process first_unused
first_unused-push_process p [] ne room packed = absurd (omega arith)
first_unused-push_process p (r ∷ ps) ne room packed = elim (ℕ_discrete r minus_one) [
  | yes e ↦
      let end : first_unused ps ≡ 0 =
        first_unused-nothing ps (λ j q h. packed (suc j) q (ground arith) h) in
      rw ((==_iff r minus_one).1 e, ==_ne p minus_one ne) (ap (λ n. n + 1) end)
  | no more ↦
      let next =
        first_unused-push_process p ps ne (later_room r ps more room)
          (later-IsPacked r ps more packed) in
      ap first_unused (push_process-cons p r ps more)
      ∙ first_unused-cons r (push_process p ps) more
      ∙ ap (λ n. n + 1) (next ∙ sym (first_unused-cons r ps more))
]

-- The new process is the one that runs.
last_entry :
    (p : ℕ) (ps : List ℕ)
    → first_unused ps < length ps
    → get_elem? (push_process p ps) (first_unused ps) ≡ some p
unfolding push_process first_unused
last_entry p [] room = absurd (omega arith)
last_entry p (r ∷ ps) room = elim (ℕ_discrete r minus_one) [
  | yes e ↦ rw ((==_iff r minus_one).1 e) refl
  | no more ↦
      ap₂ get_elem? (push_process-cons p r ps more) (first_unused-suc r ps more)
      ∙ last_entry p ps (later_room r ps more room)
]

pub last_process-push_process :
    (p : ℕ) (ps : List ℕ)
    → p ≢ minus_one
    → first_unused ps < length ps
    → IsPacked ps
    → last_process (push_process p ps) ≡ some p
unfolding last_process
last_process-push_process p ps ne room packed =
    let count = first_unused-push_process p ps ne room packed in
    rw (count, ==_ne (first_unused ps + 1) 0 (omega arith), last_index (first_unused ps))
      (last_entry p ps room)
  where
    last_index : (n : ℕ) → n + 1 - 1 ≡ n
    last_index n = omega arith

-- Taking the new process off again.
pub pop-push_process :
    (p : ℕ) (ps : List ℕ)
    → first_unused ps < length ps
    → set (push_process p ps) (first_unused ps) minus_one ≡ ps
unfolding push_process first_unused
pop-push_process p [] room = absurd (omega arith)
pop-push_process p (r ∷ ps) room = elim (ℕ_discrete r minus_one) [
  | yes e ↦ rw ((==_iff r minus_one).1 e) (ap (λ q. q ∷ ps) (sym e))
  | no more ↦
      ap₂ (λ qs n. set qs n minus_one) (push_process-cons p r ps more) (first_unused-suc r ps more)
      ∙ ap (λ qs. r ∷ qs) (pop-push_process p ps (later_room r ps more room))
]

-- A list of places that are not used.
pub unused : (n j q : ℕ) → get_elem? (replicate n minus_one) j ≡ some q → q ≡ minus_one
unused zero j q h = absurd (none-ne-some _ h)
unused (suc n) zero q h = sym (some-injective _ _ h)
unused (suc n) (suc j) q h = unused n j q h
