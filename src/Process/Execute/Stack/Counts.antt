-- ===== src/Process/Execute/Stack/Counts.antt =====
-- Counting the uses of pages, over a list with one element changed.
use mathlib.Core.Option.{some-injective, none-ne-some}
use illinix_os.Base.{
  ℕ, zero, suc, ◌+◌, ◌≤◌, ◌<◌, ◌≡◌, refl, ◌≢◌, ap, some, List, [], ◌∷◌, ◌++◌, ◌==◌, if◌then◌else◌,
  arith, get_elem?, set, length, map,
}
use illinix_os.Process.Execute.Stack.{count, total, free_bit, free_at}

pub count-append : (p : ℕ) (s t : List ℕ) → count p (s ++ t) ≡ count p s + count p t
unfolding count
count-append p [] t = omega arith
count-append p (q ∷ s) t = omega (arith, count-append p s t)

pub count-one : (p q : ℕ) → count p (q ∷ []) ≡ (if q == p then 1 else 0)
unfolding count
count-one p q = omega arith

pub total-set {ℓ} :
    {A : Type ℓ} (f : A → ℕ) (xs : List A) (i : ℕ) (v : A) {x : A}
    → get_elem? xs i ≡ some x
    → total f (set xs i v) + f x ≡ total f xs + f v
unfolding total
total-set f [] i v h = absurd (none-ne-some _ h)
total-set f (y ∷ xs) zero v h = omega (arith, ap f (some-injective _ _ h))
total-set f (y ∷ xs) (suc i) v h = omega (arith, total-set f xs i v h)

pub total-le {ℓ} :
    {A : Type ℓ} (f : A → ℕ) (xs : List A) (i : ℕ) {x : A}
    → get_elem? xs i ≡ some x
    → f x ≤ total f xs
unfolding total
total-le f [] i h = absurd (none-ne-some _ h)
total-le f (y ∷ xs) zero h = omega (arith, ap f (some-injective _ _ h))
total-le f (y ∷ xs) (suc i) h = omega (arith, total-le f xs i h)

-- Two different elements.
pub total-two {ℓ} :
    {A : Type ℓ} (f : A → ℕ) (xs : List A) (i j : ℕ) {x y : A}
    → get_elem? xs i ≡ some x
    → get_elem? xs j ≡ some y
    → i ≢ j
    → f x + f y ≤ total f xs
unfolding total
total-two f [] i j h h' ne = absurd (none-ne-some _ h)
total-two f (z ∷ xs) zero zero h h' ne = absurd (ne refl)
total-two f (z ∷ xs) zero (suc j) h h' ne =
    omega (arith, ap f (some-injective _ _ h), total-le f xs j h')
total-two f (z ∷ xs) (suc i) zero h h' ne =
    omega (arith, ap f (some-injective _ _ h'), total-le f xs i h)
total-two f (z ∷ xs) (suc i) (suc j) h h' ne =
    omega (arith, total-two f xs i j h h' (λ e. ne (ap suc e)))

pub count-entry : (p : ℕ) (s : List ℕ) (i : ℕ) → get_elem? s i ≡ some p → 1 ≤ count p s
unfolding count
count-entry p [] i h = absurd (none-ne-some _ h)
count-entry p (q ∷ s) zero h = let e = some-injective _ _ h in ground arith
count-entry p (q ∷ s) (suc i) h = omega (arith, count-entry p s i h)

-- A page of the array, and its bit.
pub free_at-get :
    (pages : List ℕ) (p : ℕ) {a : ℕ} → get_elem? pages p ≡ some a → free_at pages p ≡ free_bit a
free_at-get [] p h = absurd (none-ne-some _ h)
free_at-get (b ∷ pages) zero h = ap free_bit (some-injective _ _ h)
free_at-get (b ∷ pages) (suc p) h = free_at-get pages p h

pub free_at-set_self :
    (pages : List ℕ) (i b : ℕ) {a : ℕ}
    → get_elem? pages i ≡ some a
    → free_at (set pages i b) i ≡ free_bit b
free_at-set_self [] i b h = absurd (none-ne-some _ h)
free_at-set_self (c ∷ pages) zero b h = refl
free_at-set_self (c ∷ pages) (suc i) b h = free_at-set_self pages i b h

pub free_at-set_ne :
    (pages : List ℕ) (i b p : ℕ) → i ≢ p → free_at (set pages i b) p ≡ free_at pages p
free_at-set_ne [] i b p ne = refl
free_at-set_ne (c ∷ pages) zero b zero ne = absurd (ne refl)
free_at-set_ne (c ∷ pages) zero b (suc p) ne = refl
free_at-set_ne (c ∷ pages) (suc i) b zero ne = refl
free_at-set_ne (c ∷ pages) (suc i) b (suc p) ne = free_at-set_ne pages i b p (λ e. ne (ap suc e))

pub get_elem?-map {ℓ κ} :
    {A : Type ℓ} {B : Type κ} (f : A → B) (xs : List A) (i : ℕ) {x : A}
    → get_elem? xs i ≡ some x
    → get_elem? (map f xs) i ≡ some (f x)
get_elem?-map f [] i h = absurd (none-ne-some _ h)
get_elem?-map f (y ∷ xs) zero h = ap (λ z. some (f z)) (some-injective _ _ h)
get_elem?-map f (y ∷ xs) (suc i) h = get_elem?-map f xs i h

pub map-set {ℓ κ} :
    {A : Type ℓ} {B : Type κ} (f : A → B) (xs : List A) (i : ℕ) (v : A)
    → map f (set xs i v) ≡ set (map f xs) i (f v)
map-set f [] i v = refl
map-set f (x ∷ xs) zero v = refl
map-set f (x ∷ xs) (suc i) v = ap (λ ys. f x ∷ ys) (map-set f xs i v)

pub exists_at {ℓ} :
    {A : Type ℓ} (xs : List A) (i : ℕ) → i < length xs → (x : A) × (get_elem? xs i ≡ some x)
exists_at [] i h = absurd (omega arith)
exists_at (x ∷ xs) zero h = (x, refl)
exists_at (x ∷ xs) (suc i) h = exists_at xs i (omega arith)
