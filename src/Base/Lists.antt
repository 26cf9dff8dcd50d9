-- ===== src/Base/Lists.antt =====
-- Lists measured and indexed by native numbers, under the library's names, and predicates on them.
use Prim.Native.Nat.{ℕ, zero, suc, ◌+◌, ◌≤◌, ◌<◌}
use mathlib.Core.Path.{◌≡◌, refl}
use mathlib.Core.Bool.{Bool}
use mathlib.Core.List.{List, [], ◌∷◌, ◌++◌}
use mathlib.Core.Option.{Option, none, some}
use native.Mathlib.Omega.{arith}
use imrmf_map_editor.Base.Tests.{if◌then◌else◌}

module _ {ℓ} {A : Type ℓ} where
  abbrev pub length : List A → ℕ
  length [] = 0
  length (x ∷ xs) = suc (length xs)

  abbrev pub get_elem? : List A → ℕ → Option A
  get_elem? [] i = none
  get_elem? (x ∷ xs) zero = some x
  get_elem? (x ∷ xs) (suc i) = get_elem? xs i

  -- `erase(begin() + i)`
  abbrev pub erase_idx : List A → ℕ → List A
  erase_idx [] i = []
  erase_idx (x ∷ xs) zero = xs
  erase_idx (x ∷ xs) (suc i) = x ∷ erase_idx xs i

  -- The library's `filter` takes a decision procedure; the program's tests are Boolean.
  abbrev pub filter : (A → Bool) → List A → List A
  filter p [] = []
  filter p (x ∷ xs) = let rest = filter p xs in if p x then x ∷ rest else rest

  pub length-append : (xs ys : List A) → length (xs ++ ys) ≡ length xs + length ys
  length-append [] ys = omega arith
  length-append (x ∷ xs) ys = omega (arith, length-append xs ys)

  pub length-erase_idx :
      (xs : List A) (i : ℕ) → i < length xs → length (erase_idx xs i) + 1 ≡ length xs
  length-erase_idx [] i h = elim h [ ]
  length-erase_idx (x ∷ xs) zero h = omega arith
  length-erase_idx (x ∷ xs) (suc i) h = omega (arith, length-erase_idx xs i)

  pub get_elem?-erase_idx_lt :
      (xs : List A) (i j : ℕ) → j < i → get_elem? (erase_idx xs i) j ≡ get_elem? xs j
  get_elem?-erase_idx_lt [] i j h = refl
  get_elem?-erase_idx_lt (x ∷ xs) zero j h = elim h [ ]
  get_elem?-erase_idx_lt (x ∷ xs) (suc i) zero h = refl
  get_elem?-erase_idx_lt (x ∷ xs) (suc i) (suc j) h = get_elem?-erase_idx_lt xs i j (omega arith)

  pub get_elem?-erase_idx_ge :
      (xs : List A) (i j : ℕ) → i ≤ j → get_elem? (erase_idx xs i) j ≡ get_elem? xs (suc j)
  get_elem?-erase_idx_ge [] i j h = refl
  get_elem?-erase_idx_ge (x ∷ xs) zero j h = refl
  get_elem?-erase_idx_ge (x ∷ xs) (suc i) zero h = elim h [ ]
  get_elem?-erase_idx_ge (x ∷ xs) (suc i) (suc j) h = get_elem?-erase_idx_ge xs i j (omega arith)

-- Every element has the property; computes to a tuple, which the tactics read and build.
abbrev pub All {ℓ κ} : {A : Type ℓ} → (A → Type κ) → List A → Type κ
All P [] = Unit
All P (x ∷ xs) = P x × All P xs

pub All-append {ℓ κ} :
    {A : Type ℓ} (P : A → Type κ) (xs ys : List A) → All P xs → All P ys → All P (xs ++ ys)
All-append P [] ys h k = k
All-append P (x ∷ xs) ys h k = (h.0, All-append P xs ys h.1 k)

pub All-mono {ℓ κ ι} :
    {A : Type ℓ} {P : A → Type κ} {Q : A → Type ι} (f : (x : A) → P x → Q x) (xs : List A)
    → All P xs
    → All Q xs
All-mono f [] h = tt
All-mono f (x ∷ xs) h = (f x h.0, All-mono f xs h.1)

pub All-erase_idx {ℓ κ} :
    {A : Type ℓ} (P : A → Type κ) (xs : List A) (i : ℕ) → All P xs → All P (erase_idx xs i)
All-erase_idx P [] i h = tt
All-erase_idx P (x ∷ xs) zero h = h.1
All-erase_idx P (x ∷ xs) (suc i) h = (h.0, All-erase_idx P xs i h.1)

pub get_elem?-some {ℓ} :
    {A : Type ℓ} (xs : List A) (i : ℕ) → i < length xs → (x : A) × (get_elem? xs i ≡ some x)
get_elem?-some [] i k = absurd (omega (arith, k))
get_elem?-some (x ∷ xs) zero k = (x, refl)
get_elem?-some (x ∷ xs) (suc i) k = get_elem?-some xs i (omega (arith, k))

-- An index below the length is read, and what is read has the property of all.
pub get_elem?-All {ℓ κ} :
    {A : Type ℓ} (P : A → Type κ) (xs : List A) (i : ℕ)
    → All P xs
    → i < length xs
    → (x : A) × (get_elem? xs i ≡ some x) × P x
get_elem?-All P [] i h k = absurd (omega (arith, k))
get_elem?-All P (x ∷ xs) zero h k = (x, refl, h.0)
get_elem?-All P (x ∷ xs) (suc i) h k = get_elem?-All P xs i h.1 (omega (arith, k))

unfoldable pub sum_by {ℓ} : {A : Type ℓ} → (A → ℕ) → List A → ℕ
sum_by f [] = 0
sum_by f (x ∷ xs) = f x + sum_by f xs

pub sum_by-append {ℓ} :
    {A : Type ℓ} (f : A → ℕ) (xs ys : List A) → sum_by f (xs ++ ys) ≡ sum_by f xs + sum_by f ys
unfolding sum_by
sum_by-append f [] ys = omega arith
sum_by-append f (x ∷ xs) ys = omega (arith, sum_by-append f xs ys)

abbrev pub take {ℓ} : {A : Type ℓ} → ℕ → List A → List A
take zero xs = []
take (suc n) [] = []
take (suc n) (x ∷ xs) = x ∷ take n xs
