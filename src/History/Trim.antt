-- ===== src/History/Trim.antt =====
-- The loop of `trim` (model/edit_history.cpp): it drops the oldest steps, only while it must.
use imrmf_map_editor.Base.{
  ℕ, ◌%◌, ◌≤◌, ◌≡◌, refl, ◌⊎◌, inl, inr, false, none, some, List, [], ◌∷◌, ◌++◌, arith, length,
  Bool-cases, Option-cases, All, sum_by,
}
use imrmf_map_editor.History.{Step, size_mod, sub_size, min_steps, is_over, trim, unsnoc}

pub unsnoc-append {ℓ} : {A : Type ℓ} (xs : List A) (x : A) → unsnoc (xs ++ x ∷ []) ≡ some (xs, x)
unfolding unsnoc
unsnoc-append [] x = refl
unsnoc-append (y ∷ xs) x = rw (unsnoc-append xs x)

pub unsnoc-eq-none {ℓ} : {A : Type ℓ} (xs : List A) → unsnoc xs ≡ none → xs ≡ []
unfolding unsnoc
unsnoc-eq-none [] e = refl
unsnoc-eq-none (x ∷ xs) e = ground arith

unsnoc-eq-some {ℓ} :
    {A : Type ℓ} (xs ys : List A) (y : A) → unsnoc xs ≡ some (ys, y) → xs ≡ ys ++ y ∷ []
unfolding unsnoc
unsnoc-eq-some [] ys y e = cc
unsnoc-eq-some (x ∷ xs) ys y e = elim (Option-cases (unsnoc xs)) [
  | inl n ↦ ground (arith, unsnoc-eq-none xs n)
  | inr ((zs, z), n) ↦ ground (arith, unsnoc-eq-some xs zs z n)
]

-- Every list is empty or ends in an element.
pub unsnoc-cases {ℓ} :
    {A : Type ℓ} (xs : List A)
    → (unsnoc xs ≡ none)
      ⊎ ((ys : List A) × (y : A) × (xs ≡ ys ++ y ∷ []) × (unsnoc xs ≡ some (ys, y)))
unfolding unsnoc
unsnoc-cases [] = inl refl
unsnoc-cases (x ∷ xs) = elim (Option-cases (unsnoc xs)) [
  | inl e ↦ inr ([], x, rw (unsnoc-eq-none xs e), rw e)
  | inr ((ys, y), e) ↦ inr (x ∷ ys, y, rw (unsnoc-eq-some xs ys y e), rw e)
]

-- The bytes of the steps, as the counter holds them.
abbrev pub held : {B : Type 0} → List (Step B) → ℕ
held steps = sum_by (λ s. s.bytes) steps % size_mod

module _ {B : Type 0} (limit budget : ℕ) where
  -- The counter stays the sum of the bytes of the steps that remain.
  pub trim-held :
      (past : List (Step B)) (bytes : ℕ)
      → bytes ≡ held past
      → (trim limit budget past bytes).1 ≡ held (trim limit budget past bytes).0
  unfolding trim sum_by
  trim-held [] bytes e = e
  trim-held (s ∷ past) bytes e = elim (Bool-cases (is_over limit budget (s ∷ past) bytes)) [
    | inl over ↦ rw over (trim-held past (sub_size bytes s.bytes) (omega arith))
    | inr fits ↦ rw fits e
  ]

  -- What remains is within the limit, and within the budget too unless it is at the least depth.
  pub trim_fits :
      (past : List (Step B)) (bytes : ℕ)
      → is_over limit budget (trim limit budget past bytes).0 (trim limit budget past bytes).1
        ≡ false
  unfolding trim
  trim_fits [] bytes = ground arith
  trim_fits (s ∷ past) bytes = elim (Bool-cases (is_over limit budget (s ∷ past) bytes)) [
    | inl over ↦ rw over (trim_fits past (sub_size bytes s.bytes))
    | inr fits ↦ rw fits fits
  ]

  -- The newest steps stay, as many as the limit and the least depth both allow.
  pub trim-append :
      (old new : List (Step B)) (bytes : ℕ)
      → length new ≤ limit
      → length new ≤ min_steps
      → (kept : List (Step B)) × ((trim limit budget (old ++ new) bytes).0 ≡ kept ++ new)
  unfolding trim
  trim-append [] [] bytes h k = ([], refl)
  trim-append [] (s ∷ new) bytes h k =
      let fits : is_over limit budget (s ∷ new) bytes ≡ false = ground arith in ([], rw fits)
  trim-append (s ∷ old) new bytes h k =
      elim (Bool-cases (is_over limit budget (s ∷ old ++ new) bytes)) [
        | inl over ↦
            let (kept, e) = trim-append old new (sub_size bytes s.bytes) h k in (kept, rw over e)
        | inr fits ↦ (s ∷ old, rw fits)
      ]

  pub trim-All :
      (P : Step B → Type 0) (past : List (Step B)) (bytes : ℕ)
      → All P past
      → All P (trim limit budget past bytes).0
  unfolding trim
  trim-All P [] bytes a = tt
  trim-All P (s ∷ past) bytes a = elim (Bool-cases (is_over limit budget (s ∷ past) bytes)) [
    | inl over ↦ rw over (trim-All P past (sub_size bytes s.bytes) a.1)
    | inr fits ↦ rw fits a
  ]

  -- No depth that the limit and the least depth allow is lost.
  pub trim_keeps :
      (n : ℕ) (past : List (Step B)) (bytes : ℕ)
      → n ≤ length past
      → n ≤ limit
      → n ≤ min_steps
      → n ≤ length (trim limit budget past bytes).0
  unfolding trim is_over
  trim_keeps n [] bytes h k l = h
  trim_keeps n (s ∷ past) bytes h k l = elim (Bool-cases (is_over limit budget (s ∷ past) bytes)) [
    | inl over ↦ rw over (trim_keeps n past (sub_size bytes s.bytes) (ground arith) k l)
    | inr fits ↦ rw fits h
  ]
