-- ===== src/Bundle/Names/Digits.antt =====
-- The counter in an entry name (`std::to_string` in model/map_bundle.cpp) can be read back.
use imrmf_map_editor.Base.{
  ℕ, zero, suc, ◌+◌, ◌-◌, ◌*◌, ◌/◌, ◌%◌, ◌≤◌, ◌<◌, ◌≡◌, refl, sym, ap, false, ◌∙◌, [], ◌∷◌, ◌++◌,
  arith, ltb, Bool-cases, inl, inr, All,
}
use imrmf_map_editor.Base.Text.{Text, is_empty}
use imrmf_map_editor.Bundle.Names.{digits_of, to_string}

-- The number that a text of digits writes, after `a`.
unfoldable pub value : ℕ → Text → ℕ
value a [] = a
value a (c ∷ t) = value (a * 10 + (c - 48)) t

value-digits_of :
    (fuel n : ℕ) (acc : Text) → n < fuel → value 0 (digits_of fuel n acc) ≡ value n acc
unfolding digits_of value
value-digits_of zero n acc h = elim h [ ]
value-digits_of (suc fuel) n acc h = elim (Bool-cases (ltb n 10)) [
  | inl small ↦ rw small (ap (λ a. value a acc) (ground arith))
  | inr big ↦ rw big (
      value-digits_of fuel (n / 10) ((48 + n % 10) ∷ acc) (ground arith)
      ∙ ap (λ a. value a acc) (omega arith))
]

pub value-to_string : (n : ℕ) → value 0 (to_string n) ≡ n
unfolding to_string value
value-to_string n = value-digits_of (suc n) n [] (omega arith)

digits_of-nonempty : (fuel n c : ℕ) (acc : Text) → is_empty (digits_of fuel n (c ∷ acc)) ≡ false
unfolding digits_of
digits_of-nonempty zero n c acc = refl
digits_of-nonempty (suc fuel) n c acc = elim (Bool-cases (ltb n 10)) [
  | inl small ↦ rw small refl
  | inr big ↦ rw big (digits_of-nonempty fuel (n / 10) (48 + n % 10) (c ∷ acc))
]

pub to_string-nonempty : (n : ℕ) → is_empty (to_string n) ≡ false
unfolding to_string digits_of
to_string-nonempty n = elim (Bool-cases (ltb n 10)) [
  | inl small ↦ rw (small, digits_of) refl
  | inr big ↦ rw (big, digits_of) (digits_of-nonempty n (n / 10) (48 + n % 10) [])
]

pub to_string-injective : (m n : ℕ) → to_string m ≡ to_string n → m ≡ n
to_string-injective m n e = sym (value-to_string m) ∙ ap (value 0) e ∙ value-to_string n

abbrev pub IsDigit : ℕ → Type 0
IsDigit c = (48 ≤ c) × (c ≤ 57)

digits_of-IsDigit : (fuel n : ℕ) (acc : Text) → All IsDigit acc → All IsDigit (digits_of fuel n acc)
unfolding digits_of
digits_of-IsDigit zero n acc h = h
digits_of-IsDigit (suc fuel) n acc h = elim (Bool-cases (ltb n 10)) [
  | inl small ↦ rw small (omega arith, h)
  | inr big ↦ rw big (digits_of-IsDigit fuel (n / 10) ((48 + n % 10) ∷ acc) (omega arith, h))
]

pub to_string-IsDigit : (n : ℕ) → All IsDigit (to_string n)
unfolding to_string
to_string-IsDigit n = digits_of-IsDigit (suc n) n [] tt

-- Digits end where an underscore stands.
digits_until :
    (s t b c : Text) → All IsDigit s → All IsDigit t → s ++ (b'_' ∷ b) ≡ t ++ (b'_' ∷ c) → s ≡ t
digits_until [] [] b c h k e = refl
digits_until [] (y ∷ t) b c h k e = absurd (ground arith)
digits_until (x ∷ s) [] b c h k e = absurd (ground arith)
digits_until (x ∷ s) (y ∷ t) b c h k e = cc (digits_until s t b c h.1 k.1 (ground arith))

-- Two numbered names are equal only if their numbers are.
pub numbered-injective :
    (m n : ℕ) (b c : Text) → to_string m ++ (b'_' ∷ b) ≡ to_string n ++ (b'_' ∷ c) → m ≡ n
numbered-injective m n b c e =
    to_string-injective m n
      (digits_until (to_string m) (to_string n) b c (to_string-IsDigit m) (to_string-IsDigit n) e)
