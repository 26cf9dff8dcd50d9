-- ===== src/Base/Text.antt =====
-- C++'s `std::string`: its bytes, as a list of numbers.
use Prim.Native.Nat.{ℕ}
use Prim.Native.Char.{code}
use Prim.Native.String.{String}
use mathlib.Core.Bool.{Bool, true, false, ◌&&◌, ◌||◌}
use mathlib.Core.List.{List, [], ◌∷◌, ◌++◌}
use mathlib.Core.Option.{Option, none, some}
use mathlib.Core.Path.{◌≡◌, refl, sym, ◌∙◌}
use mathlib.Core.Logic.{◌↔◌, ◌≢◌, inl, inr}
use native.Mathlib.Omega.{arith}
use imrmf_map_editor.Base.Tests.{◌==◌, if◌then◌else◌, Bool-cases}

abbrev pub Text : Type 0
Text = List ℕ

-- The bytes of a literal (all of the program's are ASCII).
abbrev pub codes : String → Text
codes String.[] = []
codes (String.◌∷◌ c s) = code c ∷ codes s

unfoldable pub text_eq : Text → Text → Bool
text_eq [] [] = true
text_eq (a ∷ s) (b ∷ t) = a == b && text_eq s t
text_eq _ _ = false

text_eq_sound : (s t : Text) → text_eq s t ≡ true → s ≡ t
unfolding text_eq
text_eq_sound [] [] h = refl
text_eq_sound [] (b ∷ t) h = cc
text_eq_sound (a ∷ s) [] h = cc
text_eq_sound (a ∷ s) (b ∷ t) h = ground (arith, text_eq_sound s t)

pub text_eq_refl : (s : Text) → text_eq s s ≡ true
unfolding text_eq
text_eq_refl [] = refl
text_eq_refl (a ∷ s) = ground (arith, text_eq_refl s)

pub text_eq_iff : (s t : Text) → (text_eq s t ≡ true) ↔ (s ≡ t)
text_eq_iff s t = (text_eq_sound s t, λ e. rw e (text_eq_refl t))

-- A text that equals one differs from what the one differs from.
pub text_eq_apart : (i j k : Text) → text_eq i k ≡ true → text_eq i j ≡ false → text_eq j k ≡ false
text_eq_apart i j k p q = elim (Bool-cases (text_eq j k)) [
  | inr e ↦ e
  | inl e ↦
      absurd (cc (q, (text_eq_iff i j).1 ((text_eq_iff i k).0 p ∙ sym ((text_eq_iff j k).0 e))))
]

-- `s.empty()`
abbrev pub is_empty {ℓ} : {A : Type ℓ} → List A → Bool
is_empty [] = true
is_empty (x ∷ xs) = false

pub is_empty-true {ℓ} : {A : Type ℓ} (xs : List A) → is_empty xs ≡ true → xs ≡ []
is_empty-true [] h = refl
is_empty-true (x ∷ xs) h = cc

pub is_empty-false {ℓ} : {A : Type ℓ} (xs : List A) → is_empty xs ≡ false → xs ≢ []
is_empty-false [] h = absurd cc
is_empty-false (x ∷ xs) h = λ e. cc

pub nonempty-is_empty {ℓ} : {A : Type ℓ} (xs : List A) → xs ≢ [] → is_empty xs ≡ false
nonempty-is_empty [] h = absurd (h refl)
nonempty-is_empty (x ∷ xs) h = refl

-- `s.rfind(p, 0) == 0` and `s.compare(0, p.size(), p) == 0`
unfoldable pub starts_with : Text → Text → Bool
starts_with [] s = true
starts_with (c ∷ p) [] = false
starts_with (c ∷ p) (d ∷ s) = c == d && starts_with p s

pub starts_with-append : (p s : Text) → starts_with p (p ++ s) ≡ true
unfolding starts_with
starts_with-append [] s = refl
starts_with-append (c ∷ p) s = ground (arith, starts_with-append p s)

-- `s.find(c) != npos`
unfoldable pub has_char : ℕ → Text → Bool
has_char c [] = false
has_char c (d ∷ s) = elim (c == d) [ true ↦ true | false ↦ has_char c s ]

-- `set.count(s)`, over the list of what was inserted.
unfoldable pub mem_text : Text → List Text → Bool
mem_text s [] = false
mem_text s (t ∷ ts) = text_eq t s || mem_text s ts

-- No text stands twice.
abbrev pub Distinct : List Text → Type 0
Distinct [] = Unit
Distinct (t ∷ ts) = (mem_text t ts ≡ false) × Distinct ts

-- What stands before the first `c`, and what stands after it.
unfoldable pub until : ℕ → Text → Text × Option Text
until c [] = ([], none)
until c (d ∷ s) = let rest = until c s in if c == d then ([], some s) else (d ∷ rest.0, rest.1)
