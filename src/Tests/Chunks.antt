-- ===== src/Tests/Chunks.antt =====
-- Lists of texts in one list of numbers, each after its length: the coding of the toy archive and of
-- the toy JSON library, which stand in for miniz and nlohmann::json.
use imrmf_map_editor.Base.{
  ℕ, zero, suc, ◌≤◌, ◌≡◌, refl, ap, List, [], ◌∷◌, ◌++◌, arith, length, length-append,
}
use imrmf_map_editor.Base.Text.{Text}

unfoldable pub chunks : List Text → Text
chunks [] = []
chunks (t ∷ ts) = length t ∷ (t ++ chunks ts)

unfoldable pub split_at : ℕ → Text → Text × Text
split_at zero s = ([], s)
split_at (suc n) [] = ([], [])
split_at (suc n) (c ∷ s) = let (a, b) = split_at n s in (c ∷ a, b)

-- The fuel is the length of the input.
unfoldable pub unchunk : ℕ → Text → List Text
unfolding split_at
unchunk zero s = []
unchunk (suc fuel) [] = []
unchunk (suc fuel) (n ∷ s) = let (t, rest) = split_at n s in t ∷ unchunk fuel rest

split_at-append : (s t : Text) → split_at (length s) (s ++ t) ≡ (s, t)
unfolding split_at
split_at-append [] t = refl
split_at-append (c ∷ s) t = rw (split_at-append s t)

pub unchunk-chunks :
    (fuel : ℕ) (ts : List Text) → length (chunks ts) ≤ fuel → unchunk fuel (chunks ts) ≡ ts
unfolding unchunk chunks
unchunk-chunks zero [] h = refl
unchunk-chunks zero (t ∷ ts) h = absurd (omega arith)
unchunk-chunks (suc fuel) [] h = refl
unchunk-chunks (suc fuel) (t ∷ ts) h =
    rw (split_at-append t (chunks ts))
      (ap (◌∷◌ t) (unchunk-chunks fuel ts (omega (arith, length-append t (chunks ts)))))
