-- ===== src/Building/Frames/Matched.antt =====
-- Which fiducials the fit between two levels (`compute_floor_transform`, model/building.cpp) counts.
use imrmf_map_editor.Base.{
  suc, ◌≡◌, refl, sym, ap, ◌∙◌, Bool, true, false, not, ◌&&◌, Option, none, some, List, [], ◌∷◌,
  map, length, filter, Bool-cases, Option-cases, inl, inr,
}
use imrmf_map_editor.Base.Text.{text_eq, is_empty, mem_text}
use imrmf_map_editor.Building.{Fiducial}
use imrmf_map_editor.Building.Double.{Double}
use imrmf_map_editor.Building.Frames.{match_of, match_all, fit, fit_pairs, compute_floor_transform}

abbrev found {ℓ} : {A : Type ℓ} → Option A → Bool
found none = false
found (some a) = true

-- A fiducial with a name that a target has too.
abbrev pub has_match : {D : Type 0} → List (Fiducial D) → Fiducial D → Bool
has_match target r = not (is_empty r.name) && mem_text r.name (map (λ t. t.name) target)

found-match_of :
    {D : Type 0} (r : Fiducial D) (target : List (Fiducial D))
    → found (match_of r target) ≡ mem_text r.name (map (λ t. t.name) target)
unfolding match_of mem_text
found-match_of r [] = refl
found-match_of r (t ∷ target) = elim (Bool-cases (text_eq t.name r.name)) [
  | inl e ↦ rw (e) refl
  | inr e ↦ rw (e) (found-match_of r target)
]

length-match_all :
    {D : Type 0} (ref target : List (Fiducial D))
    → length (match_all ref target) ≡ length (filter (has_match target) ref)
unfolding match_all
length-match_all [] target = refl
length-match_all (r ∷ ref) target = elim (Bool-cases (is_empty r.name)) [
  | inl e ↦ rw e (length-match_all ref target)
  | inr e ↦ elim (Option-cases (match_of r target)) [
    | inl none_found ↦
        let absent = sym (found-match_of r target) ∙ ap found none_found in
        rw (e, none_found, absent) (length-match_all ref target)
    | inr (t, one_found) ↦
        let present = sym (found-match_of r target) ∙ ap found one_found in
        rw (e, one_found, present) (ap suc (length-match_all ref target))
  ]
]

module _ {D : Type 0} (F : Double D) where
  matched-fit_pairs :
      (scale : D) (pairs : List (Fiducial D × Fiducial D))
      → (fit_pairs F scale pairs).matched ≡ length pairs
  unfolding fit_pairs fit
  matched-fit_pairs scale [] = refl
  matched-fit_pairs scale (p ∷ []) = refl
  matched-fit_pairs scale (p ∷ q ∷ pairs) = refl

  -- The transform between two levels counts as matched exactly the reference's fiducials that have a
  -- name which a fiducial of the target has too.
  pub compute_floor_transform-matched :
      (ref target : List (Fiducial D)) (scale : D)
      → (compute_floor_transform F ref target scale).matched
        ≡ length (filter (has_match target) ref)
  unfolding compute_floor_transform
  compute_floor_transform-matched ref target scale =
      matched-fit_pairs scale (match_all ref target) ∙ length-match_all ref target
