-- ===== src/Building/Scale/Snapshot.antt =====
-- What the snapshots of `snapshot_level_mpps` (model/building.cpp) are for: they fix each scale.
use imrmf_map_editor.Base.{
  ℕ, zero, suc, ◌≡◌, refl, none, some, List, [], ◌∷◌, map, arith, get_elem?, if◌then◌else◌,
  Bool-cases, Option-cases, inl, inr,
}
use imrmf_map_editor.Base.Int.{ℤ, pos, negsuc}
use imrmf_map_editor.Building.{Level, Building}
use imrmf_map_editor.Building.Double.{Double}
use imrmf_map_editor.Building.Scale.{
  direct_mpp, is_positive, first_mpp, level_mpp, compute_level_mpp, main_from, main_level_idx,
  snapshot_level, snapshot_level_mpps,
}

get_elem?-map {ℓ κ} :
    {A : Type ℓ} {B : Type κ} (f : A → B) (xs : List A) (i : ℕ)
    → get_elem? (map f xs) i ≡ elim (get_elem? xs i) [ none ↦ none | some x ↦ some (f x) ]
get_elem?-map f [] i = refl
get_elem?-map f (x ∷ xs) zero = refl
get_elem?-map f (x ∷ xs) (suc i) = get_elem?-map f xs i

module _ {D : Type 0} (F : Double D) where
  -- A snapshot is taken only where it is what the scale is already.
  snapshot_level-level_mpp :
      (direct fallback snap : D)
      → (let next =
            if is_positive F snap
            then snap
            else if is_positive F direct
            then direct
            else fallback in
          if is_positive F next then next else if is_positive F direct then direct else fallback)
        ≡ (if is_positive F snap then snap else if is_positive F direct then direct else fallback)
  snapshot_level-level_mpp direct fallback snap = ground arith

module _ {D N : Type 0} (F : Double D) where
  direct_mpp-snapshot_level :
      (fallback : D) (l : Level D N) → direct_mpp F (snapshot_level F fallback l) ≡ direct_mpp F l
  unfolding snapshot_level direct_mpp
  direct_mpp-snapshot_level fallback l = elim (Bool-cases (is_positive F l.mpp_snapshot)) [
    | inl e ↦ rw e refl
    | inr e ↦ rw e refl
  ]

  first_mpp-snapshot_level :
      (fallback : D) (ls : List (Level D N))
      → first_mpp F (map (snapshot_level F fallback) ls) ≡ first_mpp F ls
  unfolding first_mpp
  first_mpp-snapshot_level fallback [] = refl
  first_mpp-snapshot_level fallback (l ∷ ls) =
      rw (direct_mpp-snapshot_level fallback l, first_mpp-snapshot_level fallback ls) refl

  main_from-snapshot_level :
      (fallback : D) (i : ℕ) (ls : List (Level D N))
      → main_from F i (map (snapshot_level F fallback) ls) ≡ main_from F i ls
  unfolding main_from
  main_from-snapshot_level fallback i [] = refl
  main_from-snapshot_level fallback i (l ∷ ls) =
      rw (direct_mpp-snapshot_level fallback l, main_from-snapshot_level fallback (suc i) ls) refl

  snapshot-snapshot_level :
      (fallback : D) (l : Level D N)
      → (snapshot_level F fallback l).mpp_snapshot ≡ (
          if is_positive F l.mpp_snapshot
          then l.mpp_snapshot
          else if is_positive F (direct_mpp F l)
          then direct_mpp F l
          else fallback)
  unfolding snapshot_level
  snapshot-snapshot_level fallback l = elim (Bool-cases (is_positive F l.mpp_snapshot)) [
    | inl e ↦ rw e refl
    | inr e ↦ rw e refl
  ]

  level_mpp-snapshot_level :
      (ls : List (Level D N)) (l : Level D N)
      → level_mpp F
          (map (snapshot_level F (first_mpp F ls)) ls)
          (snapshot_level F (first_mpp F ls) l)
        ≡ level_mpp F ls l
  unfolding level_mpp
  level_mpp-snapshot_level ls l =
      rw
        (
          first_mpp-snapshot_level (first_mpp F ls) ls,
          direct_mpp-snapshot_level (first_mpp F ls) l,
          snapshot-snapshot_level (first_mpp F ls) l,
        )
        (snapshot_level-level_mpp F (direct_mpp F l) (first_mpp F ls) l.mpp_snapshot)

  -- The snapshots that are taken when a map is read change no level's scale and not the main level,
  -- whatever the index and whatever the operations on `double` are.
  pub compute_level_mpp-snapshot_level_mpps :
      (b : Building D N) (i : ℤ)
      → (compute_level_mpp F (snapshot_level_mpps F b) i ≡ compute_level_mpp F b i)
        × (main_level_idx F (snapshot_level_mpps F b) ≡ main_level_idx F b)
  unfolding compute_level_mpp snapshot_level_mpps main_level_idx
  compute_level_mpp-snapshot_level_mpps b (negsuc i) =
      (refl, main_from-snapshot_level (first_mpp F b.levels) 0 b.levels)
  compute_level_mpp-snapshot_level_mpps b (pos i) = (
    rw (compute_level_mpp, get_elem?-map (snapshot_level F (first_mpp F b.levels)) b.levels i)
        (elim (Option-cases (get_elem? b.levels i)) [
          | inl e ↦ rw (compute_level_mpp, e) refl
          | inr (l, e) ↦ rw (compute_level_mpp, e) (level_mpp-snapshot_level b.levels l)
        ]),
    main_from-snapshot_level (first_mpp F b.levels) 0 b.levels,
  )
