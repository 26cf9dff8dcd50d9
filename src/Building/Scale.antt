-- ===== src/Building/Scale.antt =====
-- Meters per pixel of a level: `direct_mpp`, `compute_level_mpp`, `main_level_idx` and
-- `snapshot_level_mpps` of model/building.cpp.
pub mod Snapshot
use imrmf_map_editor.Base.{
  ℕ, zero, suc, ◌+◌, Bool, true, false, ◌||◌, Option, none, some, List, [], ◌∷◌, map, get_elem?,
  length, if◌then◌else◌,
}
use imrmf_map_editor.Base.Int.{ℤ, pos, negsuc, pos_part}
use imrmf_map_editor.Base.Text.{codes}
use imrmf_map_editor.Building.{ParamType, ParamValue, Vertex, Edge, Level, Building, find}
use imrmf_map_editor.Building.Delete.{out_of_range}
use imrmf_map_editor.Building.Double.{Double}
use imrmf_map_editor.Building.ParamType.{string, int, double, bool}

module _ {D : Type 0} (F : Double D) where
  -- `it->second.type == ParamType::INT ? (double)it->second.i : it->second.d`
  param_number : ParamValue D → D
  param_number p = elim p.type [ string ↦ p.d | int ↦ F.of_int p.i | double ↦ p.d | bool ↦ p.d ]

  -- The distance in pixels.
  distance_px : Vertex D → Vertex D → D
  distance_px v w =
      let dx = F.sub v.x w.x in let dy = F.sub v.y w.y in F.sqrt (F.add (F.mul dx dx) (F.mul dy dy))

  -- The scale by a distance in meters, where both distances are positive.
  scale_of : D → D → Option D
  scale_of d_m d_px =
      if F.le d_m F.zero then none else if F.le d_px F.zero then none else some (F.div d_m d_px)

  -- The body of the loop over the measurements: `none` where the source continues.
  scale_by : List (Vertex D) → Edge D → Option D
  unfolding out_of_range find param_number distance_px scale_of
  scale_by vertices m =
      if out_of_range m.start_idx (length vertices) || out_of_range m.end_idx (length vertices)
      then none
      else elim (find (codes "distance") m.params) [
        | none ↦ none
        | some p ↦ elim (get_elem? vertices (pos_part m.start_idx)) [
          | none ↦ none
          | some v ↦ elim (get_elem? vertices (pos_part m.end_idx)) [
            | none ↦ none
            | some w ↦ scale_of (param_number p) (distance_px v w)
          ]
        ]
      ]

  -- The loop with its sum and its count.
  add_scales : List (Vertex D) → D → ℕ → List (Edge D) → D × ℕ
  unfolding scale_by
  add_scales vertices sum count [] = (sum, count)
  add_scales vertices sum count (m ∷ measurements) = elim (scale_by vertices m) [
    | none ↦ add_scales vertices sum count measurements
    | some mpp ↦ add_scales vertices (F.add sum mpp) (suc count) measurements
  ]

  -- `count > 0 ? sum / count : 0.0`
  mean : D × ℕ → D
  mean (sum, zero) = F.zero
  mean (sum, suc n) = F.div sum (F.of_int (pos (suc n)))

  unfoldable pub direct_mpp : {N : Type 0} → Level D N → D
  unfolding add_scales mean
  direct_mpp level = mean (add_scales level.vertices F.zero zero level.measurements)

  abbrev pub is_positive : D → Bool
  is_positive x = F.lt F.zero x

  -- The first positive direct scale of the levels, else 0.
  unfoldable pub first_mpp : {N : Type 0} → List (Level D N) → D
  first_mpp [] = F.zero
  first_mpp (l ∷ levels) =
      let rest = first_mpp levels in if is_positive (direct_mpp l) then direct_mpp l else rest

  -- What `compute_level_mpp` gives for one of the levels.
  unfoldable pub level_mpp : {N : Type 0} → List (Level D N) → Level D N → D
  level_mpp levels self =
      if is_positive self.mpp_snapshot
      then self.mpp_snapshot
      else if is_positive (direct_mpp self)
      then direct_mpp self
      else first_mpp levels

  unfoldable pub compute_level_mpp : {N : Type 0} → Building D N → ℤ → D
  compute_level_mpp b (negsuc i) = F.zero
  compute_level_mpp b (pos i) = elim (get_elem? b.levels i) [
    | none ↦ F.zero
    | some self ↦ level_mpp b.levels self
  ]

  -- From the index `i` on.
  unfoldable pub main_from : {N : Type 0} → ℕ → List (Level D N) → ℤ
  main_from i [] = negsuc 0
  main_from i (l ∷ levels) =
      let rest = main_from (suc i) levels in if is_positive (direct_mpp l) then pos i else rest

  unfoldable pub main_level_idx : {N : Type 0} → Building D N → ℤ
  main_level_idx b = main_from 0 b.levels

  -- The body of the second loop of `snapshot_level_mpps`.
  unfoldable pub snapshot_level : {N : Type 0} → D → Level D N → Level D N
  snapshot_level fallback l =
      if is_positive l.mpp_snapshot
      then l
      else record l { mpp_snapshot = if is_positive (direct_mpp l) then direct_mpp l else fallback }

  unfoldable pub snapshot_level_mpps : {N : Type 0} → Building D N → Building D N
  snapshot_level_mpps b = record b { levels = map (snapshot_level (first_mpp b.levels)) b.levels }
