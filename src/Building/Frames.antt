-- ===== src/Building/Frames.antt =====
-- The frames of the levels: `compute_floor_transform`, `tgt_to_ref`, `ref_to_tgt`, `rmf_to_level_px`
-- and `level_px_to_rmf` of model/building.cpp.
pub mod Matched
use imrmf_map_editor.Base.{
  ℕ, ◌||◌, Option, none, some, List, [], ◌∷◌, get_elem?, length, if◌then◌else◌,
}
use imrmf_map_editor.Base.Int.{ℤ, pos, pos_part, eqb_ℤ}
use imrmf_map_editor.Base.Text.{is_empty, text_eq}
use imrmf_map_editor.Building.{Fiducial, Level, Building}
use imrmf_map_editor.Building.Delete.{out_of_range}
use imrmf_map_editor.Building.Double.{Double}
use imrmf_map_editor.Building.Scale.{direct_mpp, compute_level_mpp, main_level_idx}

pub record FloorTransform (D : Type 0) : Type 0 where
  pub scale : D
  pub yaw : D
  pub tx : D
  pub ty : D
  pub matched : ℕ

-- The first target of a name.
unfoldable pub match_of : {D : Type 0} → Fiducial D → List (Fiducial D) → Option (Fiducial D)
match_of r [] = none
match_of r (t ∷ target) =
    let rest = match_of r target in if text_eq t.name r.name then some t else rest

-- The pairs of a reference fiducial and its match; a fiducial without a name has none.
unfoldable pub match_all :
    {D : Type 0} → List (Fiducial D) → List (Fiducial D) → List (Fiducial D × Fiducial D)
unfolding match_of
match_all [] target = []
match_all (r ∷ ref) target =
    let rest = match_all ref target in
    if is_empty r.name
    then rest
    else elim (match_of r target) [ none ↦ rest | some t ↦ (r, t) ∷ rest ]

module _ {D : Type 0} (F : Double D) where
  -- The loop that sums the coordinates: rcx, rcy, tcx, tcy.
  unfoldable pub add_centers : D → D → D → D → List (Fiducial D × Fiducial D) → D × D × D × D
  add_centers rcx rcy tcx tcy [] = (rcx, rcy, tcx, tcy)
  add_centers rcx rcy tcx tcy ((r, t) ∷ pairs) =
      add_centers (F.add rcx r.x) (F.add rcy r.y) (F.add tcx t.x) (F.add tcy t.y) pairs

  -- The loop over the centered pairs: A, B, sum_t_sq.
  unfoldable pub add_products :
      D → D → D → D → D → D → D → List (Fiducial D × Fiducial D) → D × D × D
  add_products rcx rcy tcx tcy a b sum_t_sq [] = (a, b, sum_t_sq)
  add_products rcx rcy tcx tcy a b sum_t_sq ((r, t) ∷ pairs) =
      let rx = F.sub r.x rcx in
      let ry = F.sub r.y rcy in
      let tx = F.sub t.x tcx in
      let ty = F.sub t.y tcy in
      add_products rcx rcy tcx tcy (F.add a (F.add (F.mul rx tx) (F.mul ry ty)))
        (F.add b (F.sub (F.mul ry tx) (F.mul rx ty)))
        (F.add sum_t_sq (F.add (F.mul tx tx) (F.mul ty ty))) pairs

  -- The fit of two pairs or more.
  unfoldable pub fit : D → List (Fiducial D × Fiducial D) → FloorTransform D
  unfolding add_centers add_products
  fit default_scale pairs =
      let n = F.of_int (pos (length pairs)) in
      let (rx, ry, tx, ty) = add_centers F.zero F.zero F.zero F.zero pairs in
      let rcx = F.div rx n in
      let rcy = F.div ry n in
      let tcx = F.div tx n in
      let tcy = F.div ty n in
      let (a, b, sum_t_sq) = add_products rcx rcy tcx tcy F.zero F.zero F.zero pairs in
      let yaw = F.atan2 b a in
      let scale =
        if F.lt F.tiny sum_t_sq
        then F.div (F.sqrt (F.add (F.mul a a) (F.mul b b))) sum_t_sq
        else default_scale in
      let cy = F.cos yaw in
      let sy = F.sin yaw in
      record {
        scale = scale;
        yaw = yaw;
        tx = F.sub rcx (F.mul scale (F.sub (F.mul cy tcx) (F.mul sy tcy)));
        ty = F.sub rcy (F.mul scale (F.add (F.mul sy tcx) (F.mul cy tcy)));
        matched = length pairs;
      }

  unfoldable pub fit_pairs : D → List (Fiducial D × Fiducial D) → FloorTransform D
  unfolding fit
  fit_pairs default_scale [] = record {
    scale = default_scale;
    yaw = F.zero;
    tx = F.zero;
    ty = F.zero;
    matched = 0;
  }
  fit_pairs default_scale ((r, t) ∷ []) = record {
    scale = default_scale;
    yaw = F.zero;
    tx = F.sub r.x (F.mul default_scale t.x);
    ty = F.sub r.y (F.mul default_scale t.y);
    matched = 1;
  }
  fit_pairs default_scale (p ∷ q ∷ pairs) = fit default_scale (p ∷ q ∷ pairs)

  unfoldable pub compute_floor_transform :
      List (Fiducial D) → List (Fiducial D) → D → FloorTransform D
  unfolding match_all fit_pairs
  compute_floor_transform ref target default_scale = fit_pairs default_scale (match_all ref target)

  unfoldable pub tgt_to_ref : FloorTransform D → D → D → D × D
  tgt_to_ref xf ix iy =
      let cy = F.cos xf.yaw in
      let sy = F.sin xf.yaw in
      let a = F.mul ix xf.scale in
      let b = F.mul iy xf.scale in
      (F.sub (F.add xf.tx (F.mul cy a)) (F.mul sy b), F.add (F.add xf.ty (F.mul sy a)) (F.mul cy b))

  unfoldable pub ref_to_tgt : FloorTransform D → D → D → D × D
  ref_to_tgt xf rx ry =
      let cy = F.cos xf.yaw in
      let sy = F.sin xf.yaw in
      let dx = F.sub rx xf.tx in
      let dy = F.sub ry xf.ty in
      if F.lt xf.scale F.tiny then (F.zero, F.zero) else (
        F.div (F.add (F.mul cy dx) (F.mul sy dy)) xf.scale,
        F.div (F.add (F.mul (F.neg sy) dx) (F.mul cy dy)) xf.scale,
      )

-- The frame of the map: the main level's pixels by its scale, y up.
module _ {D N : Type 0} (F : Double D) where
  -- `main_idx`, which is 0 where there is no main level.
  anchor_idx : Building D N → ℕ
  anchor_idx b = pos_part (main_level_idx F b)

  anchor_mpp : Building D N → Level D N → D
  anchor_mpp b main =
      let direct = direct_mpp F main in
      let other = compute_level_mpp F b (pos (anchor_idx b)) in
      if F.le direct F.zero then (if F.le other F.zero then F.one else other) else direct

  -- The transform to another level; none to the main level and to an index out of range.
  between : Building D N → Level D N → ℤ → Option (FloorTransform D)
  unfolding anchor_idx
  between b main level_idx =
      if eqb_ℤ level_idx (pos (anchor_idx b)) || out_of_range level_idx (length b.levels)
      then none
      else elim (get_elem? b.levels (pos_part level_idx)) [
        | none ↦ none
        | some l ↦ some (compute_floor_transform F main.fiducials l.fiducials F.one)
      ]

  unfoldable pub rmf_to_level_px : Building D N → ℤ → D → D → D × D
  unfolding anchor_idx anchor_mpp between
  rmf_to_level_px b level_idx rmf_x rmf_y = elim (get_elem? b.levels (anchor_idx b)) [
    | none ↦ (F.zero, F.zero)
    | some main ↦
        let mpp = anchor_mpp b main in
        let mx = F.div rmf_x mpp in
        let my = F.div (F.neg rmf_y) mpp in
        elim (between b main level_idx) [ none ↦ (mx, my) | some xf ↦ ref_to_tgt F xf mx my ]
  ]

  unfoldable pub level_px_to_rmf : Building D N → ℤ → D → D → D × D
  unfolding anchor_idx anchor_mpp between
  level_px_to_rmf b level_idx px_x px_y = elim (get_elem? b.levels (anchor_idx b)) [
    | none ↦ (F.zero, F.zero)
    | some main ↦
        let mpp = anchor_mpp b main in
        let p : D × D = elim (between b main level_idx) [
          | none ↦ (px_x, px_y)
          | some xf ↦ tgt_to_ref F xf px_x px_y
        ] in
        (F.mul p.0 mpp, F.mul (F.neg p.1) mpp)
  ]
