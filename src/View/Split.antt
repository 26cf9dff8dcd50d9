-- ===== src/View/Split.antt =====
-- The lane tool: a drag across lanes splits each that it crosses, a click extends a chain of lanes
-- (the release of the mouse in `draw_canvas` of view/editor_view.cpp, and what it calls).
pub mod Pieces
pub mod Exact
pub mod Tool
pub mod Fits
pub mod Bounds
use imrmf_map_editor.Base.{
  ℕ, zero, suc, ◌+◌, ◌-◌, Bool, true, false, not, ◌&&◌, ◌||◌, Option, none, some, List, [], ◌∷◌,
  ◌++◌, length, get_elem?, ltb, if◌then◌else◌,
}
use imrmf_map_editor.Base.Int.{ℤ, pos, negsuc, pos_part, ltb_ℤ, leb_ℤ, eqb_ℤ}
use imrmf_map_editor.Base.Text.{Text, codes, text_eq}
use imrmf_map_editor.Building.{Params, ParamValue, Vertex, Edge, Level, find}
use imrmf_map_editor.Building.ParamType.{string, int, bool}
use imrmf_map_editor.Building.Delete.{out_of_range, delete_lane}
use imrmf_map_editor.Building.Double.{Double}
use imrmf_map_editor.Yaml.{text_ltb}

-- The constants that are no integers: 1e-9, 1e-6, 1e-12 and 2.414.
pub record Literals (D : Type 0) : Type 0 where
  pub parallel : D
  pub margin : D
  pub degenerate : D
  pub diagonal : D

-- What a drag does to one lane: `std::tuple<int, double, double>`.
pub record Split (D : Type 0) : Type 0 where
  pub lane : ℕ
  pub at_x : D
  pub at_y : D

-- `vertices[idx]`, where the index is in range.
unfoldable pub vertex_in : {D : Type 0} → List (Vertex D) → ℤ → Option (Vertex D)
unfolding out_of_range
vertex_in vertices idx =
    if out_of_range idx (length vertices) then none else get_elem? vertices (pos_part idx)

-- `std::sort` by descending index.
unfoldable pub insert_desc : {D : Type 0} → Split D → List (Split D) → List (Split D)
insert_desc s [] = s ∷ []
insert_desc s (t ∷ splits) =
    let rest = insert_desc s splits in if ltb t.lane s.lane then s ∷ t ∷ splits else t ∷ rest

unfoldable pub sort_desc : {D : Type 0} → List (Split D) → List (Split D)
unfolding insert_desc
sort_desc [] = []
sort_desc (s ∷ splits) = insert_desc s (sort_desc splits)

module _ {D : Type 0} (F : Double D) (C : Literals D) where
  abbrev pub abs : D → D
  abs d = if F.lt d F.zero then F.neg d else d

  unfoldable pub segment_intersect : D × D → D × D → D × D → D × D → Option (D × D)
  segment_intersect (ax, ay) (bx, by) (cx, cy) (dx, dy) =
      let rx = F.sub bx ax in
      let ry = F.sub by ay in
      let sx = F.sub dx cx in
      let sy = F.sub dy cy in
      let denom = F.sub (F.mul rx sy) (F.mul ry sx) in
      let t = F.div (F.sub (F.mul (F.sub cx ax) sy) (F.mul (F.sub cy ay) sx)) denom in
      let u = F.div (F.sub (F.mul (F.sub cx ax) ry) (F.mul (F.sub cy ay) rx)) denom in
      let far = F.sub F.one C.margin in
      if F.lt (abs denom) C.parallel
      then none
      else if F.le t C.margin || F.le far t || F.le u C.margin || F.le far u
      then none
      else some (F.add ax (F.mul t rx), F.add ay (F.mul t ry))

  -- `Vertex nv; nv.x = ix; nv.y = iy;`
  unfoldable pub new_vertex : D × D → Vertex D
  new_vertex (x, y) = record { x = x; y = y; z = F.zero; name = []; params = [] }

  -- Where the drag from `down` to `up` crosses the lane.
  unfoldable pub crossing : D × D → D × D → List (Vertex D) → Edge D → Option (D × D)
  unfolding vertex_in segment_intersect
  crossing down up vertices ln = elim (vertex_in vertices ln.start_idx) [
    | none ↦ none
    | some va ↦ elim (vertex_in vertices ln.end_idx) [
      | none ↦ none
      | some vb ↦ segment_intersect down up (va.x, va.y) (vb.x, vb.y)
    ]
  ]

  -- The loop over the lanes, from index `i` on.
  unfoldable pub splits_from : D × D → D × D → List (Vertex D) → ℕ → List (Edge D) → List (Split D)
  unfolding crossing
  splits_from down up vertices i [] = []
  splits_from down up vertices i (ln ∷ lanes) =
      let rest = splits_from down up vertices (suc i) lanes in
      elim (crossing down up vertices ln) [
        | none ↦ rest
        | some (x, y) ↦ record { lane = i; at_x = x; at_y = y } ∷ rest
      ]

  -- One split: a new vertex, and two lanes that meet there in place of the one.
  unfoldable pub split_lane : {N : Type 0} → ℕ → D × D → Level D N → Level D N
  unfolding new_vertex delete_lane
  split_lane lane point level = elim (get_elem? level.lanes lane) [
    | none ↦ level
    | some orig ↦
        let new_vi = pos (length level.vertices) in
        let grown = record level { vertices = level.vertices ++ new_vertex point ∷ [] } in
        let without = delete_lane grown (pos lane) in
        record without {
          lanes =
              (without.lanes ++ record orig { end_idx = new_vi } ∷ [])
              ++ record orig { start_idx = new_vi } ∷ [];
        }
  ]

  unfoldable pub split_all : {N : Type 0} → List (Split D) → Level D N → Level D N
  unfolding split_lane
  split_all [] level = level
  split_all (s ∷ splits) level = split_all splits (split_lane s.lane (s.at_x, s.at_y) level)

  -- The release of a drag.
  unfoldable pub dissect : {N : Type 0} → D × D → D × D → Level D N → Level D N
  unfolding splits_from sort_desc split_all
  dissect down up level =
      split_all (sort_desc (splits_from down up level.vertices 0 level.lanes)) level
