-- ===== src/View/Split/Tool.antt =====
-- The clicks of the lane tool (the release of the mouse in `draw_canvas` of view/editor_view.cpp).
use imrmf_map_editor.Base.{
  Bool, true, false, ◌&&◌, ◌||◌, Option, none, some, List, [], ◌∷◌, ◌++◌, length, get_elem?,
  if◌then◌else◌,
}
use imrmf_map_editor.Base.Int.{ℤ, pos, negsuc, pos_part, ltb_ℤ, leb_ℤ, eqb_ℤ}
use imrmf_map_editor.Base.Text.{Text, codes}
use imrmf_map_editor.Building.{Params, ParamValue, Vertex, Edge, Level, find}
use imrmf_map_editor.Building.ParamType.{string, int, bool}
use imrmf_map_editor.Building.Delete.{out_of_range}
use imrmf_map_editor.Building.Double.{Double}
use imrmf_map_editor.Yaml.{text_ltb, ◌>>=◌}
use imrmf_map_editor.View.Split.{
  Literals, vertex_in, abs, segment_intersect, new_vertex, split_lane, dissect,
}

-- What the tool keeps from one click to the next, of `EditorState`; an index of -1 is none.
pub record LaneTool (D N : Type 0) : Type 0 where
  pub level : Level D N
  pub pending_lane_start : ℤ
  pub selected_vertices : List ℤ
  pub selected_lanes : List ℤ

-- A new key in a `std::map`.
unfoldable pub insert_param : {D : Type 0} → Text → ParamValue D → Params D → Params D
unfolding text_ltb
insert_param k v [] = (k, v) ∷ []
insert_param k v ((j, w) ∷ params) =
    let rest = insert_param k v params in
    if text_ltb k j then (k, v) ∷ (j, w) ∷ params else (j, w) ∷ rest

unfoldable pub need : {D : Type 0} → Text → ParamValue D → Params D → Params D
unfolding insert_param find
need k v params = elim (find k params) [ none ↦ insert_param k v params | some w ↦ params ]

module _ {D : Type 0} (F : Double D) (C : Literals D) where
  abbrev blank_string : ParamValue D
  blank_string = record { type = string; s = []; i = pos 0; d = F.zero; b = false }

  unfoldable pub init_default_lane_params : Params D → Params D
  unfolding need
  init_default_lane_params params = need (codes "demo_mock_lift_name") blank_string (
      need (codes "demo_mock_floor_name") blank_string (
        need (codes "mutex") blank_string (
          need (codes "graph_idx") (record { type = int; s = []; i = pos 0; d = F.zero; b = false })
            (need (codes "orientation") blank_string (
              need (codes "bidirectional")
                (record { type = bool; s = []; i = pos 0; d = F.zero; b = true }) params)))))

  -- Onto an axis or a diagonal, whichever is near.
  unfoldable pub snap_axis_or_diagonal : D × D → D × D
  snap_axis_or_diagonal (dx, dy) =
      let adx = abs F C dx in
      let ady = abs F C dy in
      let m = F.mul (F.add adx ady) F.half in
      let sign = λ (d : D). if F.le F.zero d then F.one else F.neg F.one in
      if F.le (F.mul ady C.diagonal) adx
      then (dx, F.zero)
      else if F.le (F.mul adx C.diagonal) ady
      then (F.zero, dy)
      else (F.mul (sign dx) m, F.mul (sign dy) m)

  unfoldable pub snap_to_anchor : List (Vertex D) → ℤ → D × D → Bool → D × D
  unfolding vertex_in snap_axis_or_diagonal
  snap_to_anchor vertices anchor_idx (wx, wy) shift =
      elim (if shift then vertex_in vertices anchor_idx else none) [
        | none ↦ (wx, wy)
        | some a ↦
            let d = snap_axis_or_diagonal (F.sub wx a.x, F.sub wy a.y) in
            (F.add a.x d.0, F.add a.y d.1)
      ]

  -- The point of `lane_split_at` that is put onto the lane from `va` to `vb`: the cursor, or with the
  -- shift key the crossing of the snapped heading with the lane.
  unfoldable pub heading : List (Vertex D) → Vertex D → Vertex D → ℤ → D × D → Bool → Option (D × D)
  unfolding vertex_in snap_axis_or_diagonal segment_intersect
  heading vertices va vb anchor_idx (wx, wy) shift =
      elim (if shift then vertex_in vertices anchor_idx else none) [
        | none ↦ some (wx, wy)
        | some sv ↦
            let d = snap_axis_or_diagonal (F.sub wx sv.x, F.sub wy sv.y) in
            let dlen = F.sqrt (F.add (F.mul d.0 d.0) (F.mul d.1 d.1)) in
            let ex = F.sub vb.x va.x in
            let ey = F.sub vb.y va.y in
            let reach = F.mul (F.sqrt (F.add (F.mul ex ex) (F.mul ey ey))) (F.of_int (pos 1000)) in
            if F.lt dlen C.parallel
            then none
            else segment_intersect F C (sv.x, sv.y)
                (
                  F.add sv.x (F.mul (F.div d.0 dlen) reach),
                  F.add sv.y (F.mul (F.div d.1 dlen) reach),
                )
                (va.x, va.y) (vb.x, vb.y)
      ]

  -- The point on the lane, if it is not near an end.
  unfoldable pub foot : Vertex D → Vertex D → D × D → Option (D × D)
  foot va vb (px, py) =
      let ex = F.sub vb.x va.x in
      let ey = F.sub vb.y va.y in
      let len2 = F.add (F.mul ex ex) (F.mul ey ey) in
      let t = F.div (F.add (F.mul (F.sub px va.x) ex) (F.mul (F.sub py va.y) ey)) len2 in
      if F.le t C.margin || F.le (F.sub F.one C.margin) t
      then none
      else some (F.add va.x (F.mul ex t), F.add va.y (F.mul ey t))

  abbrev is_degenerate : Vertex D → Vertex D → Bool
  is_degenerate va vb =
      let ex = F.sub vb.x va.x in
      let ey = F.sub vb.y va.y in F.lt (F.add (F.mul ex ex) (F.mul ey ey)) C.degenerate

  -- The split of the lane, where `lane_idx` is in the result.
  unfoldable pub lane_split_at : {N : Type 0} → Level D N → ℤ → ℤ → D × D → Bool → Option (D × D)
  unfolding out_of_range vertex_in heading foot
  lane_split_at level lane_idx anchor_idx cursor shift = do
    ln ←
        if out_of_range lane_idx (length level.lanes)
        then none
        else get_elem? level.lanes (pos_part lane_idx)
    va ← vertex_in level.vertices ln.start_idx
    vb ← vertex_in level.vertices ln.end_idx
    point ←
        if is_degenerate va vb then none else heading level.vertices va vb anchor_idx cursor shift
    foot va vb point

  -- `extend_chain`
  unfoldable pub extend_chain : {N : Type 0} → ℤ → LaneTool D N → LaneTool D N
  unfolding init_default_lane_params
  extend_chain vi tool =
      let here = record tool {
        pending_lane_start = vi;
        selected_vertices = vi ∷ [];
        selected_lanes = [];
      } in
      let lane : Edge D = record {
        start_idx = tool.pending_lane_start;
        end_idx = vi;
        params = init_default_lane_params [];
      } in
      if ltb_ℤ tool.pending_lane_start (pos 0)
      then here
      else if eqb_ℤ tool.pending_lane_start vi
      then tool
      else record here { level = record tool.level { lanes = tool.level.lanes ++ lane ∷ [] } }

  -- `split_r`
  unfoldable pub click_split : {N : Type 0} → ℤ → ℤ → D × D → Bool → LaneTool D N → Option (D × D)
  unfolding lane_split_at
  click_split vidx lidx cursor shift tool =
      if leb_ℤ (pos 0) lidx && leb_ℤ (pos 0) tool.pending_lane_start && ltb_ℤ vidx (pos 0)
      then lane_split_at tool.level lidx tool.pending_lane_start cursor shift
      else none

  -- A click without a drag, at `cursor`, over the vertex and the lane that `hit_vertex` and `hit_lane`
  -- find.
  unfoldable pub click : {N : Type 0} → ℤ → ℤ → D × D → Bool → LaneTool D N → LaneTool D N
  unfolding click_split split_lane snap_to_anchor new_vertex extend_chain
  click vidx lidx cursor shift tool =
      let level = tool.level in
      let start = tool.pending_lane_start in
      let new_vi = pos (length level.vertices) in
      let point = snap_to_anchor level.vertices start cursor shift in
      if leb_ℤ (pos 0) vidx
      then extend_chain vidx tool
      else elim (click_split vidx lidx cursor shift tool) [
        | some at ↦
            extend_chain new_vi (record tool { level = split_lane F C (pos_part lidx) at level })
        | none ↦
            if leb_ℤ (pos 0) lidx && ltb_ℤ start (pos 0)
            then record tool { selected_lanes = lidx ∷ []; selected_vertices = [] }
            else extend_chain new_vi (record tool {
              level = record level { vertices = level.vertices ++ new_vertex F C point ∷ [] };
            })
      ]

  -- The release after a drag.
  unfoldable pub drag : {N : Type 0} → D × D → D × D → LaneTool D N → LaneTool D N
  unfolding dissect
  drag down up tool = record tool {
    level = dissect F C down up tool.level;
    pending_lane_start = negsuc 0;
    selected_vertices = [];
    selected_lanes = [];
  }
