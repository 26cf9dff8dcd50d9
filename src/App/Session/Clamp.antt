-- ===== src/App/Session/Clamp.antt =====
-- Clamping the indices of the editor's state to a map (`clamp_state_to_building` of app/main.cpp).
use mathlib.Core.Path.{subst}
use imrmf_map_editor.Base.{
  ℕ, suc, ◌<◌, ◌≡◌, ◌≢◌, refl, sym, ◌∙◌, ap, true, false, some, List, [], ◌∷◌, arith, length,
  get_elem?, get_elem?-some, All,
}
use imrmf_map_editor.Base.Int.{ℤ, pos, negsuc, pos_part, ltb_ℤ}
use imrmf_map_editor.Building.{Building, Level}
use imrmf_map_editor.App.Session.{
  EditorState, clamp_sel, below_or_none, clamp_idx, clamp_to_level, clamp_state_to_building,
}

-- An index of one of `n`, and an index of one of `n` or none.
abbrev pub IsIn : ℕ → ℤ → Type 0
IsIn n i = (ltb_ℤ i (pos 0) ≡ false) × (ltb_ℤ i (pos n) ≡ true)

abbrev pub IsBelow : ℕ → ℤ → Type 0
IsBelow n i = ltb_ℤ i (pos n) ≡ true

-- The level in view is there, and the selections, the layers and the starts of a lane and of an edge
-- are parts of it. Nothing is said of a polygon under construction, of the vertex whose deletion is to
-- be confirmed, and of the indices of the tool that aligns floors.
pub record IsClamped {D N : Type 0} (b : Building D N) (s : EditorState) : Type 0 where
  pub level : Level D N
  pub in_view : get_elem? b.levels (pos_part s.level_idx) ≡ some level
  pub view : IsIn (length b.levels) s.level_idx
  pub vertices : All (IsIn (length level.vertices)) s.selected_vertices
  pub lanes : All (IsIn (length level.lanes)) s.selected_lanes
  pub walls : All (IsIn (length level.walls)) s.selected_walls
  pub doors : All (IsIn (length level.doors)) s.selected_doors
  pub measurements : All (IsIn (length level.measurements)) s.selected_measurements
  pub floor : IsBelow (length level.floors) s.selected_floor
  pub layer : IsBelow (length level.layers) s.selected_layer
  pub aligned : IsBelow (length level.layers) s.align_layer_idx
  pub lane_start : IsBelow (length level.vertices) s.pending_lane_start
  pub edge_start : IsBelow (length level.vertices) s.pending_edge_start

-- The other indices are as they were.
pub record IsUnclamped (s t : EditorState) : Type 0 where
  pub polygon : t.pending_polygon ≡ s.pending_polygon
  pub vertex_delete : t.pending_vertex_delete_idx ≡ s.pending_vertex_delete_idx
  pub target : t.align_floors_target ≡ s.align_floors_target
  pub sel_level : t.align_floors_sel_level ≡ s.align_floors_sel_level
  pub sel_idx : t.align_floors_sel_idx ≡ s.align_floors_sel_idx

clamp_sel-IsIn : (sel : List ℤ) (n : ℕ) → All (IsIn n) (clamp_sel sel n)
unfolding clamp_sel
clamp_sel-IsIn [] n = tt
clamp_sel-IsIn (i ∷ sel) n = ground (arith, clamp_sel-IsIn sel n)

below_or_none-IsBelow : (i : ℤ) (n : ℕ) → IsBelow n (below_or_none i n)
below_or_none-IsBelow (pos i) n = ground arith
below_or_none-IsBelow (negsuc i) n = ground arith

clamp_idx-IsIn : (i : ℤ) (last : ℕ) → IsIn (suc last) (clamp_idx i last)
clamp_idx-IsIn (pos i) last = ground arith
clamp_idx-IsIn (negsuc i) last = ground arith

-- A list of indices in range is kept as it is.
clamp_sel-kept : (sel : List ℤ) (n : ℕ) → All (IsIn n) sel → clamp_sel sel n ≡ sel
unfolding clamp_sel
clamp_sel-kept [] n h = refl
clamp_sel-kept (i ∷ sel) n h = ground (arith, h.0, clamp_sel-kept sel n h.1)

below_or_none-kept : (i : ℤ) (n : ℕ) → IsBelow n i → below_or_none i n ≡ i
below_or_none-kept (pos i) n h = ground (arith, h)
below_or_none-kept (negsuc i) n h = ground (arith, h)

clamp_idx-kept : (i : ℤ) (last : ℕ) → IsIn (suc last) i → clamp_idx i last ≡ i
clamp_idx-kept (pos i) last h = ground (arith, h)
clamp_idx-kept (negsuc i) last h = ground (arith, h)

below : (n : ℕ) (i : ℤ) → IsIn n i → pos_part i < n
below n (pos i) h = ground (arith, h)
below n (negsuc i) h = ground (arith, h)

pub nonempty : {A : Type 0} (xs : List A) → xs ≢ [] → (x : A) × (rest : List A) × (xs ≡ x ∷ rest)
nonempty [] h = absurd (h refl)
nonempty (x ∷ rest) h = (x, rest, refl)

module _ {D N : Type 0} where
  clamp_to_level-IsClamped :
      (b : Building D N) (level : Level D N) (i : ℤ) (s : EditorState)
      → get_elem? b.levels (pos_part i) ≡ some level
      → IsIn (length b.levels) i
      → IsClamped b (clamp_to_level level i s)
  unfolding clamp_to_level
  clamp_to_level-IsClamped b level i s at view = record {
    level = level;
    in_view = at;
    view = view;
    vertices = clamp_sel-IsIn s.selected_vertices (length level.vertices);
    lanes = clamp_sel-IsIn s.selected_lanes (length level.lanes);
    walls = clamp_sel-IsIn s.selected_walls (length level.walls);
    doors = clamp_sel-IsIn s.selected_doors (length level.doors);
    measurements = clamp_sel-IsIn s.selected_measurements (length level.measurements);
    floor = below_or_none-IsBelow s.selected_floor (length level.floors);
    layer = below_or_none-IsBelow s.selected_layer (length level.layers);
    aligned = below_or_none-IsBelow s.align_layer_idx (length level.layers);
    lane_start = below_or_none-IsBelow s.pending_lane_start (length level.vertices);
    edge_start = below_or_none-IsBelow s.pending_edge_start (length level.vertices);
  }

  -- What clamping comes to, where the map has a level.
  clamped :
      (b : Building D N) (first : Level D N) (levels : List (Level D N)) (s : EditorState)
      → b.levels ≡ first ∷ levels
      → (level : Level D N) × (get_elem? b.levels (pos_part (clamp_idx s.level_idx (length levels)))
          ≡ some level)
        × (clamp_state_to_building b s
            ≡ clamp_to_level level (clamp_idx s.level_idx (length levels)) s)
  unfolding clamp_state_to_building
  clamped b first levels s e =
      let i = clamp_idx s.level_idx (length levels) in
      let small = below (length (first ∷ levels)) i (clamp_idx-IsIn s.level_idx (length levels)) in
      let (level, at) = get_elem?-some (first ∷ levels) (pos_part i) small in
      (level, rw e at, rw (clamp_state_to_building, e, at) refl)

  clamp_to_level-IsUnclamped :
      (level : Level D N) (i : ℤ) (s : EditorState) → IsUnclamped s (clamp_to_level level i s)
  unfolding clamp_to_level
  clamp_to_level-IsUnclamped level i s = record {
    polygon = refl;
    vertex_delete = refl;
    target = refl;
    sel_level = refl;
    sel_idx = refl;
  }

  pub clamp_state_to_building-IsClamped :
      (b : Building D N) (s : EditorState)
      → b.levels ≢ []
      → IsClamped b (clamp_state_to_building b s) × IsUnclamped s (clamp_state_to_building b s)
  clamp_state_to_building-IsClamped b s some_level =
      let (first, levels, e) = nonempty b.levels some_level in
      let (level, at, same) = clamped b first levels s e in
      let i = clamp_idx s.level_idx (length levels) in
      subst (λ t. IsClamped b t × IsUnclamped s t) (sym same)
        (
          clamp_to_level-IsClamped b level i s at (
              subst (λ ls. IsIn (length ls) i) (sym e)
                (clamp_idx-IsIn s.level_idx (length levels))),
          clamp_to_level-IsUnclamped level i s,
        )

  clamp_to_level-kept :
      (b : Building D N) (s : EditorState) (v : IsClamped b s)
      → clamp_to_level v.level s.level_idx s ≡ s
  unfolding clamp_to_level
  clamp_to_level-kept b s v =
      rw
        (
          clamp_sel-kept s.selected_vertices (length v.level.vertices) v.vertices,
          clamp_sel-kept s.selected_lanes (length v.level.lanes) v.lanes,
          clamp_sel-kept s.selected_walls (length v.level.walls) v.walls,
          clamp_sel-kept s.selected_doors (length v.level.doors) v.doors,
          clamp_sel-kept s.selected_measurements (length v.level.measurements) v.measurements,
          below_or_none-kept s.selected_floor (length v.level.floors) v.floor,
          below_or_none-kept s.selected_layer (length v.level.layers) v.layer,
          below_or_none-kept s.align_layer_idx (length v.level.layers) v.aligned,
          below_or_none-kept s.pending_lane_start (length v.level.vertices) v.lane_start,
          below_or_none-kept s.pending_edge_start (length v.level.vertices) v.edge_start,
        )
        refl

  nonempty_of : (ls : List (Level D N)) (i : ℤ) → IsIn (length ls) i → ls ≢ []
  nonempty_of [] (pos i) h = absurd (omega (arith, below 0 (pos i) h))
  nonempty_of [] (negsuc i) h = absurd (omega (arith, below 0 (negsuc i) h))
  nonempty_of (l ∷ ls) i h = λ e. cc

  -- A level index in range is kept.
  pub clamp_state_to_building-level_idx :
      (b : Building D N) (s : EditorState)
      → IsIn (length b.levels) s.level_idx
      → (clamp_state_to_building b s).level_idx ≡ s.level_idx
  unfolding clamp_to_level
  clamp_state_to_building-level_idx b s view =
      let (first, levels, e) = nonempty b.levels (nonempty_of b.levels s.level_idx view) in
      let (level, at, same) = clamped b first levels s e in
      ap (λ (r : EditorState). r.level_idx) same
      ∙ clamp_idx-kept s.level_idx (length levels)
          (subst (λ ls. IsIn (length ls) s.level_idx) e view)

  -- A state that is in range is kept as it is.
  pub clamp_state_to_building-kept :
      (b : Building D N) (s : EditorState) → IsClamped b s → clamp_state_to_building b s ≡ s
  clamp_state_to_building-kept b s v =
      let (first, levels, e) = nonempty b.levels (nonempty_of b.levels s.level_idx v.view) in
      let same_idx =
        clamp_idx-kept s.level_idx (length levels)
          (subst (λ ls. IsIn (length ls) s.level_idx) e v.view) in
      let (level, at, same) = clamped b first levels s e in
      let same_level : level ≡ v.level = cc (at, v.in_view, same_idx) in
      same ∙ rw (same_idx, same_level) (clamp_to_level-kept b s v)
