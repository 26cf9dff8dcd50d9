-- ===== src/App/Session.antt =====
-- The map that is open: recording edits, undoing them, and taking over what other editors did
-- (app/main.cpp, in its desktop form). The map in the document that is shared with them is told by the
-- caller; what is pushed to it is kept. None is an exception that nothing there catches.
pub mod Clamp
pub mod Mirror
pub mod Undo
use imrmf_map_editor.Base.{
  ℕ, zero, suc, Bool, true, false, not, ◌&&◌, ◌||◌, Option, none, some, List, [], ◌∷◌, ◌++◌, map,
  length, get_elem?, filter, if◌then◌else◌,
}
use imrmf_map_editor.Base.Int.{ℤ, pos, negsuc, pos_part, ltb_ℤ, leb_ℤ}
use imrmf_map_editor.Base.Text.{Text, is_empty, text_eq}
use imrmf_map_editor.Building.{Building, Level}
use imrmf_map_editor.Building.Double.{Double}
use imrmf_map_editor.History.{EditHistory, commit, undo, redo}
use imrmf_map_editor.Bundle.Interface.{Codec}

-- The indices that the editor keeps into the map; -1 is none.
pub record EditorState : Type 0 where
  pub level_idx : ℤ
  pub selected_vertices : List ℤ
  pub selected_lanes : List ℤ
  pub selected_walls : List ℤ
  pub selected_doors : List ℤ
  pub selected_measurements : List ℤ
  pub selected_floor : ℤ
  pub selected_layer : ℤ
  pub align_layer_idx : ℤ
  pub pending_lane_start : ℤ
  pub pending_edge_start : ℤ
  pub pending_polygon : List ℤ
  pub pending_vertex_delete_idx : ℤ
  pub align_floors_target : ℤ
  pub align_floors_sel_level : ℤ
  pub align_floors_sel_idx : ℤ

-- The globals `g_building`, `g_state`, `g_state.dirty`, `g_dirty_since`, `g_history`,
-- `g_serverless_session`, the flag of `rmf_yjs_remote_dirty`, and what was pushed.
pub record OpenMap (D N : Type 0) : Type 0 where
  pub building : Building D N
  pub state : EditorState
  pub dirty : Bool
  pub dirty_since : D
  pub history : EditHistory (Building D N)
  pub serverless : Bool
  pub remote_dirty : Bool
  pub pushed : List Text

-- `clamp_sel`
unfoldable pub clamp_sel : List ℤ → ℕ → List ℤ
clamp_sel sel n = filter (λ i. not (ltb_ℤ i (pos 0) || leb_ℤ (pos n) i)) sel

-- `if (idx >= n) idx = -1;`
abbrev pub below_or_none : ℤ → ℕ → ℤ
below_or_none idx n = if leb_ℤ (pos n) idx then negsuc 0 else idx

-- `max(0, min(idx, last))`
abbrev pub clamp_idx : ℤ → ℕ → ℤ
clamp_idx idx last =
    let low = if ltb_ℤ (pos last) idx then pos last else idx in
    if ltb_ℤ low (pos 0) then pos 0 else low

module _ {D N : Type 0} where
  clamp_to_level : Level D N → ℤ → EditorState → EditorState
  unfolding clamp_sel
  clamp_to_level cur level_idx state = record state {
    level_idx = level_idx;
    selected_vertices = clamp_sel state.selected_vertices (length cur.vertices);
    selected_lanes = clamp_sel state.selected_lanes (length cur.lanes);
    selected_walls = clamp_sel state.selected_walls (length cur.walls);
    selected_doors = clamp_sel state.selected_doors (length cur.doors);
    selected_measurements = clamp_sel state.selected_measurements (length cur.measurements);
    selected_floor = below_or_none state.selected_floor (length cur.floors);
    selected_layer = below_or_none state.selected_layer (length cur.layers);
    align_layer_idx = below_or_none state.align_layer_idx (length cur.layers);
    pending_lane_start = below_or_none state.pending_lane_start (length cur.vertices);
    pending_edge_start = below_or_none state.pending_edge_start (length cur.vertices);
  }

  -- The level at a clamped index is there.
  unfoldable pub clamp_state_to_building : Building D N → EditorState → EditorState
  unfolding clamp_to_level
  clamp_state_to_building b state = elim b.levels [
    | [] ↦ state
    | level ∷ levels ↦
        let level_idx = clamp_idx state.level_idx (length levels) in
        elim (get_elem? (level ∷ levels) (pos_part level_idx)) [
          | none ↦ state
          | some cur ↦ clamp_to_level cur level_idx state
        ]
  ]

  -- The first of the old levels of that name whose scale was taken lends it.
  unfoldable keep_mpp : Double D → List (Level D N) → Level D N → Level D N
  keep_mpp F [] lvl = lvl
  keep_mpp F (old ∷ olds) lvl =
      let rest = keep_mpp F olds lvl in
      if text_eq old.name lvl.name && F.lt F.zero old.mpp_snapshot
      then record lvl { mpp_snapshot = old.mpp_snapshot }
      else rest

  -- The loop for `found`: the first level of that name, from an index on.
  unfoldable pub find_level : Text → ℕ → List (Level D N) → Option ℕ
  find_level name i [] = none
  find_level name i (l ∷ levels) = elim (text_eq l.name name) [
    | true ↦ some i
    | false ↦ find_level name (suc i) levels
  ]

  -- The name of the level in view, empty where the index is out of range.
  unfoldable pub level_name : Building D N → EditorState → Text
  level_name b state =
      if ltb_ℤ state.level_idx (pos 0)
      then []
      else elim (get_elem? b.levels (pos_part state.level_idx)) [ none ↦ [] | some l ↦ l.name ]

  -- What `mirror_from_yjs` does with a map that has levels.
  unfoldable pub take_over : Double D → Building D N → OpenMap D N → OpenMap D N
  unfolding keep_mpp find_level level_name clamp_state_to_building
  take_over F b s =
      let mine = record b { levels = map (keep_mpp F s.building.levels) b.levels } in
      let level_idx : ℤ = elim (find_level (level_name s.building s.state) 0 mine.levels) [
        | none ↦ s.state.level_idx
        | some found ↦ pos found
      ] in
      record s {
        building = mine;
        state = clamp_state_to_building mine (record (s.state) { level_idx = level_idx });
        dirty = false;
      }

module _ {D N : Type 0} (F : Double D) (footprint : Building D N → ℕ) (C : Codec D N) where
  unfoldable pub commit_history : OpenMap D N → OpenMap D N
  unfolding commit
  commit_history s =
      if s.dirty
      then record s {
        history = commit footprint s.history s.building;
        dirty = false;
        dirty_since = F.zero;
      }
      else s

  -- Where a step gives a map back, the indices are clamped to it.
  restore : EditHistory (Building D N) × Option (Building D N) → OpenMap D N → OpenMap D N
  unfolding clamp_state_to_building
  restore (history, none) s = record s { history = history }
  restore (history, some b) s = record s {
    history = history;
    building = b;
    state = clamp_state_to_building b s.state;
  }

  unfoldable pub history_undo : OpenMap D N → OpenMap D N
  unfolding restore undo
  history_undo s = restore (undo footprint s.history) s

  unfoldable pub history_redo : OpenMap D N → OpenMap D N
  unfolding restore redo
  history_redo s = restore (redo footprint s.history) s

  unfoldable pub commit_pending_edits : OpenMap D N → Option (OpenMap D N)
  unfolding commit_history
  commit_pending_edits s =
      if not s.dirty
      then some s
      else if s.serverless
      then some (commit_history s)
      else elim (C.serialize_building s.building) [
        | none ↦ none
        | some yaml ↦
            some (record s { pushed = yaml ∷ s.pushed; dirty = false; dirty_since = F.zero })
      ]

  -- `kSettle` and `kMaxHold` come from the caller, as the clock and the mouse do.
  unfoldable pub commit_pending_edits_if_settled :
      D → D → D → Bool → OpenMap D N → Option (OpenMap D N)
  unfolding commit_pending_edits
  commit_pending_edits_if_settled settle max_hold now editing s =
      let unset = F.le s.dirty_since F.zero && F.le F.zero s.dirty_since in
      let since = if unset then now else s.dirty_since in
      let waiting = record s { dirty_since = since } in
      if not s.dirty
      then some (record s { dirty_since = F.zero })
      else if F.lt (F.sub now since) (if editing then max_hold else settle)
      then some waiting
      else commit_pending_edits waiting

  -- `busy`: the mouse is down, or a text is typed. `snapshot` is the map in the document.
  unfoldable pub mirror_from_yjs : Bool → Option Text → OpenMap D N → Option (OpenMap D N)
  unfolding commit_pending_edits take_over
  mirror_from_yjs busy snapshot s =
      if not s.remote_dirty || busy then some s else elim (commit_pending_edits s) [
        | none ↦ none
        | some t ↦ elim snapshot [
          | none ↦ some t
          | some body ↦
              let cleared = record t { remote_dirty = false } in
              elim (if is_empty body then none else C.parse_building body) [
                | none ↦ some cleared
                | some b ↦ some (
                    if is_empty b.levels
                    then cleared
                    else record (take_over F b t) { remote_dirty = false })
              ]
        ]
      ]
