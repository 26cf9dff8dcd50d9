-- ===== src/Building/Delete.antt =====
-- Deleting a vertex or a lane: model/building.cpp.
pub mod Joins
pub mod Bounds
use imrmf_map_editor.Base.{
  ℕ, zero, suc, ◌<◌, arith, ◌+◌, ◌-◌, ◌≡◌, Bool, true, false, not, ◌||◌, List, [], ◌∷◌, length,
  erase_idx, ltb, leb, if◌then◌else◌,
}
use imrmf_map_editor.Base.Int.{ℤ, pos, negsuc, ltb_ℤ, leb_ℤ, eqb_ℤ, pred_ℤ, pos_part, neg_part}
use imrmf_map_editor.Building.{Vertex, Edge, Floor, Level}

-- The indices of the lanes that touch a vertex; `i` is the loop's counter.
module _ {D : Type 0} where
  unfoldable pub touches : ℤ → Edge D → Bool
  touches v e = eqb_ℤ e.start_idx v || eqb_ℤ e.end_idx v

  lanes_from : ℕ → List (Edge D) → ℤ → List ℕ
  lanes_from i [] v = []
  lanes_from i (l ∷ lanes) v =
      let rest = lanes_from (suc i) lanes v in if touches v l then i ∷ rest else rest

unfoldable pub lanes_referencing_vertex : {D N : Type 0} → Level D N → ℤ → List ℕ
unfolding touches lanes_from
lanes_referencing_vertex level v = lanes_from 0 level.lanes v

-- `if (i > vertex_idx) --i;`
unfoldable pub shift : ℤ → ℤ → ℤ
shift v i = if ltb_ℤ v i then pred_ℤ i else i

-- Drops the edges that touch the vertex and shifts higher endpoints down by one.
unfoldable pub reindex_edges : {D : Type 0} → List (Edge D) → ℤ → List (Edge D)
unfolding touches shift
reindex_edges [] v = []
reindex_edges (e ∷ edges) v =
    let rest = reindex_edges edges v in
    if touches v e
    then rest
    else record e { start_idx = shift v e.start_idx; end_idx = shift v e.end_idx } ∷ rest

unfoldable pub reindex_loop : List ℤ → ℤ → List ℤ
unfolding shift
reindex_loop [] v = []
reindex_loop (i ∷ loop) v =
    let rest = reindex_loop loop v in if eqb_ℤ i v then rest else shift v i ∷ rest

-- The holes that keep three corners.
unfoldable pub reindex_holes : List (List ℤ) → ℤ → List (List ℤ)
unfolding reindex_loop
reindex_holes [] v = []
reindex_holes (hole ∷ holes) v =
    let h = reindex_loop hole v in
    let rest = reindex_holes holes v in if leb 3 (length h) then h ∷ rest else rest

-- The floors that keep three corners.
unfoldable pub reindex_floors : {D N : Type 0} → List (Floor D N) → ℤ → List (Floor D N)
unfolding reindex_loop reindex_holes
reindex_floors [] v = []
reindex_floors (f ∷ floors) v =
    let vertices = reindex_loop f.vertices v in
    let rest = reindex_floors floors v in
    if ltb (length vertices) 3
    then rest
    else record f { vertices = vertices; holes = reindex_holes f.holes v } ∷ rest

-- `vertex_idx < 0 || vertex_idx >= (int)size`, the early return of both deletions.
unfoldable pub out_of_range : ℤ → ℕ → Bool
out_of_range v size = ltb_ℤ v (pos 0) || leb_ℤ (pos size) v

in_range : (v size : ℕ) → v < size → out_of_range (pos v) size ≡ false
unfolding out_of_range
in_range v size h = ground arith

unfoldable pub delete_vertex : {D N : Type 0} → Level D N → ℤ → Level D N
unfolding out_of_range reindex_edges reindex_floors
delete_vertex level v = if out_of_range v (length level.vertices) then level else record level {
  lanes = reindex_edges level.lanes v;
  walls = reindex_edges level.walls v;
  doors = reindex_edges level.doors v;
  measurements = reindex_edges level.measurements v;
  floors = reindex_floors level.floors v;
  vertices = erase_idx level.vertices (pos_part v);
}

unfoldable pub delete_lane : {D N : Type 0} → Level D N → ℤ → Level D N
unfolding out_of_range
delete_lane level i =
    if out_of_range i (length level.lanes)
    then level
    else record level { lanes = erase_idx level.lanes (pos_part i) }

-- An index in range passes the early return.
pub delete_vertex_lem :
    {D N : Type 0} (level : Level D N) (v : ℕ)
    → v < length level.vertices
    → delete_vertex level (pos v) ≡ record level {
      lanes = reindex_edges level.lanes (pos v);
      walls = reindex_edges level.walls (pos v);
      doors = reindex_edges level.doors (pos v);
      measurements = reindex_edges level.measurements (pos v);
      floors = reindex_floors level.floors (pos v);
      vertices = erase_idx level.vertices v;
    }
unfolding delete_vertex
delete_vertex_lem level v h = rw (in_range v (length level.vertices) h)

pub delete_vertex_out :
    {D N : Type 0} (level : Level D N) (v : ℤ)
    → out_of_range v (length level.vertices) ≡ true
    → delete_vertex level v ≡ level
unfolding delete_vertex
delete_vertex_out level v h = rw h
