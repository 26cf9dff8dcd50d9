-- ===== src/Building/Delete/Joins.antt =====
-- What a deletion keeps: each surviving edge and corner still names the vertex that it named.
use imrmf_map_editor.Base.{
  ℕ, zero, suc, ◌+◌, ◌<◌, ◌≡◌, refl, ◌≢◌, true, false, not, Option, none, List, [], ◌∷◌, map, arith,
  length, get_elem?, erase_idx, filter, ltb, leb, Bool-cases, inl, inr, get_elem?-erase_idx_lt,
  get_elem?-erase_idx_ge,
}
use imrmf_map_editor.Base.Int.{ℤ, pos, negsuc, eqb_ℤ, eqb_ℤ_iff}
use imrmf_map_editor.Building.{Vertex, Edge, Floor, Level, Params}
use imrmf_map_editor.Building.Delete.{
  touches, shift, reindex_edges, reindex_loop, reindex_holes, reindex_floors, delete_vertex,
  delete_vertex_lem, lanes_from, lanes_referencing_vertex,
}

-- `vertices[i]`, where the index is in range.
abbrev pub vertex_at : {A : Type 0} → List A → ℤ → Option A
vertex_at vs (pos i) = get_elem? vs i
vertex_at vs (negsuc i) = none

-- An index other than the deleted one names, after the shift, the vertex that it named before.
pub vertex_at-shift :
    {A : Type 0} (vs : List A) (v : ℕ) (i : ℤ)
    → i ≢ pos v
    → vertex_at (erase_idx vs v) (shift (pos v) i) ≡ vertex_at vs i
unfolding shift
vertex_at-shift vs v (pos zero) h = ground (arith, get_elem?-erase_idx_lt vs v 0)
vertex_at-shift vs v (pos (suc i)) h =
    ground (arith, get_elem?-erase_idx_lt vs v (suc i), get_elem?-erase_idx_ge vs v i)
vertex_at-shift vs v (negsuc i) h = ground arith

-- What an edge means: the two vertices that it joins, and its parameters.
pub record Join (D : Type 0) : Type 0 where
  pub from : Option (Vertex D)
  pub to : Option (Vertex D)
  pub params : Params D

abbrev pub join : {D : Type 0} → List (Vertex D) → Edge D → Join D
join vs e = record {
  from = vertex_at vs e.start_idx;
  to = vertex_at vs e.end_idx;
  params = e.params;
}

abbrev pub spared : {D : Type 0} → ℤ → List (Edge D) → List (Edge D)
spared v = filter (λ e. not (touches v e))

touches-ne :
    {D : Type 0} (v : ℤ) (e : Edge D) → touches v e ≡ false → (e.start_idx ≢ v) × (e.end_idx ≢ v)
unfolding touches
touches-ne v e h = ground (arith, eqb_ℤ_iff e.start_idx v, eqb_ℤ_iff e.end_idx v)

reindex_edges-join :
    {D : Type 0} (vs : List (Vertex D)) (v : ℕ) (edges : List (Edge D))
    → map (join (erase_idx vs v)) (reindex_edges edges (pos v))
      ≡ map (join vs) (spared (pos v) edges)
unfolding reindex_edges
reindex_edges-join vs v [] = refl
reindex_edges-join vs v (e ∷ edges) = elim (Bool-cases (touches (pos v) e)) [
  | inl hit ↦ rw hit (reindex_edges-join vs v edges)
  | inr miss ↦
      let (s, t) = touches-ne (pos v) e miss in
      rw miss (
        cc (
          reindex_edges-join vs v edges,
          vertex_at-shift vs v e.start_idx s,
          vertex_at-shift vs v e.end_idx t,
        ))
]

-- Deleting a vertex keeps, in order, exactly the lanes, walls, doors and measurements that do not
-- touch it, and each still joins the two vertices that it joined before, with its parameters.
pub delete_vertex-join :
    {D N : Type 0} (level : Level D N) (v : ℕ)
    → v < length level.vertices
    → (map (join (delete_vertex level (pos v)).vertices) (delete_vertex level (pos v)).lanes
        ≡ map (join level.vertices) (spared (pos v) level.lanes))
      × (map (join (delete_vertex level (pos v)).vertices) (delete_vertex level (pos v)).walls
          ≡ map (join level.vertices) (spared (pos v) level.walls))
      × (map (join (delete_vertex level (pos v)).vertices) (delete_vertex level (pos v)).doors
          ≡ map (join level.vertices) (spared (pos v) level.doors))
      × (map
            (join (delete_vertex level (pos v)).vertices)
            (delete_vertex level (pos v)).measurements
          ≡ map (join level.vertices) (spared (pos v) level.measurements))
delete_vertex-join level v h = rw (delete_vertex_lem level v h) (
  reindex_edges-join level.vertices v level.lanes,
  reindex_edges-join level.vertices v level.walls,
  reindex_edges-join level.vertices v level.doors,
  reindex_edges-join level.vertices v level.measurements,
)

-- The lanes that the report lists and the lanes that a deletion keeps are all the lanes: the count
-- that the editor shows before a deletion is the number of lanes that goes.
lanes_from-reindex :
    {D : Type 0} (k : ℕ) (v : ℤ) (edges : List (Edge D))
    → length (reindex_edges edges v) + length (lanes_from k edges v) ≡ length edges
unfolding reindex_edges lanes_from
lanes_from-reindex k v [] = omega arith
lanes_from-reindex k v (e ∷ edges) = elim (Bool-cases (touches v e)) [
  | inl hit ↦ rw hit (omega (arith, lanes_from-reindex (suc k) v edges))
  | inr miss ↦ rw miss (omega (arith, lanes_from-reindex (suc k) v edges))
]

-- The lanes that `lanes_referencing_vertex` lists for a vertex of the level are as many as the
-- deletion of that vertex drops.
pub lanes_referencing_vertex-delete :
    {D N : Type 0} (level : Level D N) (v : ℕ)
    → v < length level.vertices
    → length (delete_vertex level (pos v)).lanes + length (lanes_referencing_vertex level (pos v))
      ≡ length level.lanes
unfolding lanes_referencing_vertex
lanes_referencing_vertex-delete level v h =
    rw (delete_vertex_lem level v h) (lanes_from-reindex 0 (pos v) level.lanes)

-- What a floor means: its corners and the corners of its holes.
pub record Outline (D N : Type 0) : Type 0 where
  pub corners : List (Option (Vertex D))
  pub holes : List (List (Option (Vertex D)))
  pub params : Params D
  pub passthrough : N

abbrev pub outline : {D N : Type 0} → List (Vertex D) → Floor D N → Outline D N
outline vs f = record {
  corners = map (vertex_at vs) f.vertices;
  holes = map (map (vertex_at vs)) f.holes;
  params = f.params;
  passthrough = f.passthrough;
}

abbrev pub other_corners : ℤ → List ℤ → List ℤ
other_corners v = filter (λ i. not (eqb_ℤ i v))

abbrev pub polygons : List (List ℤ) → List (List ℤ)
polygons = filter (λ h. leb 3 (length h))

-- A floor without one of its corners, its holes without it, and no hole of under three corners.
abbrev pub without_corner : {D N : Type 0} → ℤ → Floor D N → Floor D N
without_corner v f = record f {
  vertices = other_corners v f.vertices;
  holes = polygons (map (other_corners v) f.holes);
}

abbrev pub areas : {D N : Type 0} → List (Floor D N) → List (Floor D N)
areas = filter (λ f. leb 3 (length f.vertices))

reindex_loop-corners :
    {D : Type 0} (vs : List (Vertex D)) (v : ℕ) (loop : List ℤ)
    → map (vertex_at (erase_idx vs v)) (reindex_loop loop (pos v))
      ≡ map (vertex_at vs) (other_corners (pos v) loop)
unfolding reindex_loop
reindex_loop-corners vs v [] = refl
reindex_loop-corners vs v (i ∷ loop) = elim (Bool-cases (eqb_ℤ i (pos v))) [
  | inl same ↦ rw same (reindex_loop-corners vs v loop)
  | inr other ↦ rw other (
      cc (
        reindex_loop-corners vs v loop,
        vertex_at-shift vs v i (λ e. ground (arith, eqb_ℤ_iff i (pos v))),
      ))
]

length-reindex_loop :
    (v : ℤ) (loop : List ℤ) → length (reindex_loop loop v) ≡ length (other_corners v loop)
unfolding reindex_loop
length-reindex_loop v [] = refl
length-reindex_loop v (i ∷ loop) = ground (arith, length-reindex_loop v loop)

reindex_holes-corners :
    {D : Type 0} (vs : List (Vertex D)) (v : ℕ) (holes : List (List ℤ))
    → map (map (vertex_at (erase_idx vs v))) (reindex_holes holes (pos v))
      ≡ map (map (vertex_at vs)) (polygons (map (other_corners (pos v)) holes))
unfolding reindex_holes
reindex_holes-corners vs v [] = refl
reindex_holes-corners vs v (hole ∷ holes) =
    rw (length-reindex_loop (pos v) hole)
      (elim (Bool-cases (leb 3 (length (other_corners (pos v) hole)))) [
        | inl keep ↦ rw keep (cc (reindex_loop-corners vs v hole, reindex_holes-corners vs v holes))
        | inr drop ↦ rw drop (reindex_holes-corners vs v holes)
      ])

not_less : (n : ℕ) → leb 3 n ≡ true → ltb n 3 ≡ false
not_less n h = ground arith

less : (n : ℕ) → leb 3 n ≡ false → ltb n 3 ≡ true
less n h = ground arith

reindex_floors-outline :
    {D N : Type 0} (vs : List (Vertex D)) (v : ℕ) (floors : List (Floor D N))
    → map (outline (erase_idx vs v)) (reindex_floors floors (pos v))
      ≡ map (outline vs) (areas (map (without_corner (pos v)) floors))
unfolding reindex_floors
reindex_floors-outline vs v [] = refl
reindex_floors-outline vs v (f ∷ floors) =
    rw (length-reindex_loop (pos v) f.vertices)
      (elim (Bool-cases (leb 3 (length (other_corners (pos v) f.vertices)))) [
        | inl keep ↦
            rw (not_less (length (other_corners (pos v) f.vertices)) keep, keep)
              (cc (
                reindex_loop-corners vs v f.vertices,
                reindex_holes-corners vs v f.holes,
                reindex_floors-outline vs v floors,
              ))
        | inr drop ↦
            rw (less (length (other_corners (pos v) f.vertices)) drop, drop)
              (reindex_floors-outline vs v floors)
      ])

-- Deleting a vertex takes it out of every floor's outline and of every hole, drops the holes and
-- then the floors left with under three corners, and moves no corner of the others.
pub delete_vertex-outline :
    {D N : Type 0} (level : Level D N) (v : ℕ)
    → v < length level.vertices
    → map (outline (delete_vertex level (pos v)).vertices) (delete_vertex level (pos v)).floors
      ≡ map (outline level.vertices) (areas (map (without_corner (pos v)) level.floors))
delete_vertex-outline level v h =
    rw (delete_vertex_lem level v h) (reindex_floors-outline level.vertices v level.floors)
