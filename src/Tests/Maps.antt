-- ===== src/Tests/Maps.antt =====
-- Sample maps, over numbers for `double` and the unit type for YAML nodes, and deletions on them.
use imrmf_map_editor.Base.{ℕ, ◌≡◌, refl, true, [], ◌∷◌, map, arith}
use imrmf_map_editor.Base.Int.{pos}
use imrmf_map_editor.Base.Text.{Text, codes}
use imrmf_map_editor.Building.{Vertex, Edge, Layer, Level, Building}
use imrmf_map_editor.Building.Delete.{delete_vertex, lanes_referencing_vertex}
use imrmf_map_editor.Building.Delete.Joins.{
  join, spared, outline, areas, without_corner, delete_vertex-join, delete_vertex-outline,
}
use imrmf_map_editor.Building.Delete.Bounds.{IsWellIndexed, delete_vertex-IsWellIndexed}

abbrev pub Node : Type 0
Node = Unit {0}

abbrev vertex : ℕ → Vertex ℕ
vertex x = record { x = x; y = 0; z = 0; name = []; params = [] }

abbrev edge : ℕ → ℕ → Edge ℕ
edge a b = record { start_idx = pos a; end_idx = pos b; params = [] }

abbrev pub layer : Text → Layer ℕ Node
layer filename = record {
  name = filename;
  filename = filename;
  visible = true;
  color_r = 1;
  color_g = 1;
  color_b = 1;
  color_a = 1;
  scale = 1;
  yaw = 0;
  translation_x = 0;
  translation_y = 0;
  passthrough = tt;
}

-- Five vertices, three lanes, a wall, a quadrangle with a triangular hole, and a triangle.
abbrev pub level : Level ℕ Node
level = record {
  name = codes "L1";
  elevation = 0;
  drawing_filename = codes "a.png";
  vertices = vertex 10 ∷ vertex 11 ∷ vertex 12 ∷ vertex 13 ∷ vertex 14 ∷ [];
  lanes = edge 0 1 ∷ edge 1 2 ∷ edge 2 4 ∷ [];
  walls = edge 3 4 ∷ [];
  doors = [];
  measurements = edge 0 4 ∷ [];
  floors =
      record {
        vertices = pos 0 ∷ pos 1 ∷ pos 2 ∷ pos 4 ∷ [];
        holes = (pos 1 ∷ pos 2 ∷ pos 3 ∷ []) ∷ [];
        params = [];
        passthrough = tt;
      }
      ∷ record { vertices = pos 1 ∷ pos 2 ∷ pos 3 ∷ []; holes = []; params = []; passthrough = tt }
      ∷ [];
  fiducials = [];
  layers = layer (codes "layers/b.png") ∷ layer (codes "../c.png") ∷ layer (codes "a.png") ∷ [];
  passthrough = tt;
  mpp_snapshot = 0;
}

abbrev pub building : Building ℕ Node
building = record {
  name = codes "lobby";
  coordinate_system = [];
  reference_level_name = [];
  levels = level ∷ [];
  passthrough = tt;
}

-- Without vertex 1 one lane is left, shifted, and the triangle and the hole are gone.
deleted_lanes :
    ((delete_vertex level (pos 1)).lanes ≡ edge 1 3 ∷ [])
    × (map (λ f. f.vertices) (delete_vertex level (pos 1)).floors
        ≡ (pos 0 ∷ pos 1 ∷ pos 3 ∷ []) ∷ [])
    × (map (λ f. f.holes) (delete_vertex level (pos 1)).floors ≡ [] ∷ [])
    × (lanes_referencing_vertex level (pos 1) ≡ 0 ∷ 1 ∷ [])
unfolding delete_vertex lanes_referencing_vertex
deleted_lanes = (refl, refl, refl, refl)

level-IsWellIndexed : IsWellIndexed level
level-IsWellIndexed = omega arith

delete_vertex-join_example :
    (map (join (delete_vertex level (pos 1)).vertices) (delete_vertex level (pos 1)).lanes
      ≡ map (join level.vertices) (spared (pos 1) level.lanes))
    × (map (join (delete_vertex level (pos 1)).vertices) (delete_vertex level (pos 1)).walls
        ≡ map (join level.vertices) (spared (pos 1) level.walls))
    × (map (join (delete_vertex level (pos 1)).vertices) (delete_vertex level (pos 1)).doors
        ≡ map (join level.vertices) (spared (pos 1) level.doors))
    × (map (join (delete_vertex level (pos 1)).vertices) (delete_vertex level (pos 1)).measurements
        ≡ map (join level.vertices) (spared (pos 1) level.measurements))
delete_vertex-join_example = delete_vertex-join level 1 (omega arith)

delete_vertex-outline_example :
    map (outline (delete_vertex level (pos 1)).vertices) (delete_vertex level (pos 1)).floors
    ≡ map (outline level.vertices) (areas (map (without_corner (pos 1)) level.floors))
delete_vertex-outline_example = delete_vertex-outline level 1 (omega arith)

delete_vertex-IsWellIndexed_example : IsWellIndexed (delete_vertex level (pos 2))
delete_vertex-IsWellIndexed_example = delete_vertex-IsWellIndexed level (pos 2) level-IsWellIndexed
