-- ===== src/History/Footprint.antt =====
-- The estimate of a map's size: `approx_footprint` of model/edit_history.cpp. What `sizeof` and
-- `capacity()` return is the compiler's and the library's choice: a parameter, with the capacity of
-- a text or a vector taken as a function of its contents. Sums are of `size_t`, 64 bits wide.
pub mod Exact
use imrmf_map_editor.Base.{ℕ, ◌+◌, ◌*◌, ◌%◌, List, [], ◌∷◌, length}
use imrmf_map_editor.Base.Int.{ℤ}
use imrmf_map_editor.Base.Text.{Text}
use imrmf_map_editor.Building.{Building, Level, Vertex, Edge, Floor, Fiducial, Layer, Params}
use imrmf_map_editor.History.{size_mod, add_size}

-- A map node holding a string key and a `ParamValue`.
abbrev pub param_bytes : ℕ
param_bytes = 96

pub record Sizes : Type 1 where
  pub building_size : ℕ
  pub level_size : ℕ
  pub vertex_size : ℕ
  pub lane_size : ℕ
  pub wall_size : ℕ
  pub door_size : ℕ
  pub measurement_size : ℕ
  pub floor_size : ℕ
  pub fiducial_size : ℕ
  pub layer_size : ℕ
  pub int_size : ℕ
  pub vector_size : ℕ
  pub text_capacity : Text → ℕ
  pub capacity : {A : Type 0} → List A → ℕ

mul_size : ℕ → ℕ → ℕ
mul_size a b = (a * b) % size_mod

-- `for (x : xs) n += f(x);`
add_all {ℓ} : {A : Type ℓ} → (A → ℕ) → ℕ → List A → ℕ
unfolding add_size
add_all f n [] = n
add_all f n (x ∷ xs) = add_all f (add_size n (f x)) xs

-- `a + b + c + ...`
sum_size : List ℕ → ℕ
unfolding add_all
sum_size = add_all (λ n. n) 0

params_bytes : {D : Type 0} → Params D → ℕ
unfolding mul_size
params_bytes p = mul_size (length p) param_bytes

edge_bytes : {D : Type 0} → Edge D → ℕ
unfolding params_bytes
edge_bytes e = params_bytes e.params

module _ (S : Sizes) where
  open S use {
    building_size, level_size, vertex_size, lane_size, wall_size, door_size, measurement_size,
    floor_size, fiducial_size, layer_size, int_size, vector_size, text_capacity, capacity,
  }

  vec_bytes : {A : Type 0} → ℕ → List A → ℕ
  unfolding mul_size
  vec_bytes size v = mul_size (capacity v) size

  vertex_bytes : {D : Type 0} → Vertex D → ℕ
  unfolding params_bytes add_size
  vertex_bytes v = add_size (text_capacity v.name) (params_bytes v.params)

  -- The fixed part of a floor; its holes are added one by one.
  floor_bytes : {D N : Type 0} → Floor D N → ℕ
  unfolding params_bytes vec_bytes add_size
  floor_bytes f =
      add_size (add_size (vec_bytes int_size f.vertices) (vec_bytes vector_size f.holes))
        (params_bytes f.params)

  add_floors : {D N : Type 0} → ℕ → List (Floor D N) → ℕ
  unfolding floor_bytes add_all vec_bytes
  add_floors n [] = n
  add_floors n (f ∷ floors) =
      add_floors (add_all (vec_bytes int_size) (add_size n (floor_bytes f)) f.holes) floors

  layer_bytes : {D N : Type 0} → Layer D N → ℕ
  unfolding add_size
  layer_bytes l = add_size (text_capacity l.name) (text_capacity l.filename)

  -- The texts of a level, and its vectors without what their elements hold.
  names_and_vectors : {D N : Type 0} → ℕ → Level D N → ℕ
  unfolding sum_size vec_bytes
  names_and_vectors n l =
      let names = add_size (text_capacity l.name) (text_capacity l.drawing_filename) in
      let vectors = sum_size (
        vec_bytes vertex_size l.vertices
        ∷ vec_bytes lane_size l.lanes
        ∷ vec_bytes wall_size l.walls
        ∷ vec_bytes door_size l.doors
        ∷ vec_bytes measurement_size l.measurements
        ∷ vec_bytes floor_size l.floors
        ∷ vec_bytes fiducial_size l.fiducials
        ∷ vec_bytes layer_size l.layers
        ∷ []) in
      add_size (add_size n names) vectors

  -- What a level adds to `n`.
  add_level : {D N : Type 0} → ℕ → Level D N → ℕ
  unfolding names_and_vectors add_all vertex_bytes edge_bytes add_floors layer_bytes
  add_level n l =
      let n = names_and_vectors n l in
      let n = add_all vertex_bytes n l.vertices in
      let n = add_all edge_bytes n l.lanes in
      let n = add_all edge_bytes n l.walls in
      let n = add_all edge_bytes n l.doors in
      let n = add_all edge_bytes n l.measurements in
      let n = add_floors n l.floors in
      let n = add_all (λ f. text_capacity f.name) n l.fiducials in add_all layer_bytes n l.layers

  add_levels : {D N : Type 0} → ℕ → List (Level D N) → ℕ
  unfolding add_level
  add_levels n [] = n
  add_levels n (l ∷ levels) = add_levels (add_level n l) levels

  unfoldable pub approx_footprint : {D N : Type 0} → Building D N → ℕ
  unfolding add_levels sum_size vec_bytes
  approx_footprint b =
      add_levels
        (sum_size (
          building_size
          ∷ text_capacity b.name
          ∷ text_capacity b.coordinate_system
          ∷ text_capacity b.reference_level_name
          ∷ vec_bytes level_size b.levels
          ∷ []))
        b.levels
