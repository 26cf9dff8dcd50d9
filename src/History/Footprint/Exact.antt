-- ===== src/History/Footprint/Exact.antt =====
-- `approx_footprint` (model/edit_history.cpp) against the sum without a machine word.
use imrmf_map_editor.Base.{ℕ, ◌+◌, ◌*◌, ◌%◌, ◌<◌, ◌≡◌, refl, List, [], ◌∷◌, arith, length, sum_by}
use imrmf_map_editor.Building.{Building, Level, Vertex, Edge, Floor, Fiducial, Layer}
use imrmf_map_editor.History.{size_mod, add_size}
use imrmf_map_editor.History.Footprint.{
  Sizes, param_bytes, mul_size, add_all, sum_size, edge_bytes, vec_bytes, vertex_bytes, floor_bytes,
  add_floors, layer_bytes, names_and_vectors, add_level, add_levels, approx_footprint,
}

abbrev pub edge_sum : {D : Type 0} → Edge D → ℕ
edge_sum e = length e.params * param_bytes

-- The size of a map as a plain sum over its parts.
module _ (S : Sizes) where
  open S use {
    building_size, level_size, vertex_size, lane_size, wall_size, door_size, measurement_size,
    floor_size, fiducial_size, layer_size, int_size, vector_size, text_capacity, capacity,
  }

  abbrev pub vertex_sum : {D : Type 0} → Vertex D → ℕ
  vertex_sum v = text_capacity v.name + length v.params * param_bytes

  abbrev pub hole_sum : {A : Type 0} → List A → ℕ
  hole_sum hole = capacity hole * int_size

  abbrev pub floor_sum : {D N : Type 0} → Floor D N → ℕ
  floor_sum f =
      capacity f.vertices * int_size
      + capacity f.holes * vector_size
      + length f.params * param_bytes
      + sum_by hole_sum f.holes

  abbrev pub fiducial_sum : {D : Type 0} → Fiducial D → ℕ
  fiducial_sum f = text_capacity f.name

  abbrev pub layer_sum : {D N : Type 0} → Layer D N → ℕ
  layer_sum l = text_capacity l.name + text_capacity l.filename

  abbrev pub vectors_sum : {D N : Type 0} → Level D N → ℕ
  vectors_sum l =
      capacity l.vertices * vertex_size
      + capacity l.lanes * lane_size
      + capacity l.walls * wall_size
      + capacity l.doors * door_size
      + capacity l.measurements * measurement_size
      + capacity l.floors * floor_size
      + capacity l.fiducials * fiducial_size
      + capacity l.layers * layer_size

  abbrev pub level_sum : {D N : Type 0} → Level D N → ℕ
  level_sum l =
      text_capacity l.name
      + text_capacity l.drawing_filename
      + vectors_sum l
      + sum_by vertex_sum l.vertices
      + sum_by edge_sum l.lanes
      + sum_by edge_sum l.walls
      + sum_by edge_sum l.doors
      + sum_by edge_sum l.measurements
      + sum_by floor_sum l.floors
      + sum_by fiducial_sum l.fiducials
      + sum_by layer_sum l.layers

  abbrev pub plain_footprint : {D N : Type 0} → Building D N → ℕ
  plain_footprint b =
      building_size
      + text_capacity b.name
      + text_capacity b.coordinate_system
      + text_capacity b.reference_level_name
      + capacity b.levels * level_size
      + sum_by level_sum b.levels

-- The loop adds, up to the width of the word, whatever each summand is congruent to.
add_all_mod {ℓ} :
    {A : Type ℓ} (f g : A → ℕ)
    → ((x : A) → f x % size_mod ≡ g x % size_mod)
    → (n : ℕ) (xs : List A) → add_all f n xs % size_mod ≡ (n + sum_by g xs) % size_mod
unfolding add_all sum_by add_size
add_all_mod f g e n [] = omega arith
add_all_mod f g e n (x ∷ xs) = omega (arith, add_all_mod f g e (add_size n (f x)) xs, e x)

add_all-lt {ℓ} :
    {A : Type ℓ} (f : A → ℕ) (n : ℕ) (xs : List A) → n < size_mod → add_all f n xs < size_mod
unfolding add_all add_size
add_all-lt f n [] h = h
add_all-lt f n (x ∷ xs) h = add_all-lt f (add_size n (f x)) xs (omega arith)

sum_size-lt : (xs : List ℕ) → sum_size xs < size_mod
unfolding sum_size
sum_size-lt xs = add_all-lt (λ n. n) 0 xs (omega arith)

module _ (S : Sizes) where
  open S use {int_size, vector_size, capacity}

  vertex_mod : {D : Type 0} (v : Vertex D) → vertex_bytes S v % size_mod ≡ vertex_sum S v % size_mod
  unfolding vertex_bytes add_size mul_size
  vertex_mod v = omega arith

  edge_mod : {D : Type 0} (e : Edge D) → edge_bytes e % size_mod ≡ edge_sum e % size_mod
  unfolding edge_bytes mul_size
  edge_mod e = omega arith

  layer_mod : {D N : Type 0} (l : Layer D N) → layer_bytes S l % size_mod ≡ layer_sum S l % size_mod
  unfolding layer_bytes add_size
  layer_mod l = omega arith

  hole_mod : {A : Type 0} (v : List A) → vec_bytes S int_size v % size_mod ≡ hole_sum S v % size_mod
  unfolding vec_bytes mul_size
  hole_mod v = omega arith

  add_floors_mod :
      {D N : Type 0} (n : ℕ) (floors : List (Floor D N))
      → add_floors S n floors % size_mod ≡ (n + sum_by (floor_sum S) floors) % size_mod
  unfolding add_floors sum_by floor_bytes add_size mul_size
  add_floors_mod n [] = omega arith
  add_floors_mod n (f ∷ floors) =
      let m = add_size n (floor_bytes S f) in
      omega (
        arith,
        add_floors_mod (add_all (vec_bytes S int_size) m f.holes) floors,
        add_all_mod (vec_bytes S int_size) (hole_sum S) hole_mod m f.holes,
      )

  names_and_vectors_mod :
      {D N : Type 0} (n : ℕ) (l : Level D N)
      → names_and_vectors S n l % size_mod
        ≡ (n + S.text_capacity l.name + S.text_capacity l.drawing_filename + vectors_sum S l)
          % size_mod
  unfolding names_and_vectors sum_size add_all add_size mul_size
  names_and_vectors_mod n l = omega arith

  add_level_mod :
      {D N : Type 0} (n : ℕ) (l : Level D N)
      → add_level S n l % size_mod ≡ (n + level_sum S l) % size_mod
  unfolding add_level sum_size
  add_level_mod n l =
      let n₀ = names_and_vectors S n l in
      let n₁ = add_all (vertex_bytes S) n₀ l.vertices in
      let n₂ = add_all edge_bytes n₁ l.lanes in
      let n₃ = add_all edge_bytes n₂ l.walls in
      let n₄ = add_all edge_bytes n₃ l.doors in
      let n₅ = add_all edge_bytes n₄ l.measurements in
      let n₆ = add_floors S n₅ l.floors in
      let n₇ = add_all (fiducial_sum S) n₆ l.fiducials in
      omega (
        arith,
        names_and_vectors_mod n l,
        add_all_mod (vertex_bytes S) (vertex_sum S) vertex_mod n₀ l.vertices,
        add_all_mod edge_bytes edge_sum edge_mod n₁ l.lanes,
        add_all_mod edge_bytes edge_sum edge_mod n₂ l.walls,
        add_all_mod edge_bytes edge_sum edge_mod n₃ l.doors,
        add_all_mod edge_bytes edge_sum edge_mod n₄ l.measurements,
        add_floors_mod n₅ l.floors,
        add_all_mod (fiducial_sum S) (fiducial_sum S) (λ f. refl) n₆ l.fiducials,
        add_all_mod (layer_bytes S) (layer_sum S) layer_mod n₇ l.layers,
      )

  add_levels_mod :
      {D N : Type 0} (n : ℕ) (levels : List (Level D N))
      → add_levels S n levels % size_mod ≡ (n + sum_by (level_sum S) levels) % size_mod
  unfolding add_levels sum_by
  add_levels_mod n [] = omega arith
  add_levels_mod n (l ∷ levels) =
      omega (arith, add_levels_mod (add_level S n l) levels, add_level_mod n l)

  add_floors-lt :
      {D N : Type 0} (n : ℕ) (floors : List (Floor D N))
      → n < size_mod
      → add_floors S n floors < size_mod
  unfolding add_floors add_size
  add_floors-lt n [] h = h
  add_floors-lt n (f ∷ floors) h =
      let m = add_size n (floor_bytes S f) in
      add_floors-lt (add_all (vec_bytes S int_size) m f.holes) floors
        (add_all-lt (vec_bytes S int_size) m f.holes (omega arith))

  add_level-lt : {D N : Type 0} (n : ℕ) (l : Level D N) → add_level S n l < size_mod
  unfolding add_level names_and_vectors add_size
  add_level-lt n l = add_all-lt (layer_bytes S) _ l.layers (
      add_all-lt _ _ l.fiducials (
        add_floors-lt _ l.floors (
          add_all-lt edge_bytes _ l.measurements (
            add_all-lt edge_bytes _ l.doors (
              add_all-lt edge_bytes _ l.walls (
                add_all-lt edge_bytes _ l.lanes
                  (add_all-lt (vertex_bytes S) _ l.vertices (omega arith))))))))

  -- What stands before the loop over the levels.
  abbrev start : {D N : Type 0} → Building D N → List ℕ
  start b =
      S.building_size
      ∷ S.text_capacity b.name
      ∷ S.text_capacity b.coordinate_system
      ∷ S.text_capacity b.reference_level_name
      ∷ vec_bytes S S.level_size b.levels
      ∷ []

  start_mod :
      {D N : Type 0} (b : Building D N)
      → sum_size (start b)
        ≡ (S.building_size
            + S.text_capacity b.name
            + S.text_capacity b.coordinate_system
            + S.text_capacity b.reference_level_name
            + S.capacity b.levels * S.level_size)
          % size_mod
  unfolding sum_size vec_bytes
  start_mod b = omega arith

  add_levels-lt :
      {D N : Type 0} (n : ℕ) (levels : List (Level D N))
      → n < size_mod
      → add_levels S n levels < size_mod
  unfolding add_levels
  add_levels-lt n [] h = h
  add_levels-lt n (l ∷ levels) h = add_levels-lt (add_level S n l) levels (add_level-lt n l)

  -- The estimate is the plain sum over every part of the map, modulo the width of `size_t`: each
  -- text, vector and parameter is counted once, and nothing else.
  pub approx_footprint-eq-sum :
      {D N : Type 0} (b : Building D N) → approx_footprint S b ≡ plain_footprint S b % size_mod
  unfolding approx_footprint
  approx_footprint-eq-sum b =
      let n = sum_size (start b) in
      omega (
        arith,
        add_levels_mod n b.levels,
        add_levels-lt n b.levels (sum_size-lt (start b)),
        start_mod b,
      )
