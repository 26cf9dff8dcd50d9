-- ===== src/Canvas/Fill.antt =====
-- The filling of a polygon by clipping ears (`fill_simple_polygon` of canvas/canvas.cpp). A `float` is a
-- value of `D`. A read past the end of a vector, which C++ leaves undefined, is `none`.
pub mod Triangles
pub mod Enough
use imrmf_map_editor.Base.{
  ℕ, zero, suc, ◌+◌, ◌-◌, ◌%◌, Bool, true, false, not, ◌&&◌, ◌||◌, Option, none, some, List, [],
  ◌∷◌, ◌++◌, length, get_elem?, erase_idx, ltb, ◌==◌, if◌then◌else◌,
}
use imrmf_map_editor.Building.Double.{Double}
use imrmf_map_editor.Yaml.{◌>>=◌}

-- `ImVec2`
pub record Point (D : Type 0) : Type 0 where
  pub x : D
  pub y : D

-- The corners_at that `AddTriangleFilled` is given.
pub record Triangle (D : Type 0) : Type 0 where
  pub a : Point D
  pub b : Point D
  pub c : Point D

-- The indices of the polygon's points, counted from `i`.
unfoldable pub indices : {A : Type 0} → ℕ → List A → List ℕ
indices i [] = []
indices i (p ∷ pts) = i ∷ indices (suc i) pts

unfoldable pub reverse : {A : Type 0} → List A → List A
reverse [] = []
reverse (p ∷ pts) = reverse pts ++ p ∷ []

-- `pts[ia]`, `pts[ib]`, `pts[ic]`
unfoldable pub corners_at : {D : Type 0} → List (Point D) → ℕ → ℕ → ℕ → Option (Triangle D)
corners_at pts ia ib ic = do
  a ← get_elem? pts ia
  b ← get_elem? pts ib
  c ← get_elem? pts ic
  some (record { a = a; b = b; c = c })

-- The triangle of the three points that remain.
unfoldable pub last_triangle : {D : Type 0} → List (Point D) → List ℕ → Option (List (Triangle D))
unfolding corners_at
last_triangle pts idx = elim (length idx == 3) [
  | false ↦ some []
  | true ↦ do
    i0 ← get_elem? idx 0
    i1 ← get_elem? idx 1
    i2 ← get_elem? idx 2
    t ← corners_at pts i0 i1 i2
    some (t ∷ [])
]

module _ {D : Type 0} (F : Double D) where
  unfoldable pub cross : Point D → Point D → Point D → D
  cross u v w =
      F.sub (F.mul (F.sub v.x u.x) (F.sub w.y u.y)) (F.mul (F.sub v.y u.y) (F.sub w.x u.x))

  -- The sum over the sides from the first of the points to the last, which `first` follows.
  unfoldable area_from : Point D → D → List (Point D) → D
  area_from first a [] = a
  area_from first a (u ∷ []) = F.add a (F.sub (F.mul u.x first.y) (F.mul first.x u.y))
  area_from first a (u ∷ v ∷ pts) =
      area_from first (F.add a (F.sub (F.mul u.x v.y) (F.mul v.x u.y))) (v ∷ pts)

  unfoldable pub poly_signed_area2 : List (Point D) → D
  unfolding area_from
  poly_signed_area2 [] = F.zero
  poly_signed_area2 (p ∷ pts) = area_from p F.zero (p ∷ pts)

  unfoldable pub point_in_tri : Point D → Point D → Point D → Point D → Bool
  unfolding cross
  point_in_tri p a b c =
      let d1 = cross a b p in
      let d2 = cross b c p in
      let d3 = cross c a p in
      let neg = F.lt d1 F.zero || F.lt d2 F.zero || F.lt d3 F.zero in
      let pos = F.lt F.zero d1 || F.lt F.zero d2 || F.lt F.zero d3 in not (neg && pos)

  -- The loop over `j`: no other point of the polygon stands in the triangle.
  unfoldable pub no_point_inside : List (Point D) → ℕ → ℕ → ℕ → Triangle D → List ℕ → Option Bool
  unfolding point_in_tri
  no_point_inside pts ia ib ic t [] = some true
  no_point_inside pts ia ib ic t (ij ∷ idx) =
      let rest = no_point_inside pts ia ib ic t idx in
      if ij == ia || ij == ib || ij == ic
      then rest
      else get_elem? pts ij >>= (λ p. if point_in_tri p t.a t.b t.c then some false else rest)

  -- The body of the loop over `i`: the triangle, where it is an ear.
  unfoldable pub ear_at : List (Point D) → List ℕ → ℕ → Option (Option (Triangle D))
  unfolding cross no_point_inside corners_at
  ear_at pts idx i = do
    ia ← get_elem? idx ((i + length idx - 1) % length idx)
    ib ← get_elem? idx i
    ic ← get_elem? idx ((i + 1) % length idx)
    t ← corners_at pts ia ib ic
    ear ← if F.le (cross t.a t.b t.c) F.zero then some false else no_point_inside pts ia ib ic t idx
    some (if ear then some t else none)

  -- The loop over `i`, with the rounds it has left: the first ear.
  unfoldable pub first_ear : List (Point D) → List ℕ → ℕ → ℕ → Option (Option (ℕ × Triangle D))
  unfolding ear_at
  first_ear pts idx zero i = some none
  first_ear pts idx (suc left) i =
      let rest = first_ear pts idx left (suc i) in
      ear_at pts idx i >>= (λ found. elim found [ none ↦ rest | some t ↦ some (some (i, t)) ])

  -- The `while` loop, with the rounds that `guard` has left: the triangles drawn and the indices that
  -- remain.
  unfoldable pub clip : List (Point D) → ℕ → List ℕ → Option (List (Triangle D) × List ℕ)
  unfolding first_ear
  clip pts zero idx = some ([], idx)
  clip pts (suc left) idx = elim (ltb 3 (length idx)) [
    | false ↦ some ([], idx)
    | true ↦ first_ear pts idx (length idx) 0 >>= (λ found. elim found [
      | none ↦ some ([], idx)
      | some (i, t) ↦ clip pts left (erase_idx idx i) >>= (λ rest. some (t ∷ rest.0, rest.1))
    ])
  ]

  -- The triangles that are drawn, where the `while` loop makes `limit` rounds at most.
  unfoldable pub fill_within : ℕ → List (Point D) → Option (List (Triangle D))
  unfolding poly_signed_area2 reverse indices clip last_triangle
  fill_within limit polygon =
      let pts = if F.lt (poly_signed_area2 polygon) F.zero then reverse polygon else polygon in
      elim (ltb (length polygon) 3) [
        | true ↦ some []
        | false ↦ do
          clipped ← clip pts limit (indices 0 pts)
          last ← last_triangle pts clipped.1
          some (clipped.0 ++ last)
      ]

  unfoldable pub fill_simple_polygon : List (Point D) → Option (List (Triangle D))
  unfolding fill_within
  fill_simple_polygon polygon = fill_within 20000 polygon
