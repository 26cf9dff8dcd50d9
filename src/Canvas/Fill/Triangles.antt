-- ===== src/Canvas/Fill/Triangles.antt =====
-- The filling of a polygon (canvas/canvas.cpp) reads no vector past its end, and what it draws.
use imrmf_map_editor.Base.{
  ℕ, zero, suc, ◌+◌, ◌-◌, ◌%◌, ◌≤◌, ◌<◌, ◌≡◌, refl, Bool, true, false, Option, none, some, List, [],
  ◌∷◌, ◌++◌, arith, length, get_elem?, erase_idx, length-append, length-erase_idx, All, All-append,
  All-mono, All-erase_idx, get_elem?-All, Bool-cases, Option-cases, inl, inr, ◌==◌, ◌||◌, ltb,
  ==_iff,
}
use imrmf_map_editor.Building.Double.{Double}
use imrmf_map_editor.Yaml.{◌>>=◌}
use imrmf_map_editor.Canvas.Fill.{
  Point, Triangle, corners_at, indices, reverse, cross, poly_signed_area2, point_in_tri,
  no_point_inside, ear_at, first_ear, clip, last_triangle, fill_within, fill_simple_polygon,
}

All-reverse : {A : Type 0} (P : A → Type 0) (xs : List A) → All P xs → All P (reverse xs)
unfolding reverse
All-reverse P [] h = tt
All-reverse P (x ∷ xs) h = All-append P (reverse xs) (x ∷ []) (All-reverse P xs h.1) (h.0, tt)

pub length-reverse : {A : Type 0} (xs : List A) → length (reverse xs) ≡ length xs
unfolding reverse
length-reverse [] = refl
length-reverse (x ∷ xs) = omega (arith, length-append (reverse xs) (x ∷ []), length-reverse xs)

pub length-indices : {A : Type 0} (i : ℕ) (xs : List A) → length (indices i xs) ≡ length xs
unfolding indices
length-indices i [] = refl
length-indices i (x ∷ xs) = omega (arith, length-indices (suc i) xs)

indices-below :
    {A : Type 0} (n i : ℕ) (xs : List A) → i + length xs ≤ n → All (λ j. j < n) (indices i xs)
unfolding indices
indices-below n i [] h = tt
indices-below n i (x ∷ xs) h = (omega (arith, h), indices-below n (suc i) xs (omega (arith, h)))

abbrev pub Corners : {D : Type 0} → (Point D → Type 0) → Triangle D → Type 0
Corners P t = P t.a × P t.b × P t.c

-- An option as a list.
abbrev listed : {A : Type 0} → Option A → List A
listed none = []
listed (some x) = x ∷ []

module _ {D : Type 0} (F : Double D) (P : Point D → Type 0) (pts : List (Point D))
    (all : All P pts) where
  corners_at-Corners :
      (ia ib ic : ℕ)
      → ia < length pts
      → ib < length pts
      → ic < length pts
      → (t : Triangle D) × (corners_at pts ia ib ic ≡ some t) × Corners P t
  unfolding corners_at
  corners_at-Corners ia ib ic ha hb hc =
      let (a, ea, pa) = get_elem?-All P pts ia all ha in
      let (b, eb, pb) = get_elem?-All P pts ib all hb in
      let (c, ec, pc) = get_elem?-All P pts ic all hc in
      (record { a = a; b = b; c = c }, rw (ea, eb, ec) refl, (pa, pb, pc))

  no_point_inside-returns :
      (ia ib ic : ℕ) (t : Triangle D) (idx : List ℕ)
      → All (λ i. i < length pts) idx
      → (b : Bool) × (no_point_inside F pts ia ib ic t idx ≡ some b)
  unfolding no_point_inside
  no_point_inside-returns ia ib ic t [] h = (true, refl)
  no_point_inside-returns ia ib ic t (ij ∷ idx) h =
      let (rest, e) = no_point_inside-returns ia ib ic t idx h.1 in
      elim (Bool-cases (ij == ia || ij == ib || ij == ic)) [
        | inl same ↦ (rest, rw (same, e) refl)
        | inr other ↦
            let (p, ep, _) = get_elem?-All P pts ij all h.0 in
            elim (Bool-cases (point_in_tri F p t.a t.b t.c)) [
              | inl inside ↦ (false, rw (other, ep, inside) refl)
              | inr outside ↦ (rest, rw (other, ep, outside, e) refl)
            ]
      ]

  ear_at-returns :
      (idx : List ℕ) (i : ℕ)
      → All (λ i. i < length pts) idx
      → i < length idx
      → (found : Option (Triangle D)) × (ear_at F pts idx i ≡ some found)
        × All (Corners P) (listed found)
  unfolding ear_at
  ear_at-returns idx i h small =
      let (ia, ea, ha) =
        get_elem?-All (λ i. i < length pts) idx ((i + length idx - 1) % length idx) h
          (omega arith) in
      let (ib, eb, hb) = get_elem?-All (λ i. i < length pts) idx i h small in
      let (ic, ec, hc) =
        get_elem?-All (λ i. i < length pts) idx ((i + 1) % length idx) h (omega arith) in
      let (t, et, pt) = corners_at-Corners ia ib ic ha hb hc in
      let (free, ef) = no_point_inside-returns ia ib ic t idx h in
      elim (Bool-cases (F.le (cross F t.a t.b t.c) F.zero)) [
        | inl flat ↦ (none, rw (ea, eb, ec, et, flat) refl, tt)
        | inr turns ↦ elim (Bool-cases free) [
          | inl ear ↦ (some t, rw (ea, eb, ec, et, turns, ef, ear) refl, (pt, tt))
          | inr no_ear ↦ (none, rw (ea, eb, ec, et, turns, ef, no_ear) refl, tt)
        ]
      ]

  first_ear-returns :
      (idx : List ℕ) (left i : ℕ)
      → All (λ i. i < length pts) idx
      → i + left ≡ length idx
      → (found : Option (ℕ × Triangle D)) × (first_ear F pts idx left i ≡ some found)
        × All (λ ear. (ear.0 < length idx) × Corners P ear.1) (listed found)
  unfolding first_ear
  first_ear-returns idx zero i h e = (none, refl, tt)
  first_ear-returns idx (suc left) i h e =
      let (found, ef, pf) = ear_at-returns idx i h (omega (arith, e)) in
      elim (Option-cases found) [
        | inl no_ear ↦
            let (later, el, pl) = first_ear-returns idx left (suc i) h (omega (arith, e)) in
            (later, rw (ef, no_ear, el) refl, pl)
        | inr (t, ear) ↦
            (some (i, t), rw (ef, ear) refl, ((omega (arith, e), (rw ear at pf).0), tt))
      ]

  -- What the loop leaves: fewer indices by one for each triangle drawn.
  clip-returns :
      (left : ℕ) (idx : List ℕ)
      → All (λ i. i < length pts) idx
      → (rest : List (Triangle D) × List ℕ) × (clip F pts left idx ≡ some rest)
        × (length rest.0 + length rest.1 ≡ length idx)
        × (3 ≤ length idx → 3 ≤ length rest.1)
        × All (λ i. i < length pts) rest.1
        × All (Corners P) rest.0
  unfolding clip
  clip-returns zero idx h = (([], idx), refl, omega arith, λ k. k, h, tt)
  clip-returns (suc left) idx h = elim (Bool-cases (ltb 3 (length idx))) [
    | inr few ↦ (([], idx), rw (clip, few) refl, omega arith, λ k. k, h, tt)
    | inl many ↦
        let (found, ef, pf) = first_ear-returns idx (length idx) 0 h (omega arith) in
        elim (Option-cases found) [
          | inl no_ear ↦ (([], idx), rw (clip, many, ef, no_ear) refl, omega arith, λ k. k, h, tt)
          | inr ((i, t), ear) ↦
              let ((below, pt), _) = rw ear at pf in
              let (rest, er, el, ek, ei, et) =
                clip-returns left (erase_idx idx i) (All-erase_idx _ idx i h) in
              (
                (t ∷ rest.0, rest.1),
                rw (clip, many, ef, ear, er) refl,
                omega (arith, el, length-erase_idx idx i below),
                (λ k. ek (ground (arith, many, length-erase_idx idx i below))),
                ei,
                (pt, et),
              )
        ]
  ]

  last_triangle-returns :
      (idx : List ℕ)
      → All (λ i. i < length pts) idx
      → 3 ≤ length idx
      → (last : List (Triangle D)) × (last_triangle pts idx ≡ some last)
        × (length last + 2 ≤ length idx)
        × All (Corners P) last
  unfolding last_triangle
  last_triangle-returns idx h k = elim (Bool-cases (length idx == 3)) [
    | inr more ↦ ([], rw (last_triangle, more) refl, omega (arith, k), tt)
    | inl exactly ↦
        let three = (==_iff (length idx) 3).0 exactly in
        let (i0, e0, h0) = get_elem?-All (λ i. i < length pts) idx 0 h (omega (arith, three)) in
        let (i1, e1, h1) = get_elem?-All (λ i. i < length pts) idx 1 h (omega (arith, three)) in
        let (i2, e2, h2) = get_elem?-All (λ i. i < length pts) idx 2 h (omega (arith, three)) in
        let (t, et, pt) = corners_at-Corners i0 i1 i2 h0 h1 h2 in
        (t ∷ [], rw (last_triangle, exactly, e0, e1, e2, et) refl, omega (arith, three), (pt, tt))
  ]

  drawn :
      (limit : ℕ)
      → 3 ≤ length pts
      → (tris : List (Triangle D)) × (clip F pts limit (indices 0 pts)
            >>= (λ clipped. last_triangle pts clipped.1 >>= (λ last. some (clipped.0 ++ last)))
          ≡ some tris)
        × (length tris + 2 ≤ length pts)
        × All (Corners P) tris
  drawn limit k =
      let (rest, er, el, ek, ei, et) =
        clip-returns limit (indices 0 pts) (indices-below (length pts) 0 pts (omega arith)) in
      let (last, e, short, pl) =
        last_triangle-returns rest.1 ei (ek (omega (arith, k, length-indices 0 pts))) in
      (
        rest.0 ++ last,
        rw (er, e) refl,
        omega (arith, el, short, length-append rest.0 last, length-indices 0 pts),
        All-append (Corners P) rest.0 last et pl,
      )

abbrev pub IsPointOf : {D : Type 0} → List (Point D) → Point D → Type 0
IsPointOf polygon p = (i : ℕ) × (get_elem? polygon i ≡ some p)

All-IsPointOf : {D : Type 0} (polygon : List (Point D)) → All (IsPointOf polygon) polygon
All-IsPointOf [] = tt
All-IsPointOf (p ∷ pts) =
    ((0, refl), All-mono (λ q found. (suc found.0, found.1)) pts (All-IsPointOf pts))

-- What filling a polygon comes to: the triangles drawn, each of three of the polygon's points.
pub record IsDrawn {D : Type 0} (polygon : List (Point D)) (outcome : Option (List (Triangle D)))
    : Type 0 where
  pub triangles : List (Triangle D)
  pub returns : outcome ≡ some triangles
  pub few : length triangles ≤ length polygon - 2
  pub of_polygon : All (Corners (IsPointOf polygon)) triangles

-- Whatever the comparisons of the coordinates give, filling a polygon reads no vector past its end, and
-- draws at most two triangles fewer than the polygon has points (none below three points), each between
-- three points of the polygon.
pub fill_simple_polygon-IsDrawn :
    {D : Type 0} (F : Double D) (polygon : List (Point D))
    → IsDrawn polygon (fill_simple_polygon F polygon)
unfolding fill_simple_polygon fill_within
fill_simple_polygon-IsDrawn F polygon = elim (Bool-cases (ltb (length polygon) 3)) [
  | inl small ↦ record {
    triangles = [];
    returns = rw (fill_simple_polygon, fill_within, small) refl;
    few = omega arith;
    of_polygon = tt;
  }
  | inr large ↦ elim (Bool-cases (F.lt (poly_signed_area2 F polygon) F.zero)) [
    | inl clockwise ↦
        let (tris, e, few, from) =
          drawn F (IsPointOf polygon) (reverse polygon)
            (All-reverse (IsPointOf polygon) polygon (All-IsPointOf polygon)) 20000
            (ground (arith, large, length-reverse polygon)) in
        record {
          triangles = tris;
          returns = rw (fill_simple_polygon, fill_within, large, clockwise) e;
          few = omega (arith, few, length-reverse polygon);
          of_polygon = from;
        }
    | inr other ↦
        let (tris, e, few, from) =
          drawn F (IsPointOf polygon) polygon (All-IsPointOf polygon) 20000
            (ground (arith, large)) in
        record {
          triangles = tris;
          returns = rw (fill_simple_polygon, fill_within, large, other) e;
          few = omega (arith, few);
          of_polygon = from;
        }
  ]
]
