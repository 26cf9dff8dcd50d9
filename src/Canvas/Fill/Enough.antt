-- ===== src/Canvas/Fill/Enough.antt =====
-- The bound of 20000 rounds in `fill_simple_polygon` (canvas/canvas.cpp) is enough.
use imrmf_map_editor.Base.{
  ℕ, zero, suc, ◌+◌, ◌≤◌, ◌<◌, ◌≡◌, refl, false, none, some, List, arith, length, erase_idx,
  length-erase_idx, Bool-cases, Option-cases, inl, inr, ltb,
}
use imrmf_map_editor.Building.Double.{Double}
use imrmf_map_editor.Canvas.Fill.{
  Point, Triangle, indices, reverse, poly_signed_area2, ear_at, first_ear, clip, fill_within,
  fill_simple_polygon,
}
use imrmf_map_editor.Canvas.Fill.Triangles.{length-indices, length-reverse}

module _ {D : Type 0} (F : Double D) where
  first_ear-below :
      (pts : List (Point D)) (idx : List ℕ) (left i j : ℕ) (t : Triangle D)
      → i + left ≡ length idx
      → first_ear F pts idx left i ≡ some (some (j, t))
      → j < length idx
  unfolding first_ear
  first_ear-below pts idx zero i j t e found = cc
  first_ear-below pts idx (suc left) i j t e found = elim (Option-cases (ear_at F pts idx i)) [
    | inl out ↦ absurd (cc (rw (first_ear, out) at found))
    | inr (none, no_ear) ↦
        first_ear-below pts idx left (suc i) j t (omega (arith, e))
          (rw (first_ear, no_ear) at found)
    | inr (some u, ear) ↦
        let same : i ≡ j = cc (rw (first_ear, ear) at found) in omega (arith, e, same)
  ]

  -- Each round clips an ear, so as many rounds as there are points beyond three are enough.
  clip-enough :
      (pts : List (Point D)) (left limit : ℕ) (idx : List ℕ)
      → length idx ≤ left + 3
      → left ≤ limit
      → clip F pts limit idx ≡ clip F pts left idx
  unfolding clip
  clip-enough pts zero zero idx h k = refl
  clip-enough pts zero (suc limit) idx h k = rw (clip, the_few) refl
    where
      the_few : ltb 3 (length idx) ≡ false
      the_few = ground (arith, h)
  clip-enough pts (suc left) zero idx h k = absurd (omega (arith, k))
  clip-enough pts (suc left) (suc limit) idx h k = elim (Bool-cases (ltb 3 (length idx))) [
    | inr few ↦ rw (clip, few) refl
    | inl many ↦ elim (Option-cases (first_ear F pts idx (length idx) 0)) [
      | inl out ↦ rw (clip, many, out) refl
      | inr (none, e) ↦ rw (clip, many, e) refl
      | inr (some (i, t), e) ↦
          let below = first_ear-below pts idx (length idx) 0 i t (omega arith) e in
          let fewer : length (erase_idx idx i) ≤ left + 3 =
            omega (arith, h, length-erase_idx idx i below) in
          rw (clip, many, e, clip-enough pts left limit (erase_idx idx i) fewer (omega (arith, k)))
            refl
    ]
  ]

  -- For a polygon of at most 20003 points the bound of 20000 rounds changes nothing: any larger bound
  -- draws the same triangles.
  pub fill_within-enough :
      (polygon : List (Point D)) (limit : ℕ)
      → length polygon ≤ 20003
      → 20000 ≤ limit
      → fill_within F limit polygon ≡ fill_simple_polygon F polygon
  unfolding fill_within fill_simple_polygon
  fill_within-enough polygon limit h k = elim (Bool-cases (ltb (length polygon) 3)) [
    | inl small ↦ rw (fill_within, fill_simple_polygon, small) refl
    | inr large ↦ elim (Bool-cases (F.lt (poly_signed_area2 F polygon) F.zero)) [
      | inl clockwise ↦
          rw
            (
              fill_within,
              fill_simple_polygon,
              large,
              clockwise,
              same (reverse polygon) (omega (arith, h, length-reverse polygon)),
            )
            refl
      | inr other ↦ rw (fill_within, fill_simple_polygon, large, other, same polygon h) refl
    ]
  ]
    where
      same :
          (pts : List (Point D))
          → length pts ≤ 20003
          → clip F pts limit (indices 0 pts) ≡ clip F pts 20000 (indices 0 pts)
      same pts few =
          clip-enough pts 20000 limit (indices 0 pts) (omega (arith, few, length-indices 0 pts)) k
