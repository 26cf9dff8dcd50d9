-- ===== src/View/Split/Fits.antt =====
-- A split of a lane (view/editor_view.cpp) keeps a level well indexed.
use mathlib.Core.Path.{subst}
use imrmf_map_editor.Base.{
  ℕ, zero, suc, ◌+◌, ◌≤◌, ◌<◌, ◌≡◌, ap, ◌∙◌, some, List, [], ◌∷◌, ◌++◌, arith, length,
  length-append, get_elem?, if_true, if_false, All, All-append, All-mono, Option-cases, Bool-cases,
  inl, inr,
}
use imrmf_map_editor.Base.Int.{ℤ, pos, negsuc}
use imrmf_map_editor.Building.{Vertex, Edge, Floor, Level}
use imrmf_map_editor.Building.Delete.{out_of_range, delete_lane}
use imrmf_map_editor.Building.Delete.Bounds.{
  InRange, EdgeFits, IsLoop, FloorFits, IsWellIndexed, delete_lane-IsWellIndexed,
}
use imrmf_map_editor.Building.Double.{Double}
use imrmf_map_editor.View.Split.{Literals, Split, new_vertex, split_lane, split_all}

module _ (n m : ℕ) (h : n ≤ m) where
  pub InRange-mono : (i : ℤ) → InRange n i → InRange m i
  InRange-mono (pos i) r = omega (arith, h, r)
  InRange-mono (negsuc i) r = absurd r

  pub EdgeFits-mono : {D : Type 0} (e : Edge D) → EdgeFits n e → EdgeFits m e
  EdgeFits-mono e fits = record {
    start = InRange-mono e.start_idx fits.start;
    end = InRange-mono e.end_idx fits.end;
  }

  pub IsLoop-mono : (loop : List ℤ) → IsLoop n loop → IsLoop m loop
  IsLoop-mono loop l = record { corners = l.corners; fits = All-mono InRange-mono loop l.fits }

  pub FloorFits-mono : {D N : Type 0} (f : Floor D N) → FloorFits n f → FloorFits m f
  FloorFits-mono f fits = record {
    outline = IsLoop-mono f.vertices fits.outline;
    holes = All-mono IsLoop-mono f.holes fits.holes;
  }

-- More vertices, and lanes that join some of them.
pub grown-IsWellIndexed :
    {D N : Type 0} (level : Level D N) (vertices : List (Vertex D)) (lanes : List (Edge D))
    → length level.vertices ≤ length vertices
    → All (EdgeFits (length vertices)) lanes
    → IsWellIndexed level
    → IsWellIndexed (record level { vertices = vertices; lanes = lanes })
grown-IsWellIndexed level vertices lanes h fits w =
    let mono = EdgeFits-mono (length level.vertices) (length vertices) h in
    record {
      lanes = fits;
      walls = All-mono mono level.walls w.walls;
      doors = All-mono mono level.doors w.doors;
      measurements = All-mono mono level.measurements w.measurements;
      floors =
          All-mono (FloorFits-mono (length level.vertices) (length vertices) h) level.floors
            w.floors;
    }

pub All-get_elem? :
    {A : Type 0} (P : A → Type 0) (xs : List A) (i : ℕ) (x : A)
    → All P xs
    → get_elem? xs i ≡ some x
    → P x
All-get_elem? P [] i x h e = cc
All-get_elem? P (y ∷ xs) zero x h e = subst P (cc e) (h.0)
All-get_elem? P (y ∷ xs) (suc i) x h e = All-get_elem? P xs i x (h.1) e

pub delete_lane-vertices :
    {D N : Type 0} (level : Level D N) (i : ℤ) → (delete_lane level i).vertices ≡ level.vertices
unfolding delete_lane
delete_lane-vertices level i = elim (Bool-cases (out_of_range i (length level.lanes))) [
  | inl out ↦ ap (λ l. l.vertices) (if_true level _ out)
  | inr inside ↦ ap (λ l. l.vertices) (if_false level _ inside)
]

module _ {D : Type 0} (F : Double D) (C : Literals D) where
  pub with_vertex-IsWellIndexed :
      {N : Type 0} (point : D × D) (level : Level D N)
      → IsWellIndexed level
      → IsWellIndexed (record level { vertices = level.vertices ++ new_vertex F C point ∷ [] })
  with_vertex-IsWellIndexed point level w =
      let size = length-append level.vertices (new_vertex F C point ∷ []) in
      let h : length level.vertices ≤ length (level.vertices ++ new_vertex F C point ∷ []) =
        omega (arith, size) in
      grown-IsWellIndexed level _ level.lanes h
        (All-mono (EdgeFits-mono (length level.vertices) _ h) level.lanes w.lanes) w

  -- The two lanes in place of one.
  pub halves-fit :
      (n m : ℕ) (orig : Edge D)
      → n < m
      → EdgeFits n orig
      → EdgeFits m (record orig { end_idx = pos n })
        × EdgeFits m (record orig { start_idx = pos n })
  halves-fit n m orig h fits =
      let wide = EdgeFits-mono n m (omega (arith, h)) orig fits in
      (record { start = wide.start; end = h }, record { start = h; end = wide.end })

  pub split_lane-IsWellIndexed :
      {N : Type 0} (lane : ℕ) (point : D × D) (level : Level D N)
      → IsWellIndexed level
      → IsWellIndexed (split_lane F C lane point level)
  unfolding split_lane
  split_lane-IsWellIndexed lane point level w = elim (Option-cases (get_elem? level.lanes lane)) [
    | inl missing ↦ rw (split_lane, missing) w
    | inr (orig, found) ↦
        let grown = record level { vertices = level.vertices ++ new_vertex F C point ∷ [] } in
        let without = delete_lane grown (pos lane) in
        let fits =
          delete_lane-IsWellIndexed grown (pos lane) (with_vertex-IsWellIndexed point level w) in
        let size : length without.vertices ≡ length level.vertices + 1 =
          ap length (delete_lane-vertices grown (pos lane))
          ∙ length-append level.vertices (new_vertex F C point ∷ []) in
        let (head, tail) =
          halves-fit (length level.vertices) (length without.vertices) orig (omega (arith, size)) (
            All-get_elem? (EdgeFits (length level.vertices)) level.lanes lane orig w.lanes found) in
        let n = length without.vertices in
        let first = record orig { end_idx = pos (length level.vertices) } in
        let second = record orig { start_idx = pos (length level.vertices) } in
        let joined = All-append (EdgeFits n) without.lanes (first ∷ []) fits.lanes (head, tt) in
        let all =
          All-append (EdgeFits n) (without.lanes ++ first ∷ []) (second ∷ []) joined (tail, tt) in
        let same_size : n ≤ n = omega arith in
        rw (split_lane, found)
          (grown-IsWellIndexed without without.vertices
            ((without.lanes ++ first ∷ []) ++ second ∷ []) same_size all fits)
  ]

  pub split_lane-vertices :
      {N : Type 0} (lane : ℕ) (point : D × D) (level : Level D N) (orig : Edge D)
      → get_elem? level.lanes lane ≡ some orig
      → (split_lane F C lane point level).vertices ≡ level.vertices ++ new_vertex F C point ∷ []
  unfolding split_lane
  split_lane-vertices lane point level orig found =
      rw (split_lane, found)
        (delete_lane-vertices
          (record level { vertices = level.vertices ++ new_vertex F C point ∷ [] }) (pos lane))

  pub split_all-IsWellIndexed :
      {N : Type 0} (splits : List (Split D)) (level : Level D N)
      → IsWellIndexed level
      → IsWellIndexed (split_all F C splits level)
  unfolding split_all
  split_all-IsWellIndexed [] level w = w
  split_all-IsWellIndexed (s ∷ splits) level w =
      split_all-IsWellIndexed splits _ (split_lane-IsWellIndexed s.lane (s.at_x, s.at_y) level w)
