-- ===== src/View/Align.antt =====
-- Aligning the selected vertices (`apply_align` of view/editor_view.cpp). An index out of range, which C++
-- leaves undefined, is none.
pub mod Exact
use imrmf_map_editor.Base.{
  ℕ, zero, suc, Bool, true, false, Option, none, some, List, [], ◌∷◌, length, get_elem?, ltb,
  if◌then◌else◌,
}
use imrmf_map_editor.Base.Int.{ℤ, pos, pos_part}
use imrmf_map_editor.Building.{Vertex, Level}
use imrmf_map_editor.Building.Double.{Double}
use imrmf_map_editor.View.Split.{vertex_in}
use imrmf_map_editor.Yaml.{◌>>=◌}

pub data AlignDir : Type 0 where
  horizontal vertical : AlignDir

pub data AlignTo : Type 0 where
  average min max : AlignTo

-- `vertices[i] = f(vertices[i])`
abbrev pub update : {A : Type 0} → (A → A) → ℕ → List A → List A
update f i [] = []
update f zero (x ∷ xs) = f x ∷ xs
update f (suc i) (x ∷ xs) = x ∷ update f i xs

module _ {D : Type 0} where
  -- The coordinate that a direction makes equal.
  abbrev pub coordinate : AlignDir → Vertex D → D
  coordinate horizontal v = v.y
  coordinate vertical v = v.x

  abbrev pub set_coordinate : AlignDir → D → Vertex D → Vertex D
  set_coordinate horizontal target v = record v { y = target }
  set_coordinate vertical target v = record v { x = target }

  -- The coordinates of the selected vertices.
  unfoldable pub selected_coordinates : AlignDir → List (Vertex D) → List ℤ → Option (List D)
  unfolding vertex_in
  selected_coordinates dir vertices [] = some []
  selected_coordinates dir vertices (i ∷ sel) = do
    v ← vertex_in vertices i
    rest ← selected_coordinates dir vertices sel
    some (coordinate dir v ∷ rest)

  -- The loop that writes.
  unfoldable pub write_all : AlignDir → D → List ℤ → List (Vertex D) → List (Vertex D)
  write_all dir target [] vertices = vertices
  write_all dir target (i ∷ sel) vertices =
      write_all dir target sel (update (set_coordinate dir target) (pos_part i) vertices)

module _ {D : Type 0} (F : Double D) where
  unfoldable sum_all : D → List D → D
  sum_all sum [] = sum
  sum_all sum (v ∷ vs) = sum_all (F.add sum v) vs

  -- `std::min` and `std::max`, which keep the first where the two are equal.
  unfoldable pub best_of : AlignTo → D → List D → D
  best_of to best [] = best
  best_of min best (v ∷ vs) = best_of min (if F.lt v best then v else best) vs
  best_of to best (v ∷ vs) = best_of to (if F.lt best v then v else best) vs

  unfoldable pub target_of : AlignTo → List D → D
  unfolding sum_all best_of
  target_of to [] = F.zero
  target_of average (v ∷ vs) = F.div (sum_all F.zero (v ∷ vs)) (F.of_int (pos (length (v ∷ vs))))
  target_of to (v ∷ vs) = best_of to v (v ∷ vs)

  unfoldable pub apply_align :
      {N : Type 0} → List ℤ → AlignDir → AlignTo → Level D N → Option (Level D N)
  unfolding selected_coordinates target_of write_all
  apply_align sel dir to level =
      if ltb (length sel) 2
      then some level
      else selected_coordinates dir level.vertices sel >>= (λ coordinates.
        some
          (record level { vertices = write_all dir (target_of to coordinates) sel level.vertices }))
