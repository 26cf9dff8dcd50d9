-- ===== src/View/Align/Exact.antt =====
-- Aligning moves the selected vertices, and nothing else (`apply_align` of view/editor_view.cpp).
use imrmf_map_editor.Base.{
  ℕ, zero, suc, ◌≤◌, ◌<◌, ◌≡◌, refl, ◌∙◌, ap, false, Option, none, some, List, [], ◌∷◌, arith,
  length, get_elem?, get_elem?-some, All, All-mono, ltb, if◌then◌else◌, if_false, ◌==◌,
}
use imrmf_map_editor.Base.Int.{ℤ, pos, negsuc, pos_part, ltb_ℤ}
use imrmf_map_editor.Building.{Vertex, Level}
use imrmf_map_editor.Building.Delete.{out_of_range}
use imrmf_map_editor.Building.Double.{Double}
use imrmf_map_editor.View.Selection.{is_selected}
use imrmf_map_editor.View.Split.{vertex_in}
use imrmf_map_editor.View.Align.{
  AlignDir, horizontal, vertical, AlignTo, coordinate, set_coordinate, update, selected_coordinates,
  write_all, target_of, apply_align,
}

-- What an option holds, changed.
abbrev mapped : {A : Type 0} → (A → A) → Option A → Option A
mapped f none = none
mapped f (some a) = some (f a)

get_elem?-update :
    {A : Type 0} (f : A → A) (i j : ℕ) (xs : List A)
    → get_elem? (update f i xs) j ≡ (if i == j then mapped f (get_elem? xs j) else get_elem? xs j)
get_elem?-update f i j [] = ground arith
get_elem?-update f zero zero (x ∷ xs) = refl
get_elem?-update f zero (suc j) (x ∷ xs) = ground arith
get_elem?-update f (suc i) zero (x ∷ xs) = ground arith
get_elem?-update f (suc i) (suc j) (x ∷ xs) = ground (arith, get_elem?-update f i j xs)

set_twice :
    {D : Type 0} (dir : AlignDir) (target : D) (v : Vertex D)
    → set_coordinate dir target (set_coordinate dir target v) ≡ set_coordinate dir target v
set_twice horizontal target v = refl
set_twice vertical target v = refl

module _ {D : Type 0} (dir : AlignDir) (target : D) where
  mapped-twice :
      (o : Option (Vertex D))
      → mapped (set_coordinate dir target) (mapped (set_coordinate dir target) o)
        ≡ mapped (set_coordinate dir target) o
  mapped-twice none = refl
  mapped-twice (some v) = ap some (set_twice dir target v)

  length-write_all :
      (sel : List ℤ) (vertices : List (Vertex D))
      → length (write_all dir target sel vertices) ≡ length vertices
  unfolding write_all
  length-write_all [] vertices = refl
  length-write_all (i ∷ sel) vertices = length-write_all sel _ ∙ length-update (pos_part i) vertices
    where
      length-update :
          (i : ℕ) (vs : List (Vertex D))
          → length (update (set_coordinate dir target) i vs) ≡ length vs
      length-update i [] = refl
      length-update zero (v ∷ vs) = refl
      length-update (suc i) (v ∷ vs) = ap suc (length-update i vs)

  get_elem?-write_all :
      (sel : List ℤ) (vertices : List (Vertex D)) (j : ℕ)
      → All (λ i. ltb_ℤ i (pos 0) ≡ false) sel
      → get_elem? (write_all dir target sel vertices) j ≡ (
          if is_selected sel (pos j)
          then mapped (set_coordinate dir target) (get_elem? vertices j)
          else get_elem? vertices j)
  unfolding write_all is_selected
  get_elem?-write_all [] vertices j h = refl
  get_elem?-write_all (negsuc n ∷ sel) vertices j h = absurd (ground (arith, h.0))
  get_elem?-write_all (pos n ∷ sel) vertices j h =
      let set = set_coordinate dir target in
      ground (
        arith,
        get_elem?-write_all sel (update set n vertices) j h.1,
        get_elem?-update set n j vertices,
        mapped-twice (get_elem? vertices j),
      )

in_range-nonneg : (i : ℤ) (n : ℕ) → out_of_range i n ≡ false → ltb_ℤ i (pos 0) ≡ false
unfolding out_of_range
in_range-nonneg i n h = ground (arith, h)

in_range-below : (i : ℤ) (n : ℕ) → out_of_range i n ≡ false → pos_part i < n
unfolding out_of_range
in_range-below (pos i) n h = ground (arith, h)
in_range-below (negsuc i) n h = absurd (ground (arith, h))

-- Aligning horizontally makes the second coordinates equal, vertically the first.
abbrev pub along : {D : Type 0} → AlignDir → Vertex D → D
along horizontal v = v.y
along vertical v = v.x

abbrev pub on_line : {D : Type 0} → AlignDir → D → Vertex D → Vertex D
on_line horizontal target v = record {
  x = v.x;
  y = target;
  z = v.z;
  name = v.name;
  params = v.params;
}
on_line vertical target v = record {
  x = target;
  y = v.y;
  z = v.z;
  name = v.name;
  params = v.params;
}

coordinate-along : {D : Type 0} (dir : AlignDir) (v : Vertex D) → coordinate dir v ≡ along dir v
coordinate-along horizontal v = refl
coordinate-along vertical v = refl

set_coordinate-on_line :
    {D : Type 0} (dir : AlignDir) (target : D) (o : Option (Vertex D))
    → mapped (set_coordinate dir target) o ≡ mapped (on_line dir target) o
set_coordinate-on_line dir target none = refl
set_coordinate-on_line horizontal target (some v) = refl
set_coordinate-on_line vertical target (some v) = refl

-- The selected vertices' coordinates, read one by one.
abbrev pub Reads : {D : Type 0} → AlignDir → List (Vertex D) → List ℤ → List D → Type 0
Reads dir vertices [] [] = Unit
Reads dir vertices (i ∷ sel) (c ∷ cs) =
    ((v : Vertex _) × (get_elem? vertices (pos_part i) ≡ some v) × (c ≡ along dir v))
    × Reads dir vertices sel cs
Reads dir vertices sel cs = ⊥

selected_coordinates-Reads :
    {D : Type 0} (dir : AlignDir) (vertices : List (Vertex D)) (sel : List ℤ)
    → All (λ i. out_of_range i (length vertices) ≡ false) sel
    → (cs : List D) × (selected_coordinates dir vertices sel ≡ some cs) × Reads dir vertices sel cs
unfolding selected_coordinates vertex_in
selected_coordinates-Reads dir vertices [] h = ([], refl, tt)
selected_coordinates-Reads dir vertices (i ∷ sel) h =
    let (v, at) = get_elem?-some vertices (pos_part i) (in_range-below i (length vertices) h.0) in
    let (cs, e, reads) = selected_coordinates-Reads dir vertices sel h.1 in
    (
      coordinate dir v ∷ cs,
      rw (selected_coordinates, vertex_in, h.0, at, e) refl,
      ((v, at, coordinate-along dir v), reads),
    )

-- What aligning comes to: the target is computed from the coordinates of the selected vertices; each
-- selected vertex gets it and keeps its other coordinate, and no other vertex changes.
pub record IsAligned {D N : Type 0} (F : Double D) (sel : List ℤ) (dir : AlignDir) (to : AlignTo)
    (level : Level D N) (outcome : Option (Level D N)) : Type 0 where
  pub coordinates : List D
  pub reads : Reads dir level.vertices sel coordinates
  pub after : List (Vertex D)
  pub returns : outcome ≡ some (record level { vertices = after })
  pub same_length : length after ≡ length level.vertices
  pub each :
      (j : ℕ)
      → get_elem? after j ≡ (
          if is_selected sel (pos j)
          then mapped (on_line dir (target_of F to coordinates)) (get_elem? level.vertices j)
          else get_elem? level.vertices j)

-- Aligning two or more vertices, of which an index may stand twice, moves exactly them, and onto one line:
-- each gets the average, least or greatest of their coordinates as the code computes it.
pub apply_align-IsAligned :
    {D N : Type 0} (F : Double D) (sel : List ℤ) (dir : AlignDir) (to : AlignTo) (level : Level D N)
    → All (λ i. out_of_range i (length level.vertices) ≡ false) sel
    → 2 ≤ length sel
    → IsAligned F sel dir to level (apply_align F sel dir to level)
unfolding apply_align
apply_align-IsAligned F sel dir to level h k =
    let (cs, e, reads) = selected_coordinates-Reads dir level.vertices sel h in
    let target = target_of F to cs in
    record {
      coordinates = cs;
      reads = reads;
      after = write_all dir target sel level.vertices;
      returns = if_false {b = ltb (length sel) 2} _ _ (ground (arith, k)) ∙ rw e refl;
      same_length = length-write_all dir target sel level.vertices;
      each = λ j.
          get_elem?-write_all dir target sel level.vertices j
            (All-mono (λ i. in_range-nonneg i (length level.vertices)) sel h)
          ∙ ap (λ o. if is_selected sel (pos j) then o else get_elem? level.vertices j)
              (set_coordinate-on_line dir target (get_elem? level.vertices j));
    }
