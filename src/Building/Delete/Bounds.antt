-- ===== src/Building/Delete/Bounds.antt =====
-- Deletions (model/building.cpp) leave every index within the vertices that remain.
use imrmf_map_editor.Base.{
  ℕ, zero, suc, ◌-◌, ◌≤◌, ◌<◌, ◌≡◌, refl, false, List, [], ◌∷◌, arith, length, erase_idx, All,
  Bool-cases, inl, inr, length-erase_idx, leb, ltb,
}
use imrmf_map_editor.Base.Int.{ℤ, pos, negsuc, pos_part, eqb_ℤ}
use imrmf_map_editor.Building.{Edge, Floor, Level}
use imrmf_map_editor.Building.Delete.{
  touches, shift, reindex_edges, reindex_loop, reindex_holes, reindex_floors, out_of_range,
  delete_vertex, delete_lane, delete_vertex_lem, delete_vertex_out,
}

abbrev pub InRange : ℕ → ℤ → Type 0
InRange n (pos i) = i < n
InRange n (negsuc i) = ⊥

pub record EdgeFits {D : Type 0} (n : ℕ) (e : Edge D) : Type 0 where
  pub start : InRange n e.start_idx
  pub end : InRange n e.end_idx

-- A closed loop of at least three corners that exist.
pub record IsLoop (n : ℕ) (loop : List ℤ) : Type 0 where
  pub corners : 3 ≤ length loop
  pub fits : All (InRange n) loop

pub record FloorFits {D N : Type 0} (n : ℕ) (f : Floor D N) : Type 0 where
  pub outline : IsLoop n f.vertices
  pub holes : All (IsLoop n) f.holes

-- Every index of the level names a vertex, and every loop is a polygon.
pub record IsWellIndexed {D N : Type 0} (l : Level D N) : Type 0 where
  pub lanes : All (EdgeFits (length l.vertices)) l.lanes
  pub walls : All (EdgeFits (length l.vertices)) l.walls
  pub doors : All (EdgeFits (length l.vertices)) l.doors
  pub measurements : All (EdgeFits (length l.vertices)) l.measurements
  pub floors : All (FloorFits (length l.vertices)) l.floors

module _ (n v : ℕ) (h : v < suc n) where
  InRange-shift :
      (i : ℤ) → eqb_ℤ i (pos v) ≡ false → InRange (suc n) i → InRange n (shift (pos v) i)
  unfolding shift
  InRange-shift (pos zero) ne r = ground arith
  InRange-shift (pos (suc i)) ne r = ground arith
  InRange-shift (negsuc i) ne r = absurd r

  reindex_edges-fits :
      {D : Type 0} (edges : List (Edge D))
      → All (EdgeFits (suc n)) edges
      → All (EdgeFits n) (reindex_edges edges (pos v))
  unfolding reindex_edges touches
  reindex_edges-fits [] a = tt
  reindex_edges-fits (e ∷ edges) a = elim (Bool-cases (touches (pos v) e)) [
    | inl hit ↦ rw hit (reindex_edges-fits edges a.1)
    | inr miss ↦ rw miss (
      record {
        start = InRange-shift e.start_idx (ground arith) a.0.start;
        end = InRange-shift e.end_idx (ground arith) a.0.end;
      },
      reindex_edges-fits edges a.1,
    )
  ]

  reindex_loop-fits :
      (loop : List ℤ) → All (InRange (suc n)) loop → All (InRange n) (reindex_loop loop (pos v))
  unfolding reindex_loop
  reindex_loop-fits [] a = tt
  reindex_loop-fits (i ∷ loop) a = elim (Bool-cases (eqb_ℤ i (pos v))) [
    | inl same ↦ rw same (reindex_loop-fits loop a.1)
    | inr other ↦ rw other (InRange-shift i other a.0, reindex_loop-fits loop a.1)
  ]

  reindex_holes-fits :
      (holes : List (List ℤ))
      → All (IsLoop (suc n)) holes
      → All (IsLoop n) (reindex_holes holes (pos v))
  unfolding reindex_holes
  reindex_holes-fits [] a = tt
  reindex_holes-fits (hole ∷ holes) a =
      elim (Bool-cases (leb 3 (length (reindex_loop hole (pos v))))) [
        | inl keep ↦ rw keep (
          record { corners = ground arith; fits = reindex_loop-fits hole a.0.fits },
          reindex_holes-fits holes a.1,
        )
        | inr drop ↦ rw drop (reindex_holes-fits holes a.1)
      ]

  reindex_floors-fits :
      {D N : Type 0} (floors : List (Floor D N))
      → All (FloorFits (suc n)) floors
      → All (FloorFits n) (reindex_floors floors (pos v))
  unfolding reindex_floors
  reindex_floors-fits [] a = tt
  reindex_floors-fits (f ∷ floors) a =
      elim (Bool-cases (ltb (length (reindex_loop f.vertices (pos v))) 3)) [
        | inl drop ↦ rw drop (reindex_floors-fits floors a.1)
        | inr keep ↦ rw keep (
          record {
            outline = record {
              corners = ground arith;
              fits = reindex_loop-fits f.vertices a.0.outline.fits;
            };
            holes = reindex_holes-fits f.holes a.0.holes;
          },
          reindex_floors-fits floors a.1,
        )
      ]

in_range_of : (v : ℤ) (n : ℕ) → out_of_range v n ≡ false → (k : ℕ) × (v ≡ pos k) × (k < n)
unfolding out_of_range
in_range_of (pos k) n h = (k, refl, ground arith)
in_range_of (negsuc k) n h = absurd (ground arith)

delete_in_range-IsWellIndexed :
    {D N : Type 0} (level : Level D N) (n v : ℕ)
    → v < length level.vertices
    → length level.vertices ≡ suc n
    → IsWellIndexed level
    → IsWellIndexed (delete_vertex level (pos v))
delete_in_range-IsWellIndexed level n v h e w =
    let size : length (erase_idx level.vertices v) ≡ n =
      omega (arith, length-erase_idx level.vertices v h) in
    let h' : v < suc n = omega arith in
    rw (delete_vertex_lem level v h) (record {
      lanes = rw size (reindex_edges-fits n v h' level.lanes (rw e at w.lanes));
      walls = rw size (reindex_edges-fits n v h' level.walls (rw e at w.walls));
      doors = rw size (reindex_edges-fits n v h' level.doors (rw e at w.doors));
      measurements =
          rw size (reindex_edges-fits n v h' level.measurements (rw e at w.measurements));
      floors = rw size (reindex_floors-fits n v h' level.floors (rw e at w.floors));
    })

-- Deleting a vertex at any index, in range or not, keeps the level well indexed.
pub delete_vertex-IsWellIndexed :
    {D N : Type 0} (level : Level D N) (v : ℤ)
    → IsWellIndexed level
    → IsWellIndexed (delete_vertex level v)
delete_vertex-IsWellIndexed level v w = elim (Bool-cases (out_of_range v (length level.vertices))) [
  | inl out ↦ rw (delete_vertex_out level v out) w
  | inr inside ↦
      let (k, same, lt) = in_range_of v (length level.vertices) inside in
      rw same (delete_in_range-IsWellIndexed level (length level.vertices - 1) k lt (omega arith) w)
]

All-erase_idx {ℓ κ} :
    {A : Type ℓ} (P : A → Type κ) (xs : List A) (i : ℕ) → All P xs → All P (erase_idx xs i)
All-erase_idx P [] i h = tt
All-erase_idx P (x ∷ xs) zero h = h.1
All-erase_idx P (x ∷ xs) (suc i) h = (h.0, All-erase_idx P xs i h.1)

-- Deleting a lane at any index keeps the level well indexed.
pub delete_lane-IsWellIndexed :
    {D N : Type 0} (level : Level D N) (i : ℤ)
    → IsWellIndexed level
    → IsWellIndexed (delete_lane level i)
unfolding delete_lane
delete_lane-IsWellIndexed level i w = elim (Bool-cases (out_of_range i (length level.lanes))) [
  | inl out ↦ rw out w
  | inr inside ↦ rw inside (record {
    lanes = All-erase_idx _ level.lanes (pos_part i) w.lanes;
    walls = w.walls;
    doors = w.doors;
    measurements = w.measurements;
    floors = w.floors;
  })
]
