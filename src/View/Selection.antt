-- ===== src/View/Selection.antt =====
-- Deleting the selected lanes (`delete_lane_indices` of view/editor_view.cpp).
pub mod Exact
use imrmf_map_editor.Base.{ℕ, zero, suc, Bool, true, false, not, ◌||◌, List, [], ◌∷◌, if◌then◌else◌}
use imrmf_map_editor.Base.Int.{ℤ, pos, ltb_ℤ, eqb_ℤ}
use imrmf_map_editor.Building.{Level}
use imrmf_map_editor.Building.Delete.{delete_lane}

unfoldable pub is_selected : List ℤ → ℤ → Bool
is_selected [] idx = false
is_selected (i ∷ sel) idx = eqb_ℤ i idx || is_selected sel idx

-- `std::sort` with `std::greater`.
unfoldable pub insert_greater : ℤ → List ℤ → List ℤ
insert_greater i [] = i ∷ []
insert_greater i (j ∷ sel) =
    let rest = insert_greater i sel in if ltb_ℤ j i then i ∷ j ∷ sel else j ∷ rest

unfoldable pub sort_greater : List ℤ → List ℤ
unfolding insert_greater
sort_greater [] = []
sort_greater (i ∷ sel) = insert_greater i (sort_greater sel)

-- `std::unique`, and the erasure of what it leaves.
unfoldable pub unique : List ℤ → List ℤ
unique [] = []
unique (i ∷ []) = i ∷ []
unique (i ∷ j ∷ sel) = let rest = unique (j ∷ sel) in if eqb_ℤ i j then rest else i ∷ rest

unfoldable pub delete_lanes : {D N : Type 0} → List ℤ → Level D N → Level D N
unfolding delete_lane
delete_lanes [] level = level
delete_lanes (i ∷ sel) level = delete_lanes sel (delete_lane level i)

unfoldable pub delete_lane_indices : {D N : Type 0} → List ℤ → Level D N → Level D N
unfolding delete_lanes unique sort_greater
delete_lane_indices sel level = delete_lanes (unique (sort_greater sel)) level
