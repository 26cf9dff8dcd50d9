-- ===== src/Paths.antt =====
-- Image paths: model/asset_paths.cpp, over the POSIX `std::filesystem::path`.
pub mod Escape
use imrmf_map_editor.Base.{
  ℕ, zero, suc, Bool, true, false, not, ◌&&◌, ◌||◌, List, [], ◌∷◌, ◌++◌, ◌==◌, if◌then◌else◌,
  filter,
}
use imrmf_map_editor.Base.Text.{Text, text_eq, is_empty}
use imrmf_map_editor.Building.{Building, Level, Layer}

abbrev pub slash : ℕ
slash = b'/'

-- The pieces between slashes, of which some may be empty.
add_to_first : ℕ → List Text → List Text
add_to_first c [] = (c ∷ []) ∷ []
add_to_first c (s ∷ pieces) = (c ∷ s) ∷ pieces

unfoldable pub pieces : Text → List Text
unfolding add_to_first
pieces [] = [] ∷ []
pieces (c ∷ p) = let rest = pieces p in if c == slash then [] ∷ rest else add_to_first c rest

unfoldable pub is_absolute : Text → Bool
is_absolute [] = false
is_absolute (c ∷ p) = c == slash

-- The last piece: `filename()`.
unfoldable pub last_piece : List Text → Text
last_piece [] = []
last_piece (s ∷ []) = s
last_piece (s ∷ t ∷ pieces) = last_piece (t ∷ pieces)

unfoldable pub filename : Text → Text
unfolding pieces last_piece
filename p = last_piece (pieces p)

-- What iterating over a path gives: the root, the names, and an empty name for a last slash.
unfoldable pub parts : Text → List Text
unfolding pieces is_absolute filename
parts p =
    let names = filter (λ s. not (is_empty s)) (pieces p) in
    let root = if is_absolute p then (slash ∷ []) ∷ [] else [] in
    let last = if not (is_empty names) && is_empty (filename p) then [] ∷ [] else [] in
    root ++ (names ++ last)

abbrev pub dot : Text
dot = b'.' ∷ []

abbrev pub dot_dot : Text
dot_dot = b'.' ∷ b'.' ∷ []

-- The loop of `asset_path_is_portable`; a depth below 0 is the early return.
unfoldable pub stays_inside : ℕ → List Text → Bool
stays_inside depth [] = true
stays_inside zero (s ∷ rest) =
    let same = stays_inside zero rest in
    let deeper = stays_inside 1 rest in
    if text_eq s dot_dot
    then false
    else if not (text_eq s dot) && not (is_empty s)
    then deeper
    else same
stays_inside (suc depth) (s ∷ rest) =
    let up = stays_inside depth rest in
    let same = stays_inside (suc depth) rest in
    let deeper = stays_inside (suc (suc depth)) rest in
    if text_eq s dot_dot
    then up
    else if not (text_eq s dot) && not (is_empty s)
    then deeper
    else same

unfoldable pub asset_path_is_portable : Text → Bool
asset_path_is_portable path =
    if is_empty path then true else if is_absolute path then false else stays_inside 0 (parts path)

-- The references of a map, in the order of the walk; the empty ones are skipped.
module _ {D N : Type 0} where
  layer_refs : List (Layer D N) → List Text
  layer_refs [] = []
  layer_refs (l ∷ layers) =
      let rest = layer_refs layers in if is_empty l.filename then rest else l.filename ∷ rest

  level_refs : List (Level D N) → List Text
  unfolding layer_refs
  level_refs [] = []
  level_refs (l ∷ levels) =
      let rest = layer_refs l.layers ++ level_refs levels in
      if is_empty l.drawing_filename then rest else l.drawing_filename ∷ rest

  unfoldable pub building_asset_refs : Building D N → List Text
  unfolding level_refs
  building_asset_refs b = level_refs b.levels
