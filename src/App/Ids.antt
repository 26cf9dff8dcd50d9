-- ===== src/App/Ids.antt =====
-- The ids of maps and branches that the application accepts (app/main.cpp).
use imrmf_map_editor.Base.{
  Bool, true, false, ◌≡◌, refl, ◌||◌, ◌&&◌, [], ◌∷◌, arith, length, ltb, leb, ◌==◌, if◌then◌else◌,
}
use imrmf_map_editor.Base.Text.{Text, is_empty}
use imrmf_map_editor.Server.Protocol.{all_id_chars, building_id_safe}

unfoldable pub all_okay : Text → Bool
all_okay [] = true
all_okay (c ∷ name) =
    let okay =
      (leb b'a' c && leb c b'z')
      || (leb b'A' c && leb c b'Z')
      || (leb b'0' c && leb c b'9')
      || c == b'_'
      || c == b'-' in
    elim okay [ false ↦ false | true ↦ all_okay name ]

unfoldable pub building_id_is_valid : Text → Bool
unfolding all_okay
building_id_is_valid id = if is_empty id || ltb 64 (length id) then false else all_okay id

unfoldable pub branch_name_is_valid : Text → Bool
unfolding building_id_is_valid
branch_name_is_valid name = is_empty name || building_id_is_valid name

all_okay-eq : (id : Text) → all_okay id ≡ all_id_chars id
unfolding all_okay all_id_chars
all_okay-eq [] = refl
all_okay-eq (c ∷ id) = ground (arith, all_okay-eq id)

-- The application accepts the same ids as the server, whatever the bytes.
pub building_id_is_valid-eq-building_id_safe :
    (id : Text) → building_id_is_valid id ≡ building_id_safe id
unfolding building_id_is_valid building_id_safe
building_id_is_valid-eq-building_id_safe id = rw (all_okay-eq id) refl
