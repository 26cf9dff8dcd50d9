-- ===== src/Tests/Requests.antt =====
-- Requests on one stored map, with the toy YAML library.
use imrmf_map_editor.Base.{◌≡◌, refl, ◌⊎◌, none, some, [], ◌∷◌}
use imrmf_map_editor.Base.Text.{Text, codes, text_eq}
use imrmf_map_editor.Building.{find}
use imrmf_map_editor.Yaml.{put}
use imrmf_map_editor.Yaml.Levels.{parse_building}
use imrmf_map_editor.Server.Protocol.{
  etag_of, fnv1a_hex, url_decode, header_value, building_id_safe, stoul,
}
use imrmf_map_editor.Server.Handlers.{Store, handle_building_post}
use imrmf_map_editor.Server.Store.{IsAccepted, handle_building_post-IsAccepted}
use imrmf_map_editor.Base.{◌++◌, Option, none, some}
use imrmf_map_editor.Server.Protocol.{crlf}
use imrmf_map_editor.Base.Text.{starts_with}
use imrmf_map_editor.Server.Handlers.{
  dispatch_buildings_request, dispatch_post, is_buildings_request, read_until, requested_id,
}
use imrmf_map_editor.Server.Protocol.{header_value, url_decode, stoul}
use imrmf_map_editor.Tests.Nodes.{is_mapping, pairs_of, toy_yaml, toy_double}

-- The published value of FNV-1a for "a".
hashes : fnv1a_hex (codes "a") ≡ codes "af63dc4c8601ec8c"
unfolding fnv1a_hex
hashes = refl

decodes : url_decode (codes "a%20b+c%2") ≡ codes "a b c%2"
unfolding url_decode
decodes = refl

header_found :
    header_value (codes "Host: x\nif-match:  \"t\" \n") (codes "If-Match") ≡ codes "\"t\""
unfolding header_value
header_found = refl

lengths : (stoul (codes " 42 ") ≡ some 42) × (stoul (codes "x") ≡ none)
unfolding stoul
lengths = (refl, refl)

abbrev files : Store
files = (codes "lobby", codes "old") ∷ []

abbrev tag : Text
unfolding etag_of
tag = etag_of (codes "old")

abbrev what : Text → Text
what t = []

abbrev after : Store
unfolding handle_building_post
after = (handle_building_post toy_yaml toy_double what files (codes "lobby") tag (codes "new")).0

handle_building_post-IsAccepted_example :
    (after ≡ files) ⊎ IsAccepted toy_yaml toy_double files after (codes "lobby") tag (codes "new")
unfolding after
handle_building_post-IsAccepted_example =
    handle_building_post-IsAccepted toy_yaml toy_double what files (codes "lobby") tag (codes "new")

stored : after ≡ (codes "lobby", codes "new") ∷ []
unfolding after tag handle_building_post building_id_safe find text_eq etag_of parse_building put
    is_mapping pairs_of
stored = refl

-- A post whose body comes in a second chunk.
abbrev request : Text
request =
    codes "POST /buildings/lobby?x=1 HTTP/1.1"
    ++ crlf
    ++ codes "content-length: 3"
    ++ crlf
    ++ crlf
    ++ codes "n"

abbrev store_of : Option (Store × Text) → Store
store_of none = []
store_of (some p) = p.0

dispatched :
    store_of (dispatch_buildings_request toy_yaml toy_double what (codes "ew+" ∷ []) request files)
    ≡ (codes "lobby", codes "new") ∷ []
unfolding dispatch_buildings_request is_buildings_request dispatch_post requested_id
    handle_building_post building_id_safe find text_eq etag_of parse_building put is_mapping
    pairs_of starts_with read_until header_value url_decode stoul
dispatched = refl
