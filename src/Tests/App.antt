-- ===== src/Tests/App.antt =====
-- The application (app/main.cpp) on the sample map and on a form with quotes in it.
use imrmf_map_editor.Base.{take}
use imrmf_map_editor.App.Saved.{Place, save_session, try_restore_session}
use imrmf_map_editor.App.Saved.Restored.{restored, try_restore_session-save_session}
use imrmf_map_editor.Base.{◌++◌}
use imrmf_map_editor.History.Valid.{init-IsValid}
use imrmf_map_editor.App.Listing.{parse_buildings_payload, take_building_ids, websocket_url}
use imrmf_map_editor.App.Session.Undo.{history_undo-commit_history}
use imrmf_map_editor.App.Session.{commit_history, history_undo, history_redo}
use imrmf_map_editor.Base.{ℕ, ◌≡◌, ◌≢◌, refl, true, false, some, [], ◌∷◌, ◌⊎◌, arith, All, ◌<◌}
use imrmf_map_editor.Base.Int.{pos, negsuc}
use imrmf_map_editor.Base.Text.{codes}
use imrmf_map_editor.History.{init}
use imrmf_map_editor.Server.Protocol.{all_id_chars, url_decode}
use imrmf_map_editor.App.Source.{MapSource, read_map_source}
use imrmf_map_editor.App.Source.Pushable.{IsPushable, IsRefused, read_map_source-cases}
use imrmf_map_editor.App.Json.{ConnectionForm, build_mount_json, json_string_field}
use imrmf_map_editor.App.Json.ReadBack.{
  member_of, mount_members, json_string_field-build_mount_json,
}
use imrmf_map_editor.App.Session.{EditorState, OpenMap, mirror_from_yjs}
use imrmf_map_editor.App.Session.Clamp.{IsClamped}
use imrmf_map_editor.App.Session.Mirror.{IsMirrored, mirror_from_yjs-IsMirrored}
use imrmf_map_editor.Textures.Url.{urlencode, url_decode-urlencode}
use imrmf_map_editor.Tests.Bundles.{toy_codec, input}
use imrmf_map_editor.Tests.Libraries.{toy_zip, toy_json}
use imrmf_map_editor.Tests.Maps.{Node, building}
use imrmf_map_editor.Tests.Nodes.{toy_double}

read_map_source-cases_example :
    (out : MapSource) × (read_map_source toy_zip toy_json toy_codec input true ≡ some out)
    × (IsPushable toy_zip toy_json toy_codec input true out
        ⊎ IsRefused toy_zip toy_json toy_codec input true out)
read_map_source-cases_example =
    read_map_source-cases toy_zip toy_json toy_codec (λ b. (b.name, refl)) input true

-- A prefix that tries to bring in a member of its own.
abbrev form : ConnectionForm
form = record {
  kind_idx = pos 1;
  s3_secret_is_server_held = true;
  s3_access_is_server_held = false;
  server_url = [];
  local_path = [];
  s3_bucket = codes "maps";
  s3_prefix = codes "a\",\"branch\":\"b";
  s3_region = codes "us-east-1";
  s3_branch = codes "main";
  s3_access = codes "key";
  s3_secret = codes "secret";
  s3_endpoint = [];
  building_id = [];
}

branch-read : json_string_field (build_mount_json form) (codes "branch") ≡ codes "main"
unfolding json_string_field build_mount_json
branch-read = refl

prefix-plain : all_id_chars (codes "prefix") ≡ true
unfolding all_id_chars
prefix-plain = refl

json_string_field-build_mount_json_example :
    json_string_field (build_mount_json form) (codes "prefix")
    ≡ member_of (codes "prefix") (mount_members form)
json_string_field-build_mount_json_example =
    json_string_field-build_mount_json form (codes "prefix") prefix-plain

abbrev looking : EditorState
looking = record {
  level_idx = pos 3;
  selected_vertices = pos 0 ∷ pos 99 ∷ [];
  selected_lanes = [];
  selected_walls = [];
  selected_doors = [];
  selected_measurements = [];
  selected_floor = pos 5;
  selected_layer = negsuc 0;
  align_layer_idx = negsuc 0;
  pending_lane_start = pos 1;
  pending_edge_start = negsuc 0;
  pending_polygon = pos 7 ∷ [];
  pending_vertex_delete_idx = negsuc 0;
  align_floors_target = negsuc 0;
  align_floors_sel_level = negsuc 0;
  align_floors_sel_idx = negsuc 0;
}

one_level : building.levels ≢ []
one_level = λ e. cc

abbrev session : OpenMap ℕ Node
session = record {
  building = building;
  state = looking;
  dirty = true;
  dirty_since = 0;
  history = init building 3 1000;
  serverless = false;
  remote_dirty = true;
  pushed = [];
}

mirror_from_yjs-IsMirrored_example :
    (u : OpenMap ℕ Node) × (mirror_from_yjs toy_double
        (λ b. 1)
        toy_codec
        false
        (some (codes "x"))
        session
      ≡ some u)
    × IsMirrored toy_double building session u
mirror_from_yjs-IsMirrored_example =
    mirror_from_yjs-IsMirrored toy_double (λ b. 1) toy_codec (codes "x") building session
      (λ b. (b.name, refl)) refl refl refl one_level

path-IsBytes : All (λ c. c < 256) (codes "a b/c%2F")
path-IsBytes = ground arith

url_decode-urlencode_example : url_decode (urlencode (codes "a b/c%2F")) ≡ codes "a b/c%2F"
url_decode-urlencode_example = url_decode-urlencode (codes "a b/c%2F") path-IsBytes

history_undo-commit_history_example :
    ((history_undo toy_double
        (λ b. 1)
        toy_codec
        (commit_history toy_double (λ b. 1) toy_codec session)).building
      ≡ building)
    × IsClamped building
        (history_undo toy_double
          (λ b. 1)
          toy_codec
          (commit_history toy_double (λ b. 1) toy_codec session)).state
    × ((history_redo toy_double
          (λ b. 1)
          toy_codec
          (history_undo toy_double
            (λ b. 1)
            toy_codec
            (commit_history toy_double (λ b. 1) toy_codec session))).building
        ≡ building)
    × IsClamped building
        (history_redo toy_double
          (λ b. 1)
          toy_codec
          (history_undo toy_double
            (λ b. 1)
            toy_codec
            (commit_history toy_double (λ b. 1) toy_codec session))).state
unfolding init
history_undo-commit_history_example =
    history_undo-commit_history toy_double (λ b. 1) toy_codec session
      (init-IsValid (λ b. 1) building 3 1000) refl one_level one_level

listing-read :
    parse_buildings_payload (codes "{\"buildings\":[\"lobby\",\"roof-2\"]}")
    ≡ codes "lobby" ∷ codes "roof-2" ∷ []
unfolding parse_buildings_payload
listing-read = refl

-- The first map is chosen where none is.
ids-taken :
    take_building_ids (codes "lobby" ++ 10 ∷ 10 ∷ codes "roof") []
    ≡ (codes "lobby" ∷ codes "roof" ∷ [], codes "lobby")
unfolding take_building_ids
ids-taken = refl

socket-named :
    websocket_url (codes "https://maps.example//") (codes "lobby")
    ≡ codes "wss://maps.example/ws/lobby"
unfolding websocket_url
socket-named = refl

abbrev place : Place
place = record {
  form = form;
  server_url = codes "https://maps.example/\"a";
  building_id = codes "lobby";
}

abbrev fresh : Place
fresh = record { form = record form { s3_prefix = [] }; server_url = []; building_id = [] }

try_restore_session-save_session_example : try_restore_session (save_session place) fresh ≡ (
  record {
    form = restored form (record (fresh.form) {
      server_url = take 255 place.server_url;
      building_id = take 63 place.building_id;
    });
    server_url = place.server_url;
    building_id = place.building_id;
  },
  true,
)
try_restore_session-save_session_example = try_restore_session-save_session place fresh refl refl
