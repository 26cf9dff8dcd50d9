-- ===== src/App/Saved.antt =====
-- The session that the browser keeps between visits (`save_session` and `try_restore_session` of
-- app/main.cpp). A field of the form holds at most one character less than its size.
pub mod Fields
pub mod Restored
use imrmf_map_editor.Base.{
  ℕ, Bool, true, false, ◌||◌, Option, none, some, List, [], ◌∷◌, ◌++◌, take, if◌then◌else◌,
}
use imrmf_map_editor.Base.Int.{ℤ, pos}
use imrmf_map_editor.Base.Text.{Text, codes, text_eq, is_empty}
use imrmf_map_editor.App.Json.{
  ConnectionForm, after_first, json_string_field, esc, build_mount_json,
}

-- `g_form`, `g_server_url` and `g_building_id`.
pub record Place : Type 0 where
  pub form : ConnectionForm
  pub server_url : Text
  pub building_id : Text

unfoldable pub save_session : Place → Text
unfolding esc build_mount_json
save_session p =
    codes "{\"server_url\":\""
    ++ (esc p.server_url
        ++ (codes "\",\"building_id\":\""
            ++ (esc p.building_id
                ++ (codes "\",\"mount\":" ++ (build_mount_json p.form ++ codes "}")))))

abbrev pub has : Text → Text → Bool
has needle raw = elim (after_first needle raw) [ none ↦ false | some rest ↦ true ]

-- The part of the form that the mount blob sets.
unfoldable pub restore_mount : Text → ConnectionForm → ConnectionForm
restore_mount raw form =
    if has (codes "\"kind\":\"") raw
    then if text_eq (json_string_field raw (codes "kind")) (codes "s3")
      then record form {
        kind_idx = pos 1;
        s3_bucket = take 127 (json_string_field raw (codes "bucket"));
        s3_prefix = take 127 (json_string_field raw (codes "prefix"));
        s3_region = take 63 (json_string_field raw (codes "region"));
        s3_access = take 127 (json_string_field raw (codes "access_key_id"));
        s3_secret = take 255 (json_string_field raw (codes "secret_access_key"));
        s3_endpoint = take 255 (json_string_field raw (codes "endpoint_url"));
      }
      else record form {
        kind_idx = pos 0;
        local_path = take 511 (json_string_field raw (codes "path"));
      }
    else form

-- Where it goes on to mount, and whether it does.
unfoldable pub try_restore_session : Text → Place → Place × Bool
unfolding restore_mount
try_restore_session raw p =
    let server = json_string_field raw (codes "server_url") in
    let bid = json_string_field raw (codes "building_id") in
    let named = record (p.form) { server_url = take 255 server; building_id = take 63 bid } in
    if is_empty raw || is_empty server || is_empty bid
    then (p, false)
    else (record { form = restore_mount raw named; server_url = server; building_id = bid }, true)
