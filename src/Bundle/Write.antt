-- ===== src/Bundle/Write.antt =====
-- `write_bundle` (model/map_bundle.cpp): the archive of a bundle. The heap
-- buffer of the archive library and its release are not modelled.
use imrmf_map_editor.Base.{not, List, [], ◌∷◌}
use imrmf_map_editor.Base.Int.{pos}
use imrmf_map_editor.Base.Text.{Text, is_empty, codes}
use imrmf_map_editor.Bundle.{
  Bytes, BundleAsset, MapBundle, Result, returned, ◌>>=◌, ◌>>◌, throw_if, or_throw, manifest_entry,
  bundle_format, bundle_version, no_yaml_name, unsafe_yaml_name, no_writer, unsafe_asset_entry,
  add_failed, yaml_exception, finalize_failed,
}
use imrmf_map_editor.Bundle.Interface.{Zip, Json, Codec, Compression, best, none_at_all}
use imrmf_map_editor.Bundle.Names.{entry_name_is_safe}

abbrev pub key_format : Text
key_format = codes "format"

abbrev pub key_version : Text
key_version = codes "version"

abbrev pub key_building : Text
key_building = codes "building"

abbrev pub key_assets : Text
key_assets = codes "assets"

abbrev pub key_path : Text
key_path = codes "path"

abbrev pub key_entry : Text
key_entry = codes "entry"

-- The loop that lists the assets in the manifest; an unsafe entry ends it.
unfoldable pub list_assets : (J : Json) → List BundleAsset → Result (List J.Value)
list_assets J [] = returned []
list_assets J (a ∷ assets) = do
  throw_if (not (entry_name_is_safe a.entry)) (unsafe_asset_entry a.entry)
  rest ← list_assets J assets
  returned (J.object ((key_path, J.text a.path) ∷ (key_entry, J.text a.entry) ∷ []) ∷ rest)

unfoldable pub manifest_of : (J : Json) → Text → List J.Value → J.Value
manifest_of J yaml_name listed = J.object (
    (key_format, J.text bundle_format)
    ∷ (key_version, J.int (pos bundle_version))
    ∷ (key_building, J.text yaml_name)
    ∷ (key_assets, J.array listed)
    ∷ [])

unfoldable pub add_entry : (Z : Zip) → Z.Writer → Text → Bytes → Compression → Result Z.Writer
add_entry Z w name bytes level = or_throw (Z.add_mem w name bytes level) (add_failed name)

unfoldable pub add_assets : (Z : Zip) → Z.Writer → List BundleAsset → Result Z.Writer
add_assets Z w [] = returned w
add_assets Z w (a ∷ assets) = do
  w' ← add_entry Z w a.entry a.bytes none_at_all
  add_assets Z w' assets

unfoldable pub write_bundle : {D N : Type 0} → Zip → Json → Codec D N → MapBundle D N → Result Bytes
write_bundle Z J C bundle = do
  throw_if (is_empty bundle.yaml_name) no_yaml_name
  throw_if (not (entry_name_is_safe bundle.yaml_name)) (unsafe_yaml_name bundle.yaml_name)
  w ← or_throw Z.init_heap no_writer
  listed ← list_assets J bundle.assets
  w ← add_entry Z w manifest_entry (J.dump (manifest_of J bundle.yaml_name listed)) best
  yaml ← or_throw (C.serialize_building bundle.building) yaml_exception
  w ← add_entry Z w bundle.yaml_name yaml best
  w ← add_assets Z w bundle.assets
  or_throw (Z.finalize_heap w) finalize_failed
