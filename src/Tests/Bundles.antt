-- ===== src/Tests/Bundles.antt =====
-- A map with three images, packed, written and read back through the toy libraries.
use imrmf_map_editor.Base.{ℕ, ◌≡◌, refl, false, not, ◌&&◌, none, some, [], ◌∷◌, if◌then◌else◌}
use imrmf_map_editor.Base.Text.{Text, codes, text_eq, starts_with, has_char, mem_text, Distinct}
use imrmf_map_editor.Base.Size.{add_size}
use imrmf_map_editor.Building.{find}
use imrmf_map_editor.Paths.{
  building_asset_refs, asset_path_is_portable, filename, parts, pieces, is_absolute, stays_inside,
  last_piece,
}
use imrmf_map_editor.Paths.Escape.{walk, StaysBelow, portable-StaysBelow}
use imrmf_map_editor.Bundle.{Bytes, MapBundle, Result, returned, thrown, unsafe_entry_name}
use imrmf_map_editor.Bundle.Interface.{Codec, text_value, int_value}
use imrmf_map_editor.Bundle.Names.{
  entry_name_is_safe, basename_of, collides_with_bundle_file, digits_of, to_string, entry_for,
}
use imrmf_map_editor.Bundle.Collect.{AssetReader, fetch, collect_loop, collect_bundle}
use imrmf_map_editor.Bundle.Collect.Partition.{paths, is_some, collect_bundle-partition}
use imrmf_map_editor.Bundle.Collect.Entries.{entries, collect_bundle-Distinct-entries}
use imrmf_map_editor.Bundle.Write.{list_assets, manifest_of, add_entry, add_assets, write_bundle}
use imrmf_map_editor.Bundle.Read.{
  emplace, scan_file, scan, extract, unpack, is_root_yaml, find_yaml, folder_loop,
  read_plain_folder, next_action, manifest_loop, find_asset, is_packed, add_unlisted, listed_assets,
  check_manifest, read_manifest, open_archive, read_bundle,
}
use imrmf_map_editor.Bundle.Read.Missing.{AllAccounted, read_bundle-Accounted}
use imrmf_map_editor.Bundle.Read.Sound.{IsSound, read_bundle-IsSound}
use imrmf_map_editor.Tests.Chunks.{chunks, unchunk, split_at}
use imrmf_map_editor.Tests.Libraries.{
  toy_zip, toy_json, toy_zip-IsBounded, bounded, stat, pair_up, unpair, after_tag, members,
}
use imrmf_map_editor.Tests.Maps.{Node, building}

-- What a run of the model computes with.
program : Unit {0}
unfolding text_eq starts_with has_char mem_text add_size find building_asset_refs
    asset_path_is_portable filename parts pieces is_absolute stays_inside last_piece text_value
    int_value entry_name_is_safe basename_of collides_with_bundle_file digits_of to_string entry_for
    fetch collect_loop collect_bundle list_assets manifest_of add_entry add_assets write_bundle
    emplace scan_file scan extract unpack is_root_yaml find_yaml folder_loop read_plain_folder
    next_action manifest_loop find_asset is_packed add_unlisted listed_assets check_manifest
    read_manifest open_archive read_bundle chunks unchunk split_at bounded stat pair_up unpair
    after_tag members
program = tt

-- Every text stands for the sample map.
abbrev pub toy_codec : Codec ℕ Node
toy_codec = record { parse_building = λ t. some building; serialize_building = λ b. some b.name }

-- All images but `layers/b.png` can be read.
abbrev images : AssetReader
unfolding text_eq
images = some (λ path. if text_eq path (codes "layers/b.png") then none else some (1 ∷ 2 ∷ 3 ∷ []))

abbrev yaml_name : Text
yaml_name = codes "lobby.building.yaml"

abbrev packed : MapBundle ℕ Node
packed = record {
  yaml_name = yaml_name;
  building = building;
  assets =
      record { path = codes "a.png"; entry = codes "a.png"; bytes = 1 ∷ 2 ∷ 3 ∷ [] }
      ∷ record {
        path = codes "../c.png";
        entry = codes "_external/1_c.png";
        bytes = 1 ∷ 2 ∷ 3 ∷ [];
      }
      ∷ [];
  missing = codes "layers/b.png" ∷ [];
}

packs : collect_bundle building yaml_name images ≡ packed
unfolding program
packs = refl

-- The archive of the bundle.
abbrev archive : Result Bytes
unfolding program
archive = write_bundle toy_zip toy_json toy_codec packed

abbrev bytes_of : Result Bytes → Bytes
bytes_of (returned b) = b
bytes_of (thrown e) = []

abbrev pub input : Bytes
unfolding program
input = bytes_of archive

reads_back : read_bundle toy_zip toy_json toy_codec input ≡ returned packed
unfolding program
reads_back = refl

-- A directory with an escaping name is refused.
refuses :
    read_bundle toy_zip toy_json toy_codec (chunks (codes "../x" ∷ (1 ∷ []) ∷ []))
    ≡ thrown (unsafe_entry_name (codes "../x"))
unfolding program
refuses = refl

-- A path with a backslash is packed under its own name, which the writer then refuses.
backslash_path : Text
backslash_path = b'a' ∷ 92 ∷ b'b' ∷ []

backslash_refused :
    ((entry_for backslash_path yaml_name 0).0 ≡ backslash_path)
    × (entry_name_is_safe backslash_path ≡ false)
unfolding program backslash_path
backslash_refused = (refl, refl)

collect_bundle-partition_example :
    (mem_text (codes "a.png") (paths (collect_bundle building yaml_name images).assets) ≡ (
      mem_text (codes "a.png") (building_asset_refs building)
      && is_some (fetch images (codes "a.png"))))
    × (mem_text (codes "a.png") (collect_bundle building yaml_name images).missing ≡ (
        mem_text (codes "a.png") (building_asset_refs building)
        && not (is_some (fetch images (codes "a.png")))))
    × Distinct (paths (collect_bundle building yaml_name images).assets)
    × Distinct (collect_bundle building yaml_name images).missing
unfolding program
collect_bundle-partition_example =
    collect_bundle-partition building yaml_name images (codes "a.png")

collect_bundle-Distinct-entries_example :
    Distinct (entries (collect_bundle building yaml_name images).assets)
unfolding program
collect_bundle-Distinct-entries_example = collect_bundle-Distinct-entries building yaml_name images

abbrev inner : Text
inner = codes "layers/../b.png"

portable-StaysBelow_example :
    StaysBelow (codes "maps" ∷ []) (walk (codes "maps" ∷ []) (parts inner))
portable-StaysBelow_example = portable-StaysBelow inner (codes "maps" ∷ []) (unfold program in refl)

read_bundle-IsSound_example :
    (r : toy_zip.Reader) × (toy_zip.open_mem input ≡ some r) × IsSound toy_zip r packed.assets
unfolding program
read_bundle-IsSound_example =
    read_bundle-IsSound toy_zip toy_json toy_codec input packed toy_zip-IsBounded reads_back

read_bundle-Accounted_example : AllAccounted packed
unfolding program
read_bundle-Accounted_example =
    read_bundle-Accounted toy_zip toy_json toy_codec packed input reads_back
