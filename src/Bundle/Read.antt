-- ===== src/Bundle/Read.antt =====
-- `read_bundle` and `find_asset` (model/map_bundle.cpp): the bundle in an
-- archive, which is not trusted. A `std::map` from names to indices is the list of its entries; the
-- loops over it give the same in any order, but for which of two errors comes first.
pub mod Scan
pub mod Bounds
pub mod Sound
pub mod Missing
use imrmf_map_editor.Base.{
  ℕ, zero, suc, ◌+◌, ◌-◌, ◌/◌, Bool, true, false, not, ◌&&◌, ◌||◌, Option, none, some, List, [],
  ◌∷◌, ◌++◌, length, ltb, leb, ◌==◌, if◌then◌else◌,
}
use imrmf_map_editor.Base.Int.{ℤ, pos, leb_ℤ, ltb_ℤ}
use imrmf_map_editor.Base.Text.{Text, is_empty, text_eq, mem_text, has_char}
use imrmf_map_editor.Base.Size.{add_size}
use imrmf_map_editor.Building.{Building, find}
use imrmf_map_editor.Paths.{building_asset_refs, slash}
use imrmf_map_editor.Bundle
use imrmf_map_editor.Bundle.{
  Bytes, BundleAsset, MapBundle, Result, returned, thrown, ◌>>=◌, ◌>>◌, throw_if, or_throw,
  manifest_entry, bundle_format, bundle_version, yaml_suffix, max_entries, max_total_bytes,
  max_manifest_assets, max_compression_ratio, extract_failed, unsafe_entry_name, unsafe_asset_entry,
  many_yamls, not_a_map, too_many_images, too_large, empty_file, not_a_zip, empty_archive,
  too_many_entries, corrupt_directory, expands_too_much, bad_json, not_a_manifest, bad_version,
  no_usable_yaml, yaml_failed, too_many_assets, no_such_yaml,
}
use imrmf_map_editor.Bundle.Interface.{Zip, Json, Codec, FileStat, text_value, int_value}
use imrmf_map_editor.Bundle.Names.{entry_name_is_safe}
use imrmf_map_editor.Bundle.Write.{
  key_format, key_version, key_building, key_assets, key_path, key_entry,
}

-- What the scan of the archive's directory accumulates.
pub record Directory : Type 0 where
  pub by_name : List (Text × ℕ)
  pub total_uncompressed : ℕ
  pub total_compressed : ℕ

abbrev pub no_entries : Directory
no_entries = record { by_name = []; total_uncompressed = 0; total_compressed = 0 }

-- `by_name.emplace(name, i)`: the first entry of a name stays.
unfoldable pub emplace : Text → ℕ → List (Text × ℕ) → List (Text × ℕ)
emplace name i by_name = elim (find name by_name) [ none ↦ (name, i) ∷ by_name | some j ↦ by_name ]

-- One entry of the directory, of a file.
unfoldable pub scan_file : ℕ → FileStat → Directory → Result Directory
scan_file i st d = do
  throw_if (not (entry_name_is_safe st.filename)) (unsafe_entry_name st.filename)
  let total = add_size d.total_uncompressed st.uncomp_size
  throw_if (ltb max_total_bytes total) too_large
  returned (record {
    by_name = emplace st.filename i d.by_name;
    total_uncompressed = total;
    total_compressed = add_size d.total_compressed st.comp_size;
  })

module _ (Z : Zip) (r : Z.Reader) where
  -- The loop over the directory, with the number of entries left.
  unfoldable pub scan : ℕ → ℕ → Directory → Result Directory
  scan zero i d = returned d
  scan (suc left) i d = elim (Z.file_stat r i) [
    | none ↦ thrown corrupt_directory
    | some st ↦ elim (Z.is_directory r i) [
      | true ↦ scan left (suc i) d
      | false ↦ scan_file i st d >>= λ d'. scan left (suc i) d'
    ]
  ]

  unfoldable pub extract : ℕ → Text → Result Bytes
  extract index name = or_throw (Z.extract_to_heap r index) (extract_failed name)

  -- An image whose bytes are unpacked, and the running total after it.
  unfoldable pub unpack : Text → Text → ℕ → ℕ → Result (BundleAsset × ℕ)
  unpack path entry index extracted_bytes = do
    bytes ← extract index entry
    let total = add_size extracted_bytes (length bytes)
    throw_if (ltb max_total_bytes total) too_large
    returned (record { path = path; entry = entry; bytes = bytes }, total)

-- A name of the archive's root that ends in `.building.yaml`.
drop_chars : ℕ → Text → Text
drop_chars zero s = s
drop_chars (suc n) [] = []
drop_chars (suc n) (c ∷ s) = drop_chars n s

unfoldable pub is_root_yaml : Text → Bool
unfolding drop_chars
is_root_yaml name =
    ltb (length yaml_suffix) (length name)
    && text_eq (drop_chars (length name - length yaml_suffix) name) yaml_suffix
    && not (has_char slash name)

-- The loop that looks for the one yaml; an empty text is none yet.
unfoldable pub find_yaml : Text → List (Text × ℕ) → Result Text
find_yaml yaml_name [] = returned yaml_name
find_yaml yaml_name ((name, idx) ∷ by_name) = elim (is_root_yaml name) [
  | true ↦ elim (is_empty yaml_name) [ true ↦ find_yaml name by_name | false ↦ thrown many_yamls ]
  | false ↦ find_yaml yaml_name by_name
]

module _ (Z : Zip) (r : Z.Reader) (by_name : List (Text × ℕ)) where
  -- The loop over the references of a plain folder: the names unpacked, their bytes, the count.
  unfoldable pub folder_loop : List Text → ℕ → ℕ → List Text → Result (List BundleAsset × List Text)
  folder_loop extracted total seen_refs [] = returned ([], [])
  folder_loop extracted total seen_refs (ref ∷ refs) =
      elim (ltb max_manifest_assets (seen_refs + 1)) [
        | true ↦ thrown too_many_images
        | false ↦ elim (mem_text ref extracted) [
          | true ↦ folder_loop extracted total (seen_refs + 1) refs
          | false ↦ elim (find ref by_name) [
            | none ↦ do
              (assets, missing) ← folder_loop (ref ∷ extracted) total (seen_refs + 1) refs
              returned (assets, ref ∷ missing)
            | some index ↦ do
              (asset, total') ← unpack Z r ref ref index total
              (assets, missing) ← folder_loop (ref ∷ extracted) total' (seen_refs + 1) refs
              returned (asset ∷ assets, missing)
          ]
        ]
      ]

  unfoldable pub read_plain_folder : {D N : Type 0} → Codec D N → Result (MapBundle D N)
  read_plain_folder C = do
    yaml_name ← find_yaml [] by_name
    throw_if (is_empty yaml_name) not_a_map
    index ← or_throw (find yaml_name by_name) not_a_map
    yaml_bytes ← extract Z r index yaml_name
    building ← or_throw (C.parse_building yaml_bytes) yaml_failed
    (assets, missing) ← folder_loop [] 0 0 (building_asset_refs building)
    returned
        (record { yaml_name = yaml_name; building = building; assets = assets; missing = missing })

-- What the manifest's loop does with one of its items.
pub data Action : Type 0 where
  skip : Action
  report : Text → Text → Action
  take_entry : Text → Text → ℕ → Action

-- The body of that loop up to the unpacking: an item that is no object, has no path or entry, or
-- names an entry that was unpacked before is skipped; an unsafe entry ends the read.
unfoldable pub next_action : (J : Json) → List (Text × ℕ) → List Text → J.Value → Result Action
next_action J by_name extracted a = elim (J.is_object a) [
  | false ↦ returned skip
  | true ↦ do
    path ← text_value J a key_path
    entry ← text_value J a key_entry
    elim (is_empty path || is_empty entry) [
      | true ↦ returned skip
      | false ↦ elim (entry_name_is_safe entry) [
        | false ↦ thrown (unsafe_asset_entry entry)
        | true ↦ elim (mem_text entry extracted) [
          | true ↦ returned skip
          | false ↦ elim (find entry by_name) [
            | none ↦ returned (report path entry)
            | some index ↦ returned (take_entry path entry index)
          ]
        ]
      ]
    ]
]

module _ (Z : Zip) (J : Json) (r : Z.Reader) (by_name : List (Text × ℕ)) where
  -- The loop over the manifest's assets: the entries met so far, and their bytes.
  unfoldable pub manifest_loop :
      List Text → ℕ → List J.Value → Result (List BundleAsset × List Text)
  manifest_loop extracted total [] = returned ([], [])
  manifest_loop extracted total (a ∷ listed) = do
    action ← next_action J by_name extracted a
    elim action [
      | skip ↦ manifest_loop extracted total listed
      | report path entry ↦ do
        (assets, missing) ← manifest_loop (entry ∷ extracted) total listed
        returned (assets, path ∷ missing)
      | take_entry path entry index ↦ do
        (asset, total') ← unpack Z r path entry index total
        (assets, missing) ← manifest_loop (entry ∷ extracted) total' listed
        returned (asset ∷ assets, missing)
    ]

-- `find_asset`
unfoldable pub find_asset : List BundleAsset → Text → Option Bytes
find_asset [] path = none
find_asset (a ∷ assets) path = elim (text_eq a.path path) [
  | true ↦ some a.bytes
  | false ↦ find_asset assets path
]

-- Whether some asset has the path: `std::any_of`.
unfoldable pub is_packed : List BundleAsset → Text → Bool
is_packed [] path = false
is_packed (a ∷ assets) path = text_eq a.path path || is_packed assets path

-- The last loop: what the map refers to and the manifest never listed is missing too.
add_one : List BundleAsset → List Text → Text → List Text
add_one assets missing ref =
    if not (is_packed assets ref) && not (mem_text ref missing)
    then missing ++ ref ∷ []
    else missing

unfoldable pub add_unlisted : List BundleAsset → List Text → List Text → List Text
unfolding add_one
add_unlisted assets missing [] = missing
add_unlisted assets missing (ref ∷ refs) = add_unlisted assets (add_one assets missing ref) refs

-- The scan of the directory and the test for a zip bomb.
unfoldable pub open_archive : (Z : Zip) → Bytes → Result (Z.Reader × List (Text × ℕ))
open_archive Z input = do
  throw_if (is_empty input) empty_file
  r ← or_throw (Z.open_mem input) not_a_zip
  let count = Z.num_files r
  throw_if (count == 0) empty_archive
  throw_if (ltb max_entries count) too_many_entries
  d ← scan Z r count 0 no_entries
  throw_if
      (ltb 0 d.total_compressed
        && ltb max_compression_ratio (d.total_uncompressed / d.total_compressed))
      expands_too_much
  returned (r, d.by_name)

module _ (Z : Zip) (J : Json) where
  -- The assets that the manifest lists; none where it has no list of them.
  unfoldable pub listed_assets :
      (r : Z.Reader) → List (Text × ℕ) → J.Value → Result (List BundleAsset × List Text)
  listed_assets r by_name manifest = elim (J.member manifest key_assets) [
    | none ↦ returned ([], [])
    | some v ↦ elim (J.elements v) [
      | none ↦ returned ([], [])
      | some listed ↦ do
        throw_if (ltb max_manifest_assets (length listed)) too_many_assets
        manifest_loop Z J r by_name [] 0 listed
    ]
  ]

  -- The manifest's checks: its format, its version and the name of the yaml.
  unfoldable pub check_manifest : Option J.Value → Result (J.Value × Text)
  check_manifest parsed = do
    manifest ← or_throw parsed bad_json
    throw_if (not (J.is_object manifest)) bad_json
    format ← text_value J manifest key_format
    throw_if (not (text_eq format bundle_format)) not_a_manifest
    version ← int_value J manifest key_version
    throw_if (leb_ℤ version (pos 0) || ltb_ℤ (pos bundle_version) version) (bad_version version)
    yaml_name ← text_value J manifest key_building
    throw_if (is_empty yaml_name || not (entry_name_is_safe yaml_name)) no_usable_yaml
    returned (manifest, yaml_name)

  unfoldable pub read_manifest :
      {D N : Type 0} → Codec D N → Z.Reader → List (Text × ℕ) → ℕ → Result (MapBundle D N)
  read_manifest C r by_name manifest_idx = do
    manifest_bytes ← extract Z r manifest_idx manifest_entry
    (manifest, yaml_name) ← check_manifest (J.parse manifest_bytes)
    yaml_idx ← or_throw (find yaml_name by_name) (no_such_yaml yaml_name)
    yaml_bytes ← extract Z r yaml_idx yaml_name
    building ← or_throw (C.parse_building yaml_bytes) yaml_failed
    (assets, missing) ← listed_assets r by_name manifest
    returned (record {
      yaml_name = yaml_name;
      building = building;
      assets = assets;
      missing = add_unlisted assets missing (building_asset_refs building);
    })

  unfoldable pub read_bundle : {D N : Type 0} → Codec D N → Bytes → Result (MapBundle D N)
  read_bundle C input = do
    (r, by_name) ← open_archive Z input
    elim (find manifest_entry by_name) [
      | none ↦ read_plain_folder Z r by_name C
      | some manifest_idx ↦ read_manifest C r by_name manifest_idx
    ]
