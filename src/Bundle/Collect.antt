-- ===== src/Bundle/Collect.antt =====
-- `collect_bundle` (model/map_bundle.cpp): every image of a map, once.
pub mod Partition
pub mod Entries
use imrmf_map_editor.Base.{ℕ, Bool, true, false, Option, none, some, List, [], ◌∷◌, if◌then◌else◌}
use imrmf_map_editor.Base.Text.{Text, is_empty, mem_text}
use imrmf_map_editor.Building.{Building}
use imrmf_map_editor.Paths.{building_asset_refs}
use imrmf_map_editor.Bundle.{Bytes, BundleAsset, MapBundle}
use imrmf_map_editor.Bundle.Names.{entry_for}

-- The function that fetches bytes; it may be empty, and may return false.
abbrev pub AssetReader : Type 0
AssetReader = Option (Text → Option Bytes)

-- The bytes behind a reference, if the read is of any use.
unfoldable pub fetch : AssetReader → Text → Option Bytes
fetch none ref = none
fetch (some read) ref = elim (read ref) [
  | none ↦ none
  | some bytes ↦ if is_empty bytes then none else some bytes
]

-- The loop over the references: what has been seen, the counter, and the references left.
unfoldable pub collect_loop :
    AssetReader → Text → List Text → ℕ → List Text → List BundleAsset × List Text
collect_loop read yaml_name seen external_seq [] = ([], [])
collect_loop read yaml_name seen external_seq (ref ∷ refs) = elim (mem_text ref seen) [
  | true ↦ collect_loop read yaml_name seen external_seq refs
  | false ↦ elim (fetch read ref) [
    | none ↦
        let (assets, missing) = collect_loop read yaml_name (ref ∷ seen) external_seq refs in
        (assets, ref ∷ missing)
    | some bytes ↦
        let (entry, seq) = entry_for ref yaml_name external_seq in
        let (assets, missing) = collect_loop read yaml_name (ref ∷ seen) seq refs in
        (record { path = ref; entry = entry; bytes = bytes } ∷ assets, missing)
  ]
]

unfoldable pub collect_bundle : {D N : Type 0} → Building D N → Text → AssetReader → MapBundle D N
unfolding collect_loop
collect_bundle building yaml_name read =
    let (assets, missing) = collect_loop read yaml_name [] 0 (building_asset_refs building) in
    record { yaml_name = yaml_name; building = building; assets = assets; missing = missing }
