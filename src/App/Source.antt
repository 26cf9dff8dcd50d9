-- ===== src/App/Source.antt =====
-- A map that was picked from the disk, checked before it is pushed to a server (`read_map_source` of
-- app/main.cpp). It is none where the emission of the map throws, which nothing there catches.
pub mod Pushable
use imrmf_map_editor.Base.{
  ℕ, ◌*◌, Bool, true, false, not, Option, none, some, List, [], ◌∷◌, length, ltb, ◌⊎◌, inl, inr,
  map, if◌then◌else◌,
}
use imrmf_map_editor.Base.Text.{Text, is_empty}
use imrmf_map_editor.Building.{Building}
use imrmf_map_editor.Paths.{asset_path_is_portable, building_asset_refs}
use imrmf_map_editor.Bundle.{Bytes, BundleAsset, MapBundle, Error, Result, thrown, returned}
use imrmf_map_editor.Bundle.Interface.{Zip, Json, Codec}
use imrmf_map_editor.Bundle.Read.{read_bundle}

-- The messages, by what they say.
pub data Refusal : Type 0 where
  file_is_empty yaml_too_large parse_failed no_levels : Refusal
  not_a_bundle : Error → Refusal
  leaves_folder unusable_path : Text → Refusal

-- An empty message is none. The fields that nobody has set yet are empty.
pub record MapSource : Type 0 where
  pub ok : Bool
  pub error : Option Refusal
  pub yaml : Text
  pub assets : List BundleAsset
  pub missing : List Text

abbrev pub max_yaml_bytes : ℕ
max_yaml_bytes = 32 * 1024 * 1024

-- The first path of a loop over paths that is not portable.
unfoldable pub first_unportable : List Text → Option Text
first_unportable [] = none
first_unportable (p ∷ paths) = elim (asset_path_is_portable p) [
  | true ↦ first_unportable paths
  | false ↦ some p
]

abbrev pub asset_paths : List BundleAsset → List Text
asset_paths assets = map (λ (a : BundleAsset). a.path) assets

-- What `out` is on an early return.
abbrev pub refused : Refusal → List BundleAsset → List Text → MapSource
refused error assets missing = record {
  ok = false;
  error = some error;
  yaml = [];
  assets = assets;
  missing = missing;
}

module _ (Z : Zip) (J : Json) {D N : Type 0} (C : Codec D N) where
  -- The map in the file with its images, or the message of the first exception.
  unfoldable pub open_source : Bytes → Bool → Refusal ⊎ MapBundle D N
  open_source bytes as_bundle = elim as_bundle [
    | true ↦ elim (read_bundle Z J C bytes) [ thrown e ↦ inl (not_a_bundle e) | returned b ↦ inr b ]
    | false ↦
        if ltb max_yaml_bytes (length bytes)
        then inl yaml_too_large
        else elim (C.parse_building bytes) [
          | none ↦ inl parse_failed
          | some b ↦ inr (record { yaml_name = []; building = b; assets = []; missing = [] })
        ]
  ]

  -- What follows the reading.
  unfoldable pub check_source : MapBundle D N → Option MapSource
  unfolding first_unportable
  check_source src = elim (is_empty src.building.levels) [
    | true ↦ some (refused no_levels src.assets src.missing)
    | false ↦ elim (first_unportable (building_asset_refs src.building)) [
      | some p ↦ some (refused (leaves_folder p) src.assets src.missing)
      | none ↦ elim (first_unportable (asset_paths src.assets)) [
        | some p ↦ some (refused (unusable_path p) src.assets src.missing)
        | none ↦ elim (C.serialize_building src.building) [
          | none ↦ none
          | some yaml ↦ some (record {
            ok = true;
            error = none;
            yaml = yaml;
            assets = src.assets;
            missing = src.missing;
          })
        ]
      ]
    ]
  ]

  unfoldable pub read_map_source : Bytes → Bool → Option MapSource
  unfolding open_source check_source
  read_map_source bytes as_bundle = elim (is_empty bytes) [
    | true ↦ some (refused file_is_empty [] [])
    | false ↦ elim (open_source bytes as_bundle) [
      | inl e ↦ some (refused e [] [])
      | inr src ↦ check_source src
    ]
  ]
