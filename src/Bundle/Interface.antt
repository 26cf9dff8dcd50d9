-- ===== src/Bundle/Interface.antt =====
-- What the bundle code (model/map_bundle.cpp) uses of code outside the repository, and of the
-- module that reads and writes building.yaml.
use imrmf_map_editor.Base.{ℕ, ◌≡◌, Bool, true, Option, none, some, List, []}
use imrmf_map_editor.Base.Int.{ℤ, pos}
use imrmf_map_editor.Base.Text.{Text}
use imrmf_map_editor.Building.{Building, find}
use imrmf_map_editor.Bundle.{Bytes, Result, returned, thrown, json_type_error}

-- `mz_zip_archive_file_stat`, the fields that are read.
pub record FileStat : Type 0 where
  pub filename : Text
  pub uncomp_size : ℕ
  pub comp_size : ℕ

pub data Compression : Type 0 where
  best none_at_all : Compression

-- miniz: an open archive, and an archive that is being written.
pub record Zip : Type 1 where
  pub Reader : Type 0
  pub Writer : Type 0
  pub open_mem : Bytes → Option Reader
  pub num_files : Reader → ℕ
  pub file_stat : Reader → ℕ → Option FileStat
  pub is_directory : Reader → ℕ → Bool
  pub extract_to_heap : Reader → ℕ → Option Bytes
  pub init_heap : Option Writer
  pub add_mem : Writer → Text → Bytes → Compression → Option Writer
  pub finalize_heap : Writer → Option Bytes

-- nlohmann::json. `parse` is `none` for a discarded value; `as_text` and `as_int` are `none` where
-- a conversion throws.
pub record Json : Type 1 where
  pub Value : Type 0
  pub parse : Bytes → Option Value
  pub dump : Value → Bytes
  pub is_object : Value → Bool
  pub member : Value → Text → Option Value
  pub elements : Value → Option (List Value)
  pub as_text : Value → Option Text
  pub as_int : Value → Option ℤ
  pub object : List (Text × Value) → Value
  pub array : List Value → Value
  pub text : Text → Value
  pub int : ℤ → Value

-- The documented behaviour of nlohmann::json that a round trip rests on.
pub record IsJson (J : Json) : Type 0 where
  pub parse-dump : (v : J.Value) → J.parse (J.dump v) ≡ some v
  pub is_object-object : (kvs : List (Text × J.Value)) → J.is_object (J.object kvs) ≡ true
  pub member-object :
      (kvs : List (Text × J.Value)) (k : Text) → J.member (J.object kvs) k ≡ find k kvs
  pub elements-array : (vs : List J.Value) → J.elements (J.array vs) ≡ some vs
  pub as_text-text : (t : Text) → J.as_text (J.text t) ≡ some t
  pub as_int-int : (i : ℤ) → J.as_int (J.int i) ≡ some i

-- `parse_building` and `serialize_building` of model/yaml_io.cpp; `none` is an exception. The module
-- Bundle/Codec fills it.
pub record Codec (D N : Type 0) : Type 0 where
  pub parse_building : Text → Option (Building D N)
  pub serialize_building : Building D N → Option Text

-- `j.value(key, std::string())` and `j.value(key, 0)`: the default where the key is missing, and the
-- exception of the library where the value has another type.
module _ (J : Json) where
  unfoldable pub text_value : J.Value → Text → Result Text
  text_value v key = elim (J.member v key) [
    | none ↦ returned []
    | some m ↦ elim (J.as_text m) [ none ↦ thrown json_type_error | some t ↦ returned t ]
  ]

  unfoldable pub int_value : J.Value → Text → Result ℤ
  int_value v key = elim (J.member v key) [
    | none ↦ returned (pos 0)
    | some m ↦ elim (J.as_int m) [ none ↦ thrown json_type_error | some i ↦ returned i ]
  ]
