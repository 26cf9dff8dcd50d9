-- ===== src/Bundle.antt =====
-- A map and its images in one archive: model/map_bundle.hpp and model/map_bundle.cpp.
-- The archive library (miniz) and the JSON library (nlohmann) are parameters, `Zip` and `Json`; the
-- reader and writer of building.yaml come by the interface `Codec`. Bytes are numbers.
pub mod Interface
pub mod Codec
pub mod Names
pub mod Collect
pub mod Write
pub mod Read
use imrmf_map_editor.Base.{ℕ, List, Bool, true, false, Option, none, some, ◌≡◌, ◌≢◌, refl, ◌*◌}
use imrmf_map_editor.Base.Int.{ℤ}
use imrmf_map_editor.Base.Text.{Text, codes}
use imrmf_map_editor.Building.{Building}

abbrev pub manifest_entry : Text
manifest_entry = codes "manifest.json"

abbrev pub yaml_suffix : Text
yaml_suffix = codes ".building.yaml"

abbrev pub external_prefix : Text
external_prefix = codes "_external/"

abbrev pub bundle_format : Text
bundle_format = codes "rmfmap"

abbrev pub bundle_version : ℕ
bundle_version = 2

abbrev pub max_entries : ℕ
max_entries = 4096

abbrev pub max_total_bytes : ℕ
max_total_bytes = 512 * 1024 * 1024

abbrev pub max_manifest_assets : ℕ
max_manifest_assets = 4096

abbrev pub max_compression_ratio : ℕ
max_compression_ratio = 200

abbrev pub Bytes : Type 0
Bytes = List ℕ

pub record BundleAsset : Type 0 where
  pub path : Text
  pub entry : Text
  pub bytes : Bytes

pub record MapBundle (D N : Type 0) : Type 0 where
  pub yaml_name : Text
  pub building : Building D N
  pub assets : List BundleAsset
  pub missing : List Text

-- A constructor for each message of a `BundleError`; the last two are the exceptions of the JSON
-- and of the YAML library, which pass through.
pub data Error : Type 0 where
  no_yaml_name no_writer finalize_failed : Error
  unsafe_yaml_name unsafe_asset_entry add_failed extract_failed unsafe_entry_name : Text → Error
  many_yamls not_a_map too_many_images too_large empty_file not_a_zip empty_archive : Error
  too_many_entries corrupt_directory expands_too_much bad_json not_a_manifest : Error
  bad_version : ℤ → Error
  no_usable_yaml yaml_failed too_many_assets : Error
  no_such_yaml : Text → Error
  json_type_error yaml_exception : Error

-- What a call comes to: it returns a value or throws.
pub data Result {ℓ} (T : Type ℓ) : Type ℓ where
  thrown : Error → Result T
  returned : T → Result T

infixl 5 ◌>>=◌ ◌>>◌
abbrev pub ◌>>=◌ {ℓ κ} : {S : Type ℓ} {T : Type κ} → Result S → (S → Result T) → Result T
thrown exception >>= after = thrown exception
returned value >>= after = after value

abbrev pub ◌>>◌ {ℓ} : {T : Type ℓ} → Result (Unit {0}) → Result T → Result T
thrown exception >> after = thrown exception
returned _ >> after = after

-- `if (b) throw BundleError(e);`
abbrev pub throw_if : Bool → Error → Result (Unit {0})
throw_if true e = thrown e
throw_if false e = returned tt

abbrev pub or_throw {ℓ} : {T : Type ℓ} → Option T → Error → Result T
or_throw (some value) e = returned value
or_throw none e = thrown e

-- What a step of a block did, when the block returned.
pub >>=-eq-returned {ℓ κ} :
    {S : Type ℓ} {T : Type κ} (first : Result S) (after : S → Result T) {t : T}
    → (first >>= after) ≡ returned t
    → (s : S) × (first ≡ returned s) × (after s ≡ returned t)
>>=-eq-returned (thrown exception) after e = cc
>>=-eq-returned (returned s) after e = (s, refl, e)

pub throw_if-eq-returned {ℓ} :
    {B : Type ℓ} (c : Bool) (e : Error) (k : Result B) {b : B}
    → (throw_if c e >> k) ≡ returned b
    → (c ≡ false) × (k ≡ returned b)
throw_if-eq-returned true e k h = cc
throw_if-eq-returned false e k h = (refl, h)

pub or_throw-eq-returned {ℓ κ} :
    {A : Type ℓ} {B : Type κ} (o : Option A) (e : Error) (f : A → Result B) {b : B}
    → (or_throw o e >>= f) ≡ returned b
    → (a : A) × (o ≡ some a) × (f a ≡ returned b)
or_throw-eq-returned (some a) e f h = (a, refl, h)
or_throw-eq-returned none e f h = cc

pub returned-injective {ℓ} : {A : Type ℓ} {a b : A} → returned a ≡ returned b → a ≡ b
returned-injective e = cc

pub thrown-ne-returned {ℓ} : {A : Type ℓ} {e : Error} {a : A} → thrown e ≢ returned a
thrown-ne-returned e = cc
