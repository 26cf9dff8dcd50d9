-- ===== src/Bundle/Read/Sound.antt =====
-- What `read_bundle` (model/map_bundle.cpp) promises of an archive that is not trusted.
use mathlib.Core.Path.{subst}
use imrmf_map_editor.Base.{
  ℕ, ◌+◌, ◌≤◌, ◌≡◌, some, true, List, [], arith, ltb, ◌==◌, Option-cases, inl, inr, All, All-mono,
  length, sum_by,
}
use imrmf_map_editor.Base.Text.{Text, is_empty, Distinct}
use imrmf_map_editor.Building.{find}
use imrmf_map_editor.Paths.{building_asset_refs}
use imrmf_map_editor.Bundle
use imrmf_map_editor.Bundle.{
  Bytes, BundleAsset, MapBundle, Result, returned, thrown, max_manifest_assets, too_many_assets,
  ◌>>=◌, ◌>>◌, or_throw, throw_if, returned-injective, thrown-ne-returned, max_total_bytes,
  manifest_entry, or_throw-eq-returned, throw_if-eq-returned,
}
use imrmf_map_editor.Bundle.Interface.{Zip, Json, Codec}
use imrmf_map_editor.Bundle.Names.{entry_name_is_safe}
use imrmf_map_editor.Bundle.Collect.Entries.{entries}
use imrmf_map_editor.Bundle.Read.{
  no_entries, scan, extract, folder_loop, find_yaml, read_plain_folder, listed_assets,
  manifest_loop, check_manifest, read_manifest, open_archive, read_bundle,
}
use imrmf_map_editor.Bundle.Write.{key_assets}
use imrmf_map_editor.Bundle.Read.Scan.{
  SafeNames, find-SafeNames, IsEntry, IsIndex, find-IsEntry, Scanned, scan-Scanned,
}
use imrmf_map_editor.Bundle.Read.Bounds.{
  IsBounded, size_of, FromArchive, Unpacked, Unpacked-nil, folder_loop-Unpacked,
  manifest_loop-Loaded,
}

-- What opening an archive gives: its reader, and an index of its files by safe names.
record Opened (Z : Zip) (input : Bytes) (r : Z.Reader) (by_name : List (Text × ℕ)) : Type 0 where
  opens : Z.open_mem input ≡ some r
  names : SafeNames by_name
  places : IsIndex Z r by_name

from_zero : (n : ℕ) → 0 + n ≡ n
from_zero n = omega arith

no_entries-Scanned : (Z : Zip) (r : Z.Reader) → Scanned Z r no_entries
no_entries-Scanned Z r = record { names = tt; places = tt; total = omega arith }

open_archive-Opened :
    (Z : Zip) (input : Bytes) (r : Z.Reader) (by_name : List (Text × ℕ))
    → open_archive Z input ≡ returned (r, by_name)
    → Opened Z input r by_name
unfolding open_archive
open_archive-Opened Z input r by_name e =
    let (_, e₁) = throw_if-eq-returned (is_empty input) _ _ e in
    let (q, opened, e₂) = or_throw-eq-returned (Z.open_mem input) _ _ e₁ in
    let (_, e₃) = throw_if-eq-returned (Z.num_files q == 0) _ _ e₂ in
    let (_, e₄) = throw_if-eq-returned _ _ _ e₃ in
    let (d, scanned, e₅) = Bundle.>>=-eq-returned (scan Z q (Z.num_files q) 0 no_entries) _ e₄ in
    let (_, e₆) = throw_if-eq-returned _ _ _ e₅ in
    let s =
      scan-Scanned Z q (Z.num_files q) 0 no_entries d (from_zero (Z.num_files q))
        (no_entries-Scanned Z q) scanned in
    subst (λ (x : Z.Reader × List (Text × ℕ)). Opened Z input x.0 x.1) (returned-injective e₆)
      (record { opens = opened; names = s.names; places = s.places })

-- The bytes of an image are those of a file of the archive that has the name of its entry.
pub record IsFile (Z : Zip) (r : Z.Reader) (a : BundleAsset) : Type 0 where
  pub index : ℕ
  pub at : IsEntry Z r a.entry index
  pub unpacked : Z.extract_to_heap r index ≡ some a.bytes

-- The images that a read returns, with the reader that they came from.
pub record IsSound (Z : Zip) (r : Z.Reader) (assets : List BundleAsset) : Type 0 where
  pub bounded : sum_by size_of assets ≤ max_total_bytes
  pub distinct : Distinct (entries assets)
  pub safe : All (λ a. entry_name_is_safe a.entry ≡ true) assets
  pub found : All (IsFile Z r) assets

module _ (Z : Zip) (r : Z.Reader) (by_name : List (Text × ℕ)) (names : SafeNames by_name)
    (places : IsIndex Z r by_name) where
  found-safe :
      (assets : List BundleAsset)
      → All (FromArchive Z r by_name) assets
      → All (λ a. entry_name_is_safe a.entry ≡ true) assets
  found-safe assets =
      All-mono (λ a (f : FromArchive Z r by_name a). find-SafeNames a.entry by_name names f.named)
        assets

  found-IsFile : (a : BundleAsset) → FromArchive Z r by_name a → IsFile Z r a
  found-IsFile a f = record {
    index = f.index;
    at = find-IsEntry Z r a.entry by_name places f.named;
    unpacked = f.unpacked;
  }

  Unpacked-IsSound :
      (assets : List BundleAsset) → Unpacked Z r by_name [] 0 assets → IsSound Z r assets
  Unpacked-IsSound assets u = record {
    bounded = omega (arith, u.bounded);
    distinct = u.distinct;
    safe = found-safe assets u.found;
    found = All-mono (λ a (f : FromArchive Z r by_name a). found-IsFile a f) assets u.found;
  }

  module _ (small : IsBounded Z) {D N : Type 0} (C : Codec D N) (b : MapBundle D N) where
    folder-IsSound : read_plain_folder Z r by_name C ≡ returned b → IsSound Z r b.assets
    unfolding read_plain_folder
    folder-IsSound e =
        let (name, named, e₁) = Bundle.>>=-eq-returned (find_yaml [] by_name) _ e in
        let (_, e₂) = throw_if-eq-returned (is_empty name) _ _ e₁ in
        let (index, at, e₃) = or_throw-eq-returned (find name by_name) _ _ e₂ in
        let (bytes, _, e₄) = Bundle.>>=-eq-returned (extract Z r index name) _ e₃ in
        let (m, _, e₅) = or_throw-eq-returned (C.parse_building bytes) _ _ e₄ in
        let (x, ran, e₆) =
          Bundle.>>=-eq-returned (folder_loop Z r by_name [] 0 0 (building_asset_refs m)) _ e₅ in
        subst (λ (y : MapBundle D N). IsSound Z r y.assets) (returned-injective e₆)
          (Unpacked-IsSound x.0 (
            folder_loop-Unpacked Z small r by_name (building_asset_refs m) [] 0 0 (omega arith)
              ran))

    module _ (J : Json) where
      nothing :
          (res : List BundleAsset × List Text)
          → returned ([], []) ≡ returned res
          → Unpacked Z r by_name [] 0 res.0
      nothing res e =
          subst (λ (x : List BundleAsset × List Text). Unpacked Z r by_name [] 0 x.0)
            (returned-injective e) (Unpacked-nil Z small r by_name [] 0 (omega arith))

      listed-Unpacked :
          (manifest : J.Value) (res : List BundleAsset × List Text)
          → listed_assets Z J r by_name manifest ≡ returned res
          → Unpacked Z r by_name [] 0 res.0
      unfolding listed_assets
      listed-Unpacked manifest res e = elim (Option-cases (J.member manifest key_assets)) [
        | inl absent ↦ nothing res (rw (absent, listed_assets) at e)
        | inr (v, there) ↦ elim (Option-cases (J.elements v)) [
          | inl scalar ↦ nothing res (rw (there, scalar, listed_assets) at e)
          | inr (listed, array) ↦
              let (_, e₁) =
                throw_if-eq-returned (ltb max_manifest_assets (length listed)) too_many_assets
                  (manifest_loop Z J r by_name [] 0 listed)
                  (rw (there, array, listed_assets) at e) in
              (manifest_loop-Loaded Z small r by_name J listed [] 0 res (omega arith) e₁).0
        ]
      ]

      manifest-IsSound :
          (idx : ℕ) → read_manifest Z J C r by_name idx ≡ returned b → IsSound Z r b.assets
      unfolding read_manifest
      manifest-IsSound idx e =
          let (bytes, _, e₁) = Bundle.>>=-eq-returned (extract Z r idx manifest_entry) _ e in
          let (m, _, e₂) = Bundle.>>=-eq-returned (check_manifest Z J (J.parse bytes)) _ e₁ in
          let (yaml_idx, _, e₃) = or_throw-eq-returned (find m.1 by_name) _ _ e₂ in
          let (yaml, _, e₄) = Bundle.>>=-eq-returned (extract Z r yaml_idx m.1) _ e₃ in
          let (map, _, e₅) = or_throw-eq-returned (C.parse_building yaml) _ _ e₄ in
          let (x, listed, e₆) = Bundle.>>=-eq-returned (listed_assets Z J r by_name m.0) _ e₅ in
          subst (λ (y : MapBundle D N). IsSound Z r y.assets) (returned-injective e₆)
            (Unpacked-IsSound x.0 (listed-Unpacked m.0 x listed))

-- Whatever the input, where the archive library extracts fewer than 2 ^ 63 bytes at once, a bundle
-- that is read has at most `max_total_bytes` of images, no two from one archive entry, each entry
-- name safe, and each image's bytes those that the library extracts at a place of the archive's
-- directory where there is a file of that name.
pub read_bundle-IsSound :
    {D N : Type 0} (Z : Zip) (J : Json) (C : Codec D N) (input : Bytes) (b : MapBundle D N)
    → IsBounded Z
    → read_bundle Z J C input ≡ returned b
    → (r : Z.Reader) × (Z.open_mem input ≡ some r) × IsSound Z r b.assets
unfolding read_bundle
read_bundle-IsSound Z J C input b small e =
    let (x, opened, e₁) = Bundle.>>=-eq-returned (open_archive Z input) _ e in
    let o = open_archive-Opened Z input x.0 x.1 opened in
    elim (Option-cases (find manifest_entry x.1)) [
      | inl plain ↦
          (x.0, o.opens, folder-IsSound Z x.0 x.1 o.names o.places small C b (rw plain at e₁))
      | inr (idx, found) ↦ (
        x.0,
        o.opens,
        manifest-IsSound Z x.0 x.1 o.names o.places small C b J idx (rw found at e₁),
      )
    ]
