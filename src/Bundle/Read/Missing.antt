-- ===== src/Bundle/Read/Missing.antt =====
-- Every image that a map refers to is in the bundle that is read (model/map_bundle.cpp), or is
-- reported missing.
use mathlib.Core.Path.{subst}
use imrmf_map_editor.Base.{
  ℕ, ◌+◌, ◌≡◌, refl, ◌||◌, true, List, [], ◌∷◌, ◌++◌, arith, ltb, Bool-cases, Option-cases, inl,
  inr, All, All-mono,
}
use imrmf_map_editor.Base.Text.{Text, is_empty, text_eq_iff, mem_text}
use imrmf_map_editor.Building.{find}
use imrmf_map_editor.Paths.{building_asset_refs}
use imrmf_map_editor.Bundle
use imrmf_map_editor.Bundle.{
  Bytes, BundleAsset, MapBundle, Result, returned, thrown, ◌>>=◌, returned-injective,
  thrown-ne-returned, max_manifest_assets, manifest_entry, or_throw-eq-returned,
  throw_if-eq-returned, extract_failed,
}
use imrmf_map_editor.Bundle.Interface.{Zip, Json, Codec}
use imrmf_map_editor.Bundle.Read.{
  unpack, extract, folder_loop, find_yaml, read_plain_folder, listed_assets, check_manifest,
  read_manifest, open_archive, read_bundle, add_one, add_unlisted, is_packed,
}

-- A reference is accounted for.
abbrev pub Accounted : List BundleAsset → List Text → Text → Type 0
Accounted assets missing ref = (is_packed assets ref || mem_text ref missing) ≡ true

mem_text-append :
    (s : Text) (ts us : List Text) → mem_text s (ts ++ us) ≡ (mem_text s ts || mem_text s us)
unfolding mem_text
mem_text-append s [] us = refl
mem_text-append s (t ∷ ts) us = ground (arith, mem_text-append s ts us)

add_one-keeps :
    (assets : List BundleAsset) (ref : Text) (missing : List Text) (r : Text)
    → mem_text ref missing ≡ true
    → mem_text ref (add_one assets missing r) ≡ true
unfolding add_one
add_one-keeps assets ref missing r h = ground (arith, mem_text-append ref missing (r ∷ []))

add_one-adds :
    (assets : List BundleAsset) (missing : List Text) (r : Text)
    → Accounted assets (add_one assets missing r) r
unfolding add_one mem_text
add_one-adds assets missing r = ground (arith, mem_text-append r missing (r ∷ []), text_eq_iff r r)

add_unlisted-mem :
    (assets : List BundleAsset) (ref : Text) (missing refs : List Text)
    → mem_text ref missing ≡ true
    → mem_text ref (add_unlisted assets missing refs) ≡ true
unfolding add_unlisted
add_unlisted-mem assets ref missing [] h = h
add_unlisted-mem assets ref missing (r ∷ refs) h =
    add_unlisted-mem assets ref (add_one assets missing r) refs
      (add_one-keeps assets ref missing r h)

add_unlisted-Accounted :
    (assets : List BundleAsset) (missing refs : List Text)
    → All (Accounted assets (add_unlisted assets missing refs)) refs
unfolding add_unlisted
add_unlisted-Accounted assets missing [] = tt
add_unlisted-Accounted assets missing (r ∷ refs) = (
  ground (
    arith,
    add_one-adds assets missing r,
    add_unlisted-mem assets r (add_one assets missing r) refs,
  ),
  add_unlisted-Accounted assets (add_one assets missing r) refs,
)

-- Accounted for by a loop that had met `extracted` before.
abbrev Met : List Text → List BundleAsset × List Text → Text → Type 0
Met extracted res ref =
    (mem_text ref extracted || (is_packed res.0 ref || mem_text ref res.1)) ≡ true

module _ (Z : Zip) (r : Z.Reader) (by_name : List (Text × ℕ)) where
  own :
      (ref : Text) (extracted : List Text) (x : List BundleAsset × List Text)
      → Met (ref ∷ extracted) x ref
  unfolding mem_text
  own ref extracted x = ground (arith, text_eq_iff ref ref)

  unpack-path :
      (path entry : Text) (index total : ℕ) (x : BundleAsset × ℕ)
      → unpack Z r path entry index total ≡ returned x
      → x.0.path ≡ path
  unfolding unpack extract
  unpack-path path entry index total x e = elim (Option-cases (Z.extract_to_heap r index)) [
    | inl gone ↦ absurd (ground arith)
    | inr (bytes, got) ↦ ground arith
  ]

  Met-report :
      (ref : Text) (extracted : List Text) (x : List BundleAsset × List Text) (s : Text)
      → Met (ref ∷ extracted) x s
      → Met extracted (x.0, ref ∷ x.1) s
  unfolding mem_text
  Met-report ref extracted x s h = ground arith

  Met-take :
      (ref : Text) (extracted : List Text) (a : BundleAsset) (y : List BundleAsset × List Text)
      (s : Text)
      → a.path ≡ ref
      → Met (ref ∷ extracted) y s
      → Met extracted (a ∷ y.0, y.1) s
  unfolding mem_text is_packed
  Met-take ref extracted a y s p h = ground arith

  folder_loop-Met :
      (refs extracted : List Text) (total seen_refs : ℕ) (res : List BundleAsset × List Text)
      → folder_loop Z r by_name extracted total seen_refs refs ≡ returned res
      → All (Met extracted res) refs
  unfolding folder_loop
  folder_loop-Met [] extracted total seen_refs res e = tt
  folder_loop-Met (ref ∷ refs) extracted total seen_refs res e =
      elim (Bool-cases (ltb max_manifest_assets (seen_refs + 1))) [
        | inl many ↦ absurd (thrown-ne-returned (rw (many, folder_loop) at e))
        | inr few ↦ elim (Bool-cases (mem_text ref extracted)) [
          | inl old ↦ (
            ground arith,
            folder_loop-Met refs extracted total (seen_refs + 1) res
                (rw (few, old, folder_loop) at e),
          )
          | inr new ↦ elim (Option-cases (find ref by_name)) [
            | inl gone ↦
                let (x, ran, done) =
                  Bundle.>>=-eq-returned
                    (folder_loop Z r by_name (ref ∷ extracted) total (seen_refs + 1) refs)
                    (λ x. returned (x.0, ref ∷ x.1)) (rw (few, new, gone, folder_loop) at e) in
                let rest = folder_loop-Met refs (ref ∷ extracted) total (seen_refs + 1) x ran in
                subst (λ (y : List BundleAsset × List Text). All (Met extracted y) (ref ∷ refs))
                  (returned-injective done)
                  (
                    Met-report ref extracted x ref (own ref extracted x),
                    All-mono (λ s. Met-report ref extracted x s) refs rest,
                  )
            | inr (index, named) ↦
                let (x, up, rest) =
                  Bundle.>>=-eq-returned (unpack Z r ref ref index total)
                    (λ x.
                      folder_loop Z r by_name (ref ∷ extracted) x.1 (seen_refs + 1) refs >>= λ y.
                      returned (x.0 ∷ y.0, y.1))
                    (rw (few, new, named, folder_loop) at e) in
                let (y, ran, done) =
                  Bundle.>>=-eq-returned
                    (folder_loop Z r by_name (ref ∷ extracted) x.1 (seen_refs + 1) refs)
                    (λ y. returned (x.0 ∷ y.0, y.1)) rest in
                let p = unpack-path ref ref index total x up in
                let others = folder_loop-Met refs (ref ∷ extracted) x.1 (seen_refs + 1) y ran in
                subst (λ (z : List BundleAsset × List Text). All (Met extracted z) (ref ∷ refs))
                  (returned-injective done)
                  (
                    Met-take ref extracted x.0 y ref p (own ref extracted y),
                    All-mono (λ s. Met-take ref extracted x.0 y s p) refs others,
                  )
          ]
        ]
      ]

abbrev pub AllAccounted : {D N : Type 0} → MapBundle D N → Type 0
AllAccounted b = All (Accounted b.assets b.missing) (building_asset_refs b.building)

module _ {D N : Type 0} (Z : Zip) (J : Json) (C : Codec D N) (b : MapBundle D N) where
  folder-Accounted :
      (r : Z.Reader) (by_name : List (Text × ℕ))
      → read_plain_folder Z r by_name C ≡ returned b
      → AllAccounted b
  unfolding read_plain_folder mem_text
  folder-Accounted r by_name e =
      let (name, named, e₁) = Bundle.>>=-eq-returned (find_yaml [] by_name) _ e in
      let (_, e₂) = throw_if-eq-returned (is_empty name) _ _ e₁ in
      let (index, at, e₃) = or_throw-eq-returned (find name by_name) _ _ e₂ in
      let (bytes, _, e₄) = Bundle.>>=-eq-returned (extract Z r index name) _ e₃ in
      let (m, _, e₅) = or_throw-eq-returned (C.parse_building bytes) _ _ e₄ in
      let (x, ran, e₆) =
        Bundle.>>=-eq-returned (folder_loop Z r by_name [] 0 0 (building_asset_refs m)) _ e₅ in
      subst AllAccounted (returned-injective e₆)
        (folder_loop-Met Z r by_name (building_asset_refs m) [] 0 0 x ran)

  manifest-Accounted :
      (r : Z.Reader) (by_name : List (Text × ℕ)) (idx : ℕ)
      → read_manifest Z J C r by_name idx ≡ returned b
      → AllAccounted b
  unfolding read_manifest
  manifest-Accounted r by_name idx e =
      let (bytes, _, e₁) = Bundle.>>=-eq-returned (extract Z r idx manifest_entry) _ e in
      let (m, _, e₂) = Bundle.>>=-eq-returned (check_manifest Z J (J.parse bytes)) _ e₁ in
      let (yaml_idx, _, e₃) = or_throw-eq-returned (find m.1 by_name) _ _ e₂ in
      let (yaml, _, e₄) = Bundle.>>=-eq-returned (extract Z r yaml_idx m.1) _ e₃ in
      let (map, _, e₅) = or_throw-eq-returned (C.parse_building yaml) _ _ e₄ in
      let (x, listed, e₆) = Bundle.>>=-eq-returned (listed_assets Z J r by_name m.0) _ e₅ in
      subst AllAccounted (returned-injective e₆)
        (add_unlisted-Accounted x.0 x.1 (building_asset_refs map))

  -- A bundle that is read, by its manifest or as a plain folder, accounts for every image that its
  -- map refers to: each is among the unpacked images or is reported missing.
  pub read_bundle-Accounted :
      (input : Bytes) → read_bundle Z J C input ≡ returned b → AllAccounted b
  unfolding read_bundle
  read_bundle-Accounted input e =
      let (x, opened, e₁) = Bundle.>>=-eq-returned (open_archive Z input) _ e in
      elim (Option-cases (find manifest_entry x.1)) [
        | inl plain ↦ folder-Accounted x.0 x.1 (rw plain at e₁)
        | inr (idx, found) ↦ manifest-Accounted x.0 x.1 idx (rw found at e₁)
      ]
