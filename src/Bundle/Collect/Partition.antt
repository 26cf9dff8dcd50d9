-- ===== src/Bundle/Collect/Partition.antt =====
-- `collect_bundle` (model/map_bundle.cpp) packs or reports each image, once and in no other way.
use imrmf_map_editor.Base.{
  ℕ, ◌≡◌, refl, Bool, true, false, not, ◌&&◌, Option, none, some, List, [], ◌∷◌, map, arith,
  Bool-cases, Option-cases, inl, inr,
}
use imrmf_map_editor.Base.Text.{Text, text_eq_iff, mem_text, Distinct}
use imrmf_map_editor.Building.{Building}
use imrmf_map_editor.Paths.{building_asset_refs}
use imrmf_map_editor.Bundle.{BundleAsset}
use imrmf_map_editor.Bundle.Names.{entry_for}
use imrmf_map_editor.Bundle.Collect.{AssetReader, fetch, collect_loop, collect_bundle}

abbrev pub paths : List BundleAsset → List Text
paths = map (λ a. a.path)

abbrev pub is_some {ℓ} : {A : Type ℓ} → Option A → Bool
is_some none = false
is_some (some a) = true

module _ (read : AssetReader) (yaml_name : Text) where
  pub loop_paths :
      (p : Text) (refs seen : List Text) (seq : ℕ)
      → mem_text p (paths (collect_loop read yaml_name seen seq refs).0)
        ≡ (mem_text p refs && not (mem_text p seen) && is_some (fetch read p))
  unfolding collect_loop mem_text
  loop_paths p [] seen seq = refl
  loop_paths p (ref ∷ refs) seen seq = elim (Bool-cases (mem_text ref seen)) [
    | inl old ↦
        rw (old, collect_loop) (ground (arith, loop_paths p refs seen seq, text_eq_iff ref p))
    | inr new ↦ elim (Option-cases (fetch read ref)) [
      | inl e ↦
          rw (new, e, collect_loop)
            (ground (arith, loop_paths p refs (ref ∷ seen) seq, text_eq_iff ref p))
      | inr (bytes, e) ↦
          rw (new, e, collect_loop)
            (ground (
              arith,
              loop_paths p refs (ref ∷ seen) (entry_for ref yaml_name seq).1,
              text_eq_iff ref p,
            ))
    ]
  ]

  loop_missing :
      (p : Text) (refs seen : List Text) (seq : ℕ)
      → mem_text p (collect_loop read yaml_name seen seq refs).1
        ≡ (mem_text p refs && not (mem_text p seen) && not (is_some (fetch read p)))
  unfolding collect_loop mem_text
  loop_missing p [] seen seq = refl
  loop_missing p (ref ∷ refs) seen seq = elim (Bool-cases (mem_text ref seen)) [
    | inl old ↦
        rw (old, collect_loop) (ground (arith, loop_missing p refs seen seq, text_eq_iff ref p))
    | inr new ↦ elim (Option-cases (fetch read ref)) [
      | inl e ↦
          rw (new, e, collect_loop)
            (ground (arith, loop_missing p refs (ref ∷ seen) seq, text_eq_iff ref p))
      | inr (bytes, e) ↦
          rw (new, e, collect_loop)
            (ground (
              arith,
              loop_missing p refs (ref ∷ seen) (entry_for ref yaml_name seq).1,
              text_eq_iff ref p,
            ))
    ]
  ]

  loop-Distinct :
      (refs seen : List Text) (seq : ℕ)
      → Distinct (paths (collect_loop read yaml_name seen seq refs).0)
        × Distinct (collect_loop read yaml_name seen seq refs).1
  unfolding collect_loop mem_text
  loop-Distinct [] seen seq = (tt, tt)
  loop-Distinct (ref ∷ refs) seen seq = elim (Bool-cases (mem_text ref seen)) [
    | inl old ↦ rw (old, collect_loop) (loop-Distinct refs seen seq)
    | inr new ↦ elim (Option-cases (fetch read ref)) [
      | inl e ↦
          let (ds, ms) = loop-Distinct refs (ref ∷ seen) seq in
          rw (new, e, collect_loop)
            (ds, (ground (arith, loop_missing ref refs (ref ∷ seen) seq, text_eq_iff ref ref), ms))
      | inr (bytes, e) ↦
          let next = (entry_for ref yaml_name seq).1 in
          let (ds, ms) = loop-Distinct refs (ref ∷ seen) next in
          rw (new, e, collect_loop)
            ((ground (arith, loop_paths ref refs (ref ∷ seen) next, text_eq_iff ref ref), ds), ms)
    ]
  ]

-- Every image that the map refers to is packed exactly when its bytes can be fetched and are not
-- empty, and is reported missing exactly when not; nothing else is packed or reported, and no
-- image twice.
pub collect_bundle-partition :
    {D N : Type 0} (building : Building D N) (yaml_name : Text) (read : AssetReader) (p : Text)
    → (mem_text p (paths (collect_bundle building yaml_name read).assets)
        ≡ (mem_text p (building_asset_refs building) && is_some (fetch read p)))
      × (mem_text p (collect_bundle building yaml_name read).missing
          ≡ (mem_text p (building_asset_refs building) && not (is_some (fetch read p))))
      × Distinct (paths (collect_bundle building yaml_name read).assets)
      × Distinct (collect_bundle building yaml_name read).missing
unfolding collect_bundle mem_text
collect_bundle-partition building yaml_name read p =
    let refs = building_asset_refs building in
    (
      ground (arith, loop_paths read yaml_name p refs [] 0),
      ground (arith, loop_missing read yaml_name p refs [] 0),
      (loop-Distinct read yaml_name refs [] 0).0,
      (loop-Distinct read yaml_name refs [] 0).1,
    )
