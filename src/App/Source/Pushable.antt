-- ===== src/App/Source/Pushable.antt =====
-- What `read_map_source` (app/main.cpp) lets through, and why it refuses the rest.
use mathlib.Core.Path.{subst}
use imrmf_map_editor.Base.{
  Bool, true, false, ◌≡◌, ◌≢◌, ◌≤◌, ◌<◌, length, ltb, refl, none, some, List, [], ◌∷◌, ◌⊎◌, inl,
  inr, All, arith, Bool-cases, Option-cases,
}
use imrmf_map_editor.Base.Text.{
  is_empty-true, is_empty-false, Text, is_empty, mem_text, text_eq_refl,
}
use imrmf_map_editor.Building.{Building}
use imrmf_map_editor.Paths.{asset_path_is_portable, building_asset_refs}
use imrmf_map_editor.Bundle.{Bytes, MapBundle, Error, Result, thrown, returned}
use imrmf_map_editor.Bundle.Read.{read_bundle}
use imrmf_map_editor.Bundle.Interface.{Zip, Json, Codec}
use imrmf_map_editor.App.Source.{
  Refusal, file_is_empty, yaml_too_large, parse_failed, not_a_bundle, max_yaml_bytes, no_levels,
  leaves_folder, unusable_path, MapSource, first_unportable, asset_paths, refused, open_source,
  check_source, read_map_source,
}

abbrev pub AllPortable : List Text → Type 0
AllPortable paths = All (λ p. asset_path_is_portable p ≡ true) paths

first_unportable-none : (paths : List Text) → first_unportable paths ≡ none → AllPortable paths
unfolding first_unportable
first_unportable-none [] h = tt
first_unportable-none (p ∷ paths) h = elim (Bool-cases (asset_path_is_portable p)) [
  | inl fine ↦ (fine, first_unportable-none paths (rw (first_unportable, fine) at h))
  | inr bad ↦ absurd (cc (rw (first_unportable, bad) at h))
]

-- `p` is one of the paths, and is not portable.
abbrev pub IsUnportable : Text → List Text → Type 0
IsUnportable p paths = (mem_text p paths ≡ true) × (asset_path_is_portable p ≡ false)

first_unportable-some :
    (p : Text) (paths : List Text) → first_unportable paths ≡ some p → IsUnportable p paths
unfolding first_unportable mem_text
first_unportable-some p [] h = cc
first_unportable-some p (q ∷ paths) h = elim (Bool-cases (asset_path_is_portable q)) [
  | inl portable ↦
      let (later, bad) = first_unportable-some p paths (rw (first_unportable, portable) at h) in
      (ground (arith, later), bad)
  | inr bad ↦
      let same : q ≡ p = cc (rw (first_unportable, bad) at h) in
      (rw (same, text_eq_refl p) refl, rw (same) at bad)
]

-- What the file holds: a bundle that can be read, or the text of a map that is not too large.
pub data Holds (Z : Zip) (J : Json) {D N : Type 0} (C : Codec D N) (bytes : Bytes)
    (as_bundle : Bool) (src : MapBundle D N) : Type 0 where
  holds_bundle :
      as_bundle ≡ true → read_bundle Z J C bytes ≡ returned src → Holds Z J C bytes as_bundle src
  holds_text :
      as_bundle ≡ false
      → length bytes ≤ max_yaml_bytes
      → C.parse_building bytes ≡ some src.building
      → src.assets ≡ []
      → Holds Z J C bytes as_bundle src

-- Each message is true of the file that is refused.
pub data IsReason (Z : Zip) (J : Json) {D N : Type 0} (C : Codec D N) (bytes : Bytes)
    (as_bundle : Bool) : Refusal → Type 0 where
  is_nothing : bytes ≡ [] → IsReason Z J C bytes as_bundle file_is_empty
  is_bad_bundle :
      (e : Error)
      → as_bundle ≡ true
      → read_bundle Z J C bytes ≡ thrown e
      → IsReason Z J C bytes as_bundle (not_a_bundle e)
  is_large :
      as_bundle ≡ false
      → max_yaml_bytes < length bytes
      → IsReason Z J C bytes as_bundle yaml_too_large
  is_no_map :
      as_bundle ≡ false
      → length bytes ≤ max_yaml_bytes
      → C.parse_building bytes ≡ none
      → IsReason Z J C bytes as_bundle parse_failed
  is_levelless :
      (src : MapBundle D N)
      → Holds Z J C bytes as_bundle src
      → src.building.levels ≡ []
      → IsReason Z J C bytes as_bundle no_levels
  is_leaving :
      (src : MapBundle D N) (p : Text)
      → Holds Z J C bytes as_bundle src
      → IsUnportable p (building_asset_refs src.building)
      → IsReason Z J C bytes as_bundle (leaves_folder p)
  is_unusable :
      (src : MapBundle D N) (p : Text)
      → Holds Z J C bytes as_bundle src
      → IsUnportable p (asset_paths src.assets)
      → IsReason Z J C bytes as_bundle (unusable_path p)

-- The file has a map whose text is the one to push: it has a level, and each image that it names or that
-- comes with it has a path that stays in the map's folder.
pub record IsPushable (Z : Zip) (J : Json) {D N : Type 0} (C : Codec D N) (bytes : Bytes)
    (as_bundle : Bool) (out : MapSource) : Type 0 where
  pub src : MapBundle D N
  pub holds : Holds Z J C bytes as_bundle src
  pub ok : out.ok ≡ true
  pub silent : out.error ≡ none
  pub has_levels : src.building.levels ≢ []
  pub refs : AllPortable (building_asset_refs src.building)
  pub assets : AllPortable (asset_paths out.assets)
  pub packed : out.assets ≡ src.assets
  pub emits : C.serialize_building src.building ≡ some out.yaml

-- Nothing is to be pushed, and there is a message, which is true.
pub record IsRefused (Z : Zip) (J : Json) {D N : Type 0} (C : Codec D N) (bytes : Bytes)
    (as_bundle : Bool) (out : MapSource) : Type 0 where
  pub refusal : Refusal
  pub ok : out.ok ≡ false
  pub error : out.error ≡ some refusal
  pub nothing : out.yaml ≡ []
  pub reason : IsReason Z J C bytes as_bundle refusal

result_cases :
    {A : Type 0} (r : Result A) → ((e : Error) × (r ≡ thrown e)) ⊎ ((a : A) × (r ≡ returned a))
result_cases (thrown e) = inl (e, refl)
result_cases (returned a) = inr (a, refl)

sum_cases : {A B : Type 0} (s : A ⊎ B) → ((a : A) × (s ≡ inl a)) ⊎ ((b : B) × (s ≡ inr b))
sum_cases (inl a) = inl (a, refl)
sum_cases (inr b) = inr (b, refl)

module _ (Z : Zip) (J : Json) {D N : Type 0} (C : Codec D N) (bytes : Bytes) where
  -- What reading the file comes to.
  abbrev IsOpened : Bool → Refusal ⊎ MapBundle D N → Type 0
  IsOpened as_bundle (inl e) = IsReason Z J C bytes as_bundle e
  IsOpened as_bundle (inr src) = Holds Z J C bytes as_bundle src

  open_source-IsOpened : (as_bundle : Bool) → IsOpened as_bundle (open_source Z J C bytes as_bundle)
  unfolding open_source
  open_source-IsOpened true = elim (result_cases (read_bundle Z J C bytes)) [
    | inl (e, bad) ↦ rw (bad, open_source) (is_bad_bundle e refl bad)
    | inr (src, good) ↦ rw (good, open_source) (holds_bundle refl good)
  ]
  open_source-IsOpened false = elim (Bool-cases (ltb max_yaml_bytes (length bytes))) [
    | inl large ↦ rw (large, open_source) (is_large refl (ground (arith, large)))
    | inr fits ↦
        let small : length bytes ≤ max_yaml_bytes = ground (arith, fits) in
        elim (Option-cases (C.parse_building bytes)) [
          | inl bad ↦ rw (fits, bad, open_source) (is_no_map refl small bad)
          | inr (b, good) ↦ rw (fits, good, open_source) (holds_text refl small good refl)
        ]
  ]

module _ (Z : Zip) (J : Json) {D N : Type 0} (C : Codec D N)
    (emits : (b : Building D N) → (yaml : Text) × (C.serialize_building b ≡ some yaml)) where
  check_source-cases :
      (bytes : Bytes) (as_bundle : Bool) (src : MapBundle D N)
      → Holds Z J C bytes as_bundle src
      → (out : MapSource) × (check_source Z J C src ≡ some out)
        × (IsPushable Z J C bytes as_bundle out ⊎ IsRefused Z J C bytes as_bundle out)
  unfolding check_source
  check_source-cases bytes as_bundle src holds = elim (Bool-cases (is_empty src.building.levels)) [
    | inl no_level ↦ (
      refused no_levels src.assets src.missing,
      rw (check_source, no_level) refl,
      inr (record {
        refusal = no_levels;
        ok = refl;
        error = refl;
        nothing = refl;
        reason = is_levelless src holds (is_empty-true src.building.levels no_level);
      }),
    )
    | inr some_level ↦ elim (Option-cases (first_unportable (building_asset_refs src.building))) [
      | inr (p, bad) ↦ (
        refused (leaves_folder p) src.assets src.missing,
        rw (check_source, some_level, bad) refl,
        inr (record {
          refusal = leaves_folder p;
          ok = refl;
          error = refl;
          nothing = refl;
          reason =
              is_leaving src p holds
                (first_unportable-some p (building_asset_refs src.building) bad);
        }),
      )
      | inl refs ↦ elim (Option-cases (first_unportable (asset_paths src.assets))) [
        | inr (p, bad) ↦ (
          refused (unusable_path p) src.assets src.missing,
          rw (check_source, some_level, refs, bad) refl,
          inr (record {
            refusal = unusable_path p;
            ok = refl;
            error = refl;
            nothing = refl;
            reason = is_unusable src p holds (first_unportable-some p (asset_paths src.assets) bad);
          }),
        )
        | inl assets ↦
            let (yaml, emitted) = emits src.building in
            (
              record {
                ok = true;
                error = none;
                yaml = yaml;
                assets = src.assets;
                missing = src.missing;
              },
              rw (check_source, some_level, refs, assets, emitted) refl,
              inl (record {
                src = src;
                holds = holds;
                ok = refl;
                silent = refl;
                has_levels = is_empty-false src.building.levels some_level;
                refs = first_unportable-none (building_asset_refs src.building) refs;
                assets = first_unportable-none (asset_paths src.assets) assets;
                packed = refl;
                emits = emitted;
              }),
            )
      ]
    ]
  ]

  -- Where the emission of a map does not throw: reading a picked file comes to a map that may be pushed
  -- (the file is a bundle that can be read, or the text of a map of at most 32 MiB; the map has a level,
  -- and no image path leaves the map's folder) with its text, or to nothing to push and a message that
  -- is true of the file, which is empty, is no bundle, is too large, is no map, has no level, or has an
  -- image path that leaves the folder, as the message says.
  pub read_map_source-cases :
      (bytes : Bytes) (as_bundle : Bool)
      → (out : MapSource) × (read_map_source Z J C bytes as_bundle ≡ some out)
        × (IsPushable Z J C bytes as_bundle out ⊎ IsRefused Z J C bytes as_bundle out)
  unfolding read_map_source
  read_map_source-cases bytes as_bundle = elim (Bool-cases (is_empty bytes)) [
    | inl empty ↦ (
      refused file_is_empty [] [],
      rw (read_map_source, empty) refl,
      inr (record {
        refusal = file_is_empty;
        ok = refl;
        error = refl;
        nothing = refl;
        reason = is_nothing (is_empty-true bytes empty);
      }),
    )
    | inr full ↦
        let opened = open_source-IsOpened Z J C bytes as_bundle in
        elim (sum_cases (open_source Z J C bytes as_bundle)) [
          | inl (e, unread) ↦ (
            refused e [] [],
            rw (read_map_source, full, unread) refl,
            inr (record {
              refusal = e;
              ok = refl;
              error = refl;
              nothing = refl;
              reason = subst (IsOpened Z J C bytes as_bundle) unread opened;
            }),
          )
          | inr (src, read) ↦
              let (out, checked, cases) =
                check_source-cases bytes as_bundle src
                  (subst (IsOpened Z J C bytes as_bundle) read opened) in
              (out, rw (read_map_source, full, read) checked, cases)
        ]
  ]
