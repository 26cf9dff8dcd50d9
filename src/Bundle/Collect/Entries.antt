-- ===== src/Bundle/Collect/Entries.antt =====
-- The archive entries that `collect_bundle` (model/map_bundle.cpp) gives to the images differ.
use imrmf_map_editor.Base.{
  ℕ, ◌+◌, ◌≤◌, ◌<◌, ◌≡◌, refl, sym, ◌∙◌, ◌≢◌, ◌⊎◌, Bool, true, false, not, ◌&&◌, ◌||◌, List, [],
  ◌∷◌, ◌++◌, map, arith, Bool-cases, Option-cases, inl, inr, All, All-mono,
}
use imrmf_map_editor.Base.Text.{
  Text, text_eq, text_eq_iff, mem_text, Distinct, starts_with, starts_with-append,
}
use imrmf_map_editor.Building.{Building}
use imrmf_map_editor.Paths.{building_asset_refs, asset_path_is_portable}
use imrmf_map_editor.Bundle.{BundleAsset, external_prefix}
use imrmf_map_editor.Bundle.Names.{entry_for, to_string, basename_of, collides_with_bundle_file}
use imrmf_map_editor.Bundle.Names.Digits.{numbered-injective}
use imrmf_map_editor.Bundle.Collect.{AssetReader, fetch, collect_loop, collect_bundle}
use imrmf_map_editor.Bundle.Collect.Partition.{paths, loop_paths}

abbrev pub entries : List BundleAsset → List Text
entries = map (λ a. a.entry)

abbrev flat_entry : ℕ → Text → Text
flat_entry number base = external_prefix ++ (to_string number ++ (b'_' ∷ base))

-- A flat entry, numbered past `n`.
record IsNumbered (n : ℕ) (entry : Text) : Type 0 where
  number : ℕ
  base : Text
  past : n < number
  form : entry ≡ flat_entry number base

-- An entry outside the flat ones, and none of the bundle's own files.
record IsPlain (yaml_name path entry : Text) : Type 0 where
  same : entry ≡ path
  no_collision : collides_with_bundle_file path yaml_name ≡ false

abbrev HasEntry : Text → ℕ → BundleAsset → Type 0
HasEntry yaml_name n a = IsPlain yaml_name a.path a.entry ⊎ IsNumbered n a.entry

entry_for-cases :
    (path yaml_name : Text) (n : ℕ)
    → (IsPlain yaml_name path (entry_for path yaml_name n).0 × ((entry_for path yaml_name n).1 ≡ n))
      ⊎ ((base : Text) × ((entry_for path yaml_name n).0 ≡ flat_entry (n + 1) base)
          × ((entry_for path yaml_name n).1 ≡ n + 1))
unfolding entry_for
entry_for-cases path yaml_name n =
    elim (Bool-cases
      (asset_path_is_portable path && not (collides_with_bundle_file path yaml_name))) [
        | inl plain ↦ rw plain (inl (record { same = refl; no_collision = ground arith }, refl))
        | inr flat ↦ rw flat (inr (basename_of path, refl, refl))
      ]

HasEntry-mono :
    {yaml_name : Text} (m n : ℕ)
    → m ≤ n
    → (a : BundleAsset) → HasEntry yaml_name n a
    → HasEntry yaml_name m a
HasEntry-mono m n h a (inl plain) = inl plain
HasEntry-mono m n h a (inr flat) =
    inr (record { number = flat.number; base = flat.base; past = omega arith; form = flat.form })

module _ (read : AssetReader) (yaml_name : Text) where
  loop_entries :
      (refs seen : List Text) (n : ℕ)
      → All (HasEntry yaml_name n) (collect_loop read yaml_name seen n refs).0
  unfolding collect_loop
  loop_entries [] seen n = tt
  loop_entries (ref ∷ refs) seen n = elim (Bool-cases (mem_text ref seen)) [
    | inl old ↦ rw (old, collect_loop) (loop_entries refs seen n)
    | inr new ↦ elim (Option-cases (fetch read ref)) [
      | inl e ↦ rw (new, e, collect_loop) (loop_entries refs (ref ∷ seen) n)
      | inr (bytes, e) ↦ elim (entry_for-cases ref yaml_name n) [
        | inl (plain, same) ↦
            rw (new, e, collect_loop) (inl plain, rw same (loop_entries refs (ref ∷ seen) n))
        | inr (base, form, next) ↦
            rw (new, e, collect_loop)
              (
                inr (record { number = n + 1; base = base; past = omega arith; form = form }),
                All-mono (HasEntry-mono n (n + 1) (omega arith)) _
                    (rw next (loop_entries refs (ref ∷ seen) (n + 1))),
              )
      ]
    ]
  ]

plain-ne-flat :
    (yaml_name path : Text) (number : ℕ) (base : Text)
    → collides_with_bundle_file path yaml_name ≡ false
    → path ≢ flat_entry number base
unfolding collides_with_bundle_file
plain-ne-flat yaml_name path number base h e =
    let starts : starts_with external_prefix path ≡ true =
      rw e (starts_with-append external_prefix (to_string number ++ (b'_' ∷ base))) in
    absurd (ground arith)

flat_entry-injective : (m n : ℕ) (b c : Text) → flat_entry m b ≡ flat_entry n c → m ≡ n
flat_entry-injective m n b c e = numbered-injective m n b c (ground arith)

text_eq_ne : (s t : Text) → s ≢ t → text_eq s t ≡ false
text_eq_ne s t h = ground (arith, text_eq_iff s t)

or_false : (a b : Bool) → (a || b) ≡ false → (a ≡ false) × (b ≡ false)
or_false a b h = ground arith

later : {m n : ℕ} → n < m → m ≢ n
later h e = omega arith

module _ (yaml_name : Text) where
  once :
      (read : AssetReader) (refs seen : List Text) (n : ℕ) (ref : Text)
      → mem_text ref (paths (collect_loop read yaml_name (ref ∷ seen) n refs).0) ≡ false
  unfolding mem_text
  once read refs seen n ref =
      ground (arith, loop_paths read yaml_name ref refs (ref ∷ seen) n, text_eq_iff ref ref)

  fresh_plain :
      (n : ℕ) (ref : Text) (assets : List BundleAsset)
      → All (HasEntry yaml_name n) assets
      → mem_text ref (paths assets) ≡ false
      → collides_with_bundle_file ref yaml_name ≡ false
      → mem_text ref (entries assets) ≡ false
  unfolding mem_text
  fresh_plain n ref [] a m c = refl
  fresh_plain n ref (x ∷ assets) (inl plain, a) m c =
      let (differs, rest) = or_false (text_eq x.path ref) _ m in
      rw plain.same (rw differs (fresh_plain n ref assets a rest c))
  fresh_plain n ref (x ∷ assets) (inr flat, a) m c =
      let (differs, rest) = or_false (text_eq x.path ref) _ m in
      rw
        (text_eq_ne x.entry ref
          (λ e. plain-ne-flat yaml_name ref flat.number flat.base c (sym e ∙ flat.form)))
        (fresh_plain n ref assets a rest c)

  fresh_flat :
      (n : ℕ) (base : Text) (assets : List BundleAsset)
      → All (HasEntry yaml_name n) assets
      → mem_text (flat_entry n base) (entries assets) ≡ false
  unfolding mem_text
  fresh_flat n base [] a = refl
  fresh_flat n base (x ∷ assets) (inl plain, a) =
      rw
        (text_eq_ne x.entry (flat_entry n base)
          (λ e. plain-ne-flat yaml_name x.path n base plain.no_collision (sym plain.same ∙ e)))
        (fresh_flat n base assets a)
  fresh_flat n base (x ∷ assets) (inr flat, a) =
      rw
        (text_eq_ne x.entry (flat_entry n base) (λ e.
          later flat.past (flat_entry-injective flat.number n flat.base base (sym flat.form ∙ e))))
        (fresh_flat n base assets a)

  loop-Distinct-entries :
      (read : AssetReader) (refs seen : List Text) (n : ℕ)
      → Distinct (entries (collect_loop read yaml_name seen n refs).0)
  unfolding collect_loop
  loop-Distinct-entries read [] seen n = tt
  loop-Distinct-entries read (ref ∷ refs) seen n = elim (Bool-cases (mem_text ref seen)) [
    | inl old ↦ rw (old, collect_loop) (loop-Distinct-entries read refs seen n)
    | inr new ↦ elim (Option-cases (fetch read ref)) [
      | inl e ↦ rw (new, e, collect_loop) (loop-Distinct-entries read refs (ref ∷ seen) n)
      | inr (bytes, e) ↦ elim (entry_for-cases ref yaml_name n) [
        | inl (plain, same) ↦
            rw (new, e, collect_loop, same, plain.same)
              (
                fresh_plain n ref _ (loop_entries read yaml_name refs (ref ∷ seen) n)
                    (once read refs seen n ref) plain.no_collision,
                loop-Distinct-entries read refs (ref ∷ seen) n,
              )
        | inr (base, form, next) ↦
            rw (new, e, collect_loop, next, form)
              (
                fresh_flat (n + 1) base _ (loop_entries read yaml_name refs (ref ∷ seen) (n + 1)),
                loop-Distinct-entries read refs (ref ∷ seen) (n + 1),
              )
      ]
    ]
  ]

-- No two packed images share an archive entry, whatever their paths and the map's file name: the
-- counter, the prefix and the test for collisions keep flat and plain entries apart.
pub collect_bundle-Distinct-entries :
    {D N : Type 0} (building : Building D N) (yaml_name : Text) (read : AssetReader)
    → Distinct (entries (collect_bundle building yaml_name read).assets)
unfolding collect_bundle
collect_bundle-Distinct-entries building yaml_name read =
    loop-Distinct-entries yaml_name read (building_asset_refs building) [] 0
