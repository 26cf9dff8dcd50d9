-- ===== src/Bundle/Read/Bounds.antt =====
-- What `read_bundle` (model/map_bundle.cpp) unpacks: bounded, each entry once, and from the archive.
use mathlib.Core.Path.{subst}
use imrmf_map_editor.Base.{
  ℕ, ◌+◌, ◌^◌, ◌≤◌, ◌<◌, ◌≡◌, refl, true, false, some, List, [], ◌∷◌, arith, length, ltb,
  Bool-cases, Option-cases, inl, inr, All, sum_by,
}
use imrmf_map_editor.Base.Text.{Text, text_eq_iff, mem_text, Distinct}
use imrmf_map_editor.Base.Size.{add_size}
use imrmf_map_editor.Building.{find}
use imrmf_map_editor.Bundle
use imrmf_map_editor.Bundle.{
  Bytes, BundleAsset, MapBundle, Result, returned, thrown, ◌>>=◌, ◌>>◌, throw_if, or_throw,
  max_total_bytes, max_manifest_assets, too_large, too_many_images, extract_failed, >>=-eq-returned,
  returned-injective, thrown-ne-returned,
}
use imrmf_map_editor.Bundle.Interface.{Zip, Json}
use imrmf_map_editor.Bundle.Names.{entry_name_is_safe}
use imrmf_map_editor.Bundle.Collect.Entries.{entries}
use imrmf_map_editor.Bundle.Read.{
  unpack, extract, folder_loop, manifest_loop, Action, skip, report, take_entry, next_action,
}

-- No buffer of the archive library is half the address space.
abbrev pub IsBounded : (Z : Zip) → Type 0
IsBounded Z =
    (r : Z.Reader) (i : ℕ) (bytes : Bytes)
    → Z.extract_to_heap r i ≡ some bytes
    → length bytes < 2 ^ 63

abbrev pub size_of : BundleAsset → ℕ
size_of a = length a.bytes

module _ (Z : Zip) (r : Z.Reader) (by_name : List (Text × ℕ)) where
  -- The bytes of an asset are those of the archive's entry of its name.
  pub record FromArchive (a : BundleAsset) : Type 0 where
    pub index : ℕ
    pub named : find a.entry by_name ≡ some index
    pub unpacked : Z.extract_to_heap r index ≡ some a.bytes

  -- What a loop returns that began with the entries `extracted` and `total` bytes.
  pub record Unpacked (extracted : List Text) (total : ℕ) (assets : List BundleAsset) : Type 0 where
    pub bounded : total + sum_by size_of assets ≤ max_total_bytes
    pub distinct : Distinct (entries assets)
    pub fresh : All (λ a. mem_text a.entry extracted ≡ false) assets
    pub found : All FromArchive assets

not_among :
    (entry : Text) (extracted : List Text) (assets : List BundleAsset)
    → All (λ a. mem_text a.entry (entry ∷ extracted) ≡ false) assets
    → (mem_text entry (entries assets) ≡ false)
      × All (λ a. mem_text a.entry extracted ≡ false) assets
unfolding mem_text
not_among entry extracted [] a = (refl, tt)
not_among entry extracted (x ∷ assets) a =
    let (rest, fresh) = not_among entry extracted assets a.1 in
    (
      ground (arith, a.0, rest, text_eq_iff x.entry entry, text_eq_iff entry x.entry),
      (ground (arith, a.0), fresh),
    )

module _ (Z : Zip) (small : IsBounded Z) (r : Z.Reader) (by_name : List (Text × ℕ)) where
  unpack_lem :
      (path entry : Text) (index total : ℕ) {asset : BundleAsset} {total' : ℕ}
      → unpack Z r path entry index total ≡ returned (asset, total')
      → total ≤ max_total_bytes
      → (asset.path ≡ path)
        × (asset.entry ≡ entry)
        × (Z.extract_to_heap r index ≡ some asset.bytes)
        × (total' ≡ total + length asset.bytes)
        × (total' ≤ max_total_bytes)
  unfolding unpack extract add_size
  unpack_lem path entry index total {asset} {total'} e fits =
      elim (Option-cases (Z.extract_to_heap r index)) [
        | inl gone ↦ absurd (ground arith)
        | inr (bytes, got) ↦ ground (arith, small r index bytes got)
      ]

  Unpacked-cons :
      (path entry : Text) (extracted : List Text) (index total total' : ℕ) (asset : BundleAsset)
      (assets : List BundleAsset)
      → unpack Z r path entry index total ≡ returned (asset, total')
      → total ≤ max_total_bytes
      → mem_text entry extracted ≡ false
      → find entry by_name ≡ some index
      → (total' ≤ max_total_bytes → Unpacked Z r by_name (entry ∷ extracted) total' assets)
      → Unpacked Z r by_name extracted total (asset ∷ assets)
  unfolding sum_by
  Unpacked-cons path entry extracted index total total' asset assets e fits new named rest =
      let (_, same, got, sum, fits') = unpack_lem path entry index total e fits in
      let u = rest fits' in
      let (once, fresh) = not_among entry extracted assets u.fresh in
      record {
        bounded = omega (arith, u.bounded);
        distinct = (rw same once, u.distinct);
        fresh = (rw same new, fresh);
        found = (record { index = index; named = rw same named; unpacked = got }, u.found);
      }

  pub Unpacked-nil :
      (extracted : List Text) (total : ℕ)
      → total ≤ max_total_bytes
      → Unpacked Z r by_name extracted total []
  unfolding sum_by
  Unpacked-nil extracted total fits = record {
    bounded = omega arith;
    distinct = tt;
    fresh = tt;
    found = tt;
  }

  Unpacked-drop :
      (entry : Text) (extracted : List Text) (total : ℕ) (assets : List BundleAsset)
      → Unpacked Z r by_name (entry ∷ extracted) total assets
      → Unpacked Z r by_name extracted total assets
  Unpacked-drop entry extracted total assets u = record {
    bounded = u.bounded;
    distinct = u.distinct;
    fresh = (not_among entry extracted assets u.fresh).1;
    found = u.found;
  }

  -- Folder entries are the references themselves.
  pub folder_loop-Unpacked :
      (refs extracted : List Text) (total seen_refs : ℕ) {res : List BundleAsset × List Text}
      → total ≤ max_total_bytes
      → folder_loop Z r by_name extracted total seen_refs refs ≡ returned res
      → Unpacked Z r by_name extracted total res.0
  unfolding folder_loop
  folder_loop-Unpacked [] extracted total seen_refs fits e =
      subst (λ x. Unpacked Z r by_name extracted total x.0) (returned-injective e)
        (Unpacked-nil extracted total fits)
  folder_loop-Unpacked (ref ∷ refs) extracted total seen_refs {res} fits e =
      elim (Bool-cases (ltb max_manifest_assets (seen_refs + 1))) [
        | inl many ↦ absurd (thrown-ne-returned (rw (many, folder_loop) at e))
        | inr few ↦ elim (Bool-cases (mem_text ref extracted)) [
          | inl old ↦
              folder_loop-Unpacked refs extracted total (seen_refs + 1) fits
                (rw (few, old, folder_loop) at e)
          | inr new ↦ elim (Option-cases (find ref by_name)) [
            | inl gone ↦
                let (x, ran, done) =
                  Bundle.>>=-eq-returned
                    (folder_loop Z r by_name (ref ∷ extracted) total (seen_refs + 1) refs)
                    (λ x. returned (x.0, ref ∷ x.1)) (rw (few, new, gone, folder_loop) at e) in
                subst (λ y. Unpacked Z r by_name extracted total y.0) (returned-injective done)
                  (Unpacked-drop ref extracted total x.0
                    (folder_loop-Unpacked refs (ref ∷ extracted) total (seen_refs + 1) fits ran))
            | inr (index, named) ↦
                let (x, up, rest) =
                  Bundle.>>=-eq-returned (unpack Z r ref ref index total)
                    (λ x.
                      folder_loop Z r by_name (ref ∷ extracted) x.1 (seen_refs + 1) refs >>= λ y.
                      returned (x.0 ∷ y.0, y.1))
                    (rw (few, new, named, folder_loop) at e) in
                let (y, ran, done) =
                  Bundle.>>=-eq-returned
                    (folder_loop Z r by_name (ref ∷ extracted) x.1 (seen_refs + 1) refs)
                    (λ y. returned (x.0 ∷ y.0, y.1)) rest in
                subst (λ z. Unpacked Z r by_name extracted total z.0) (returned-injective done)
                  (Unpacked-cons ref ref extracted index total x.1 x.0 y.0 up fits new named
                    (λ fits'.
                      folder_loop-Unpacked refs (ref ∷ extracted) x.1 (seen_refs + 1) fits' ran))
          ]
        ]
      ]

  module _ (J : Json) where
    -- What an item that is not skipped has passed.
    abbrev Passed : List Text → Action → Type 0
    Passed extracted skip = Unit
    Passed extracted (report path entry) =
        (entry_name_is_safe entry ≡ true) × (mem_text entry extracted ≡ false)
    Passed extracted (take_entry path entry index) =
        (entry_name_is_safe entry ≡ true)
        × (mem_text entry extracted ≡ false)
        × (find entry by_name ≡ some index)

    next_action-Passed :
        (a : J.Value) (extracted : List Text) {action : Action}
        → next_action J by_name extracted a ≡ returned action
        → Passed extracted action
    unfolding next_action
    next_action-Passed a extracted {action = skip} e = tt
    next_action-Passed a extracted {action = report path entry} e = ground arith
    next_action-Passed a extracted {action = take_entry path entry index} e = ground arith

    abbrev pub SafeEntries : List BundleAsset → Type 0
    SafeEntries = All (λ a. entry_name_is_safe a.entry ≡ true)

    abbrev pub Loaded : List Text → ℕ → List BundleAsset → Type 0
    Loaded extracted total assets = Unpacked Z r by_name extracted total assets × SafeEntries assets

    -- The rest of the loop, once the action is known; `loop` is the loop over the other items.
    manifest_step :
        (loop : List Text → ℕ → Result (List BundleAsset × List Text))
        → ((ex : List Text) (t : ℕ) (res : List BundleAsset × List Text)
            → t ≤ max_total_bytes
            → loop ex t ≡ returned res
            → Loaded ex t res.0)
        → (action : Action) (extracted : List Text) (total : ℕ) (res : List BundleAsset × List Text)
        → total ≤ max_total_bytes
        → Passed extracted action
        → ◌≡◌ {A = Result (List BundleAsset × List Text)}
            (elim action [
              | skip ↦ loop extracted total
              | report path entry ↦ do
                x ← loop (entry ∷ extracted) total
                returned (x.0, path ∷ x.1)
              | take_entry path entry index ↦ do
                x ← unpack Z r path entry index total
                y ← loop (entry ∷ extracted) x.1
                returned (x.0 ∷ y.0, y.1)
            ])
            (returned res)
        → Loaded extracted total res.0
    manifest_step loop rec skip extracted total res fits p e = rec extracted total res fits e
    manifest_step loop rec (report path entry) extracted total res fits p e =
        let (x, ran, done) =
          Bundle.>>=-eq-returned (loop (entry ∷ extracted) total) (λ x. returned (x.0, path ∷ x.1))
            e in
        let (u, safe) = rec (entry ∷ extracted) total x fits ran in
        subst (λ y. Loaded extracted total y.0) (returned-injective done)
          (Unpacked-drop entry extracted total x.0 u, safe)
    manifest_step loop rec (take_entry path entry index) extracted total res fits p e =
        let (x, up, rest) =
          Bundle.>>=-eq-returned (unpack Z r path entry index total)
            (λ x. loop (entry ∷ extracted) x.1 >>= λ y. returned (x.0 ∷ y.0, y.1)) e in
        let (y, ran, done) =
          Bundle.>>=-eq-returned (loop (entry ∷ extracted) x.1) (λ y. returned (x.0 ∷ y.0, y.1))
            rest in
        let (_, same, _, _, fits') = unpack_lem path entry index total up fits in
        let (u, safe) = rec (entry ∷ extracted) x.1 y fits' ran in
        subst (λ z. Loaded extracted total z.0) (returned-injective done)
          (
            Unpacked-cons path entry extracted index total x.1 x.0 y.0 up fits p.1 p.2 (λ _. u),
            (rw same p.0, safe),
          )

    -- Entries of the manifest are safe too, since the loop refuses the others.
    pub manifest_loop-Loaded :
        (listed : List J.Value) (extracted : List Text) (total : ℕ)
        (res : List BundleAsset × List Text)
        → total ≤ max_total_bytes
        → manifest_loop Z J r by_name extracted total listed ≡ returned res
        → Loaded extracted total res.0
    unfolding manifest_loop
    manifest_loop-Loaded [] extracted total res fits e =
        subst (λ x. Loaded extracted total x.0) (returned-injective e)
          (Unpacked-nil extracted total fits, tt)
    manifest_loop-Loaded (a ∷ listed) extracted total res fits e =
        let (action, chosen, rest) =
          Bundle.>>=-eq-returned (next_action J by_name extracted a) _ e in
        manifest_step (λ ex t. manifest_loop Z J r by_name ex t listed)
          (λ ex t res. manifest_loop-Loaded listed ex t res) action extracted total res fits
          (next_action-Passed a extracted chosen) rest
