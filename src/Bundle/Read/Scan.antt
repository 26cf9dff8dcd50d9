-- ===== src/Bundle/Read/Scan.antt =====
-- The scan of an archive's directory (`read_bundle` in model/map_bundle.cpp).
use mathlib.Core.Path.{subst}
use imrmf_map_editor.Base.{
  ℕ, zero, suc, ◌+◌, ◌≤◌, ◌<◌, ◌≡◌, refl, true, false, some, List, [], ◌∷◌, arith, Bool-cases,
  Option-cases, inl, inr, All,
}
use imrmf_map_editor.Base.Text.{Text, text_eq, text_eq_iff}
use imrmf_map_editor.Building.{find}
use imrmf_map_editor.Bundle
use imrmf_map_editor.Bundle.{
  Result, returned, thrown, ◌>>=◌, returned-injective, thrown-ne-returned, max_total_bytes,
}
use imrmf_map_editor.Bundle.Interface.{Zip, FileStat}
use imrmf_map_editor.Bundle.Names.{entry_name_is_safe}
use imrmf_map_editor.Bundle.Read.{Directory, emplace, scan_file, scan}

-- Every name of the index is safe.
abbrev pub SafeNames : List (Text × ℕ) → Type 0
SafeNames = All (λ e. entry_name_is_safe e.0 ≡ true)

pub find-SafeNames :
    (name : Text) (by_name : List (Text × ℕ)) {i : ℕ}
    → SafeNames by_name
    → find name by_name ≡ some i
    → entry_name_is_safe name ≡ true
unfolding find
find-SafeNames name [] s e = absurd (ground arith)
find-SafeNames name ((n, j) ∷ by_name) s e = elim (Bool-cases (text_eq n name)) [
  | inl same ↦ subst (λ x. entry_name_is_safe x ≡ true) ((text_eq_iff n name).0 same) s.0
  | inr other ↦ find-SafeNames name by_name s.1 (rw (other, find) at e)
]

-- The archive has a file of that name at that place of its directory.
pub record IsEntry (Z : Zip) (r : Z.Reader) (name : Text) (i : ℕ) : Type 0 where
  pub inside : i < Z.num_files r
  pub stat : FileStat
  pub has : Z.file_stat r i ≡ some stat
  pub named : stat.filename ≡ name
  pub file : Z.is_directory r i ≡ false

-- Every name of the index has the place of a file of that name.
abbrev pub IsIndex : (Z : Zip) → Z.Reader → List (Text × ℕ) → Type 0
IsIndex Z r = All (λ e. IsEntry Z r e.0 e.1)

pub find-IsEntry :
    (Z : Zip) (r : Z.Reader) (name : Text) (by_name : List (Text × ℕ)) {i : ℕ}
    → IsIndex Z r by_name
    → find name by_name ≡ some i
    → IsEntry Z r name i
unfolding find
find-IsEntry Z r name [] s e = absurd (ground arith)
find-IsEntry Z r name ((n, j) ∷ by_name) {i} s e = elim (Bool-cases (text_eq n name)) [
  | inl same ↦
      let at : j ≡ i = cc (rw (same, find) at e) in
      rw at at (rw ((text_eq_iff n name).0 same) at s.0)
  | inr other ↦ find-IsEntry Z r name by_name s.1 (rw (other, find) at e)
]

emplace-IsIndex :
    (Z : Zip) (r : Z.Reader) (name : Text) (i : ℕ) (by_name : List (Text × ℕ))
    → IsEntry Z r name i
    → IsIndex Z r by_name
    → IsIndex Z r (emplace name i by_name)
unfolding emplace
emplace-IsIndex Z r name i by_name h s = elim (Option-cases (find name by_name)) [
  | inl new ↦ rw (new, emplace) (h, s)
  | inr (j, old) ↦ rw (old, emplace) s
]

emplace-SafeNames :
    (name : Text) (i : ℕ) (by_name : List (Text × ℕ))
    → entry_name_is_safe name ≡ true
    → SafeNames by_name
    → SafeNames (emplace name i by_name)
unfolding emplace
emplace-SafeNames name i by_name h s = elim (Option-cases (find name by_name)) [
  | inl new ↦ rw (new, emplace) (h, s)
  | inr (j, old) ↦ rw (old, emplace) s
]

-- What the scan keeps: safe names, each of a file that is there, and a total within the cap.
pub record Scanned (Z : Zip) (r : Z.Reader) (d : Directory) : Type 0 where
  pub names : SafeNames d.by_name
  pub places : IsIndex Z r d.by_name
  pub total : d.total_uncompressed ≤ max_total_bytes

module _ (Z : Zip) (r : Z.Reader) where
  scan_file-Scanned :
      (i : ℕ) (st : FileStat) (d d' : Directory)
      → IsEntry Z r st.filename i
      → Scanned Z r d
      → scan_file i st d ≡ returned d'
      → Scanned Z r d'
  unfolding scan_file
  scan_file-Scanned i st d d' entry s e = elim (Bool-cases (entry_name_is_safe st.filename)) [
    | inr bad ↦ absurd (ground arith)
    | inl good ↦
        let kept : emplace st.filename i d.by_name ≡ d'.by_name = ground arith in
        record {
          names = subst SafeNames kept (emplace-SafeNames st.filename i d.by_name good s.names);
          places =
              subst (IsIndex Z r) kept (emplace-IsIndex Z r st.filename i d.by_name entry s.places);
          total = ground arith;
        }
  ]

  pub scan-Scanned :
      (left i : ℕ) (d d' : Directory)
      → i + left ≡ Z.num_files r
      → Scanned Z r d
      → scan Z r left i d ≡ returned d'
      → Scanned Z r d'
  unfolding scan
  scan-Scanned zero i d d' many s e = subst (Scanned Z r) (returned-injective e) s
  scan-Scanned (suc left) i d d' many s e = elim (Option-cases (Z.file_stat r i)) [
    | inl corrupt ↦ absurd (thrown-ne-returned (rw (corrupt, scan) at e))
    | inr (st, has) ↦ elim (Bool-cases (Z.is_directory r i)) [
      | inl folder ↦
          scan-Scanned left (suc i) d d' (omega (arith, many)) s (rw (has, folder, scan) at e)
      | inr file ↦
          let (m, one, rest) =
            Bundle.>>=-eq-returned (scan_file i st d) (λ m. scan Z r left (suc i) m)
              (rw (has, file, scan) at e) in
          let entry : IsEntry Z r st.filename i = record {
            inside = omega (arith, many);
            stat = st;
            has = has;
            named = refl;
            file = file;
          } in
          scan-Scanned left (suc i) m d' (omega (arith, many))
            (scan_file-Scanned i st d m entry s one) rest
    ]
  ]
