-- ===== src/Bundle/Names.antt =====
-- The names of archive entries: model/map_bundle.cpp.
pub mod Digits
use imrmf_map_editor.Base.{
  ℕ, zero, suc, ◌+◌, ◌/◌, ◌%◌, Bool, true, false, not, ◌&&◌, ◌||◌, List, [], ◌∷◌, ◌++◌, ltb, leb,
  ◌==◌, if◌then◌else◌, length,
}
use imrmf_map_editor.Base.Text.{Text, text_eq, is_empty, starts_with, has_char, codes}
use imrmf_map_editor.Paths.{asset_path_is_portable, filename, slash}
use imrmf_map_editor.Bundle.{manifest_entry, external_prefix}

abbrev pub backslash : ℕ
backslash = 92

-- `name[1] == ':'`, a Windows drive letter.
abbrev pub has_drive : Text → Bool
has_drive (c ∷ d ∷ name) = d == b':'
has_drive _ = false

abbrev pub starts_with_slash : Text → Bool
starts_with_slash [] = false
starts_with_slash (c ∷ name) = c == slash || c == backslash

unfoldable pub entry_name_is_safe : Text → Bool
entry_name_is_safe name =
    if is_empty name || ltb 1024 (length name)
    then false
    else if starts_with_slash name
    then false
    else if has_char backslash name
    then false
    else if has_drive name
    then false
    else asset_path_is_portable name

unfoldable pub basename_of : Text → Text
basename_of path = let name = filename path in if is_empty name then codes "asset" else name

unfoldable pub collides_with_bundle_file : Text → Text → Bool
collides_with_bundle_file path yaml_name =
    text_eq path manifest_entry || text_eq path yaml_name || starts_with external_prefix path

-- `std::to_string` of a counter; the fuel is the number itself, which has fewer digits than that.
unfoldable pub digits_of : ℕ → ℕ → Text → Text
digits_of zero n acc = acc
digits_of (suc fuel) n acc =
    let acc' = (b'0' + n % 10) ∷ acc in
    let rest = digits_of fuel (n / 10) acc' in if ltb n 10 then acc' else rest

unfoldable pub to_string : ℕ → Text
unfolding digits_of
to_string n = digits_of (suc n) n []

-- The entry of an image, and the counter after it.
unfoldable pub entry_for : Text → Text → ℕ → Text × ℕ
entry_for path yaml_name external_seq =
    if asset_path_is_portable path && not (collides_with_bundle_file path yaml_name)
    then (path, external_seq)
    else (
      external_prefix ++ (to_string (external_seq + 1) ++ (b'_' ∷ basename_of path)),
      external_seq + 1,
    )
