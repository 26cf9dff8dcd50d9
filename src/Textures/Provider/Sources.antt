-- ===== src/Textures/Provider/Sources.antt =====
-- Where the bytes of a texture come from (`read_from` of canvas/stb_texture_provider.cpp).
use imrmf_map_editor.Base.{◌≡◌, Option, none, some, List, [], if◌then◌else◌, Option-cases, inl, inr}
use imrmf_map_editor.Base.Text.{Text, is_empty}
use imrmf_map_editor.Bundle.{Bytes}
use imrmf_map_editor.Textures.Provider.{find_entry, read_from}

-- Without a root nothing is read from the disk, whatever path a map names: what is read is what the
-- bundle packs under that path, and nothing where it packs nothing or the path is empty.
pub read_from-no_root :
    (disk : Text → Option Bytes) (join : Text → Text → Text) (entries : List (Text × Bytes))
    (path : Text)
    → read_from disk join (some entries) [] path
      ≡ (if is_empty path then none else find_entry path entries)
unfolding read_from
read_from-no_root disk join entries path = elim (Option-cases (find_entry path entries)) [
  | inl missing ↦ simp missing
  | inr (bytes, found) ↦ simp found
]
