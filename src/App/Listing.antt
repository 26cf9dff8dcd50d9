-- ===== src/App/Listing.antt =====
-- The maps that a server lists, and the names of files and addresses (app/main.cpp).
pub mod Buildings
use imrmf_map_editor.Base.{
  ℕ, zero, suc, ◌-◌, ◌||◌, Bool, true, false, not, ◌&&◌, Option, none, some, List, [], ◌∷◌, ◌++◌,
  length, ltb, ◌==◌, if◌then◌else◌,
}
use imrmf_map_editor.Base.Text.{Text, codes, text_eq, is_empty, until, starts_with}
use imrmf_map_editor.Textures.Url.{set_base_url}

-- The `while` loop: what stands between one quote and the next; the option is the text since a quote that is
-- not closed yet, which is dropped at the end.
unfoldable pub quoted : Option Text → Text → List Text
quoted text [] = []
quoted none (c ∷ s) = elim (c == b'"') [ true ↦ quoted (some []) s | false ↦ quoted none s ]
quoted (some text) (c ∷ s) = elim (c == b'"') [
  | true ↦ text ∷ quoted none s
  | false ↦ quoted (some (text ++ c ∷ [])) s
]

-- `g_buildings` after it. A response without brackets leaves it empty.
unfoldable pub parse_buildings_payload : Text → List Text
unfolding until quoted
parse_buildings_payload payload = elim ((until b'[' payload).1) [
  | none ↦ []
  | some rest ↦ elim ((until b']' rest).1) [
    | none ↦ []
    | some after ↦ quoted none (until b']' rest).0
  ]
]

-- The lines of the desktop client's list; `line` is what stands in the line so far.
unfoldable pub lines : Text → Text → List Text
lines line [] = if is_empty line then [] else line ∷ []
lines line (c ∷ s) = elim (c == 10) [
  | true ↦ if is_empty line then lines [] s else line ∷ lines [] s
  | false ↦ lines (line ++ c ∷ []) s
]

-- `g_buildings` and `g_building_id` after a list came: the id that is chosen stays.
unfoldable pub take_building_ids : Text → Text → List Text × Text
unfolding lines
take_building_ids payload building_id = elim (lines [] payload) [
  | [] ↦ ([], building_id)
  | id ∷ ids ↦ (id ∷ ids, if is_empty building_id then id else building_id)
]

drop : ℕ → Text → Text
drop n [] = []
drop zero s = s
drop (suc n) (c ∷ s) = drop n s

unfoldable pub has_suffix : Text → Text → Bool
unfolding drop text_eq
has_suffix n suffix =
    ltb (length suffix) (length n) && text_eq (drop (length n - length suffix) n) suffix

-- `dir.back() == '/'`
ends_in_slash : Text → Bool
ends_in_slash [] = false
ends_in_slash (c ∷ []) = c == b'/'
ends_in_slash (c ∷ d ∷ s) = ends_in_slash (d ∷ s)

unfoldable pub join_path : Text → Text → Text
unfolding ends_in_slash
join_path dir name = if is_empty dir || ends_in_slash dir then dir ++ name else dir ++ b'/' ∷ name

unfoldable pub websocket_url : Text → Text → Text
unfolding starts_with drop set_base_url
websocket_url server id =
    let ws =
      if starts_with (codes "https://") server
      then codes "wss://" ++ drop 8 server
      else if starts_with (codes "http://") server
      then codes "ws://" ++ drop 7 server
      else server in
    set_base_url ws ++ (codes "/ws/" ++ id)
