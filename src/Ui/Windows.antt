-- ===== src/Ui/Windows.antt =====
-- The window manager: ui/window_manager.hpp. A window is its name and whether it is visible; what its
-- body draws is not modelled. A file that cannot be opened is `none`.
pub mod RoundTrip
use imrmf_map_editor.Base.{
  Bool, true, false, not, ◌&&◌, Option, none, some, List, [], ◌∷◌, ◌++◌, map, ◌==◌, if◌then◌else◌,
}
use imrmf_map_editor.Base.Text.{Text, codes, text_eq, until}

pub record Window : Type 0 where
  pub name : Text
  pub visible : Bool

unfoldable pub add_window : Window → List Window → List Window
add_window window windows = windows ++ window ∷ []

-- `closed` says of which windows the user clicked the close button.
unfoldable pub draw_all : (Text → Bool) → List Window → List Window
draw_all closed windows =
    map {B = Window} (λ w. record w { visible = w.visible && not (closed w.name) }) windows

-- `clicked` says of which windows the user clicked the item.
unfoldable pub draw_window_menu : (Text → Bool) → List Window → List Window
draw_window_menu clicked windows =
    map {B = Window}
      (λ w. record w { visible = if clicked w.name then not w.visible else w.visible }) windows

abbrev pub flag : Bool → Text
flag visible = if visible then codes "1" else codes "0"

-- The text that `save_visibility_state` writes.
unfoldable pub visibility_state : List Window → Text
visibility_state [] = []
visibility_state (w ∷ windows) =
    w.name ++ (b'=' ∷ (flag w.visible ++ (10 ∷ visibility_state windows)))

-- A character before the first line.
unfoldable pub on_first : Text → List Text → List Text
on_first s [] = s ∷ []
on_first s (line ∷ rest) = (s ++ line) ∷ rest

-- What the loop on `std::getline` meets: a last line may lack its end.
unfoldable pub lines : Text → List Text
unfolding on_first
lines [] = []
lines (c ∷ s) = let rest = lines s in if c == 10 then [] ∷ rest else on_first (c ∷ []) rest

-- The first window of the name.
unfoldable pub set_visible : Text → Bool → List Window → List Window
unfolding text_eq
set_visible name visible [] = []
set_visible name visible (w ∷ windows) =
    let rest = set_visible name visible windows in
    if text_eq name w.name then record w { visible = visible } ∷ windows else w ∷ rest

unfoldable pub load_line : Text → List Window → List Window
unfolding until set_visible
load_line line windows = elim (until b'=' line).1 [
  | none ↦ windows
  | some value ↦ set_visible (until b'=' line).0 (text_eq value (codes "1")) windows
]

unfoldable pub load_lines : List Text → List Window → List Window
unfolding load_line
load_lines [] windows = windows
load_lines (line ∷ rest) windows = load_lines rest (load_line line windows)

unfoldable pub load_visibility_state : Option Text → List Window → List Window
unfolding lines load_lines
load_visibility_state none windows = windows
load_visibility_state (some file) windows = load_lines (lines file) windows
