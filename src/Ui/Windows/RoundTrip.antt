-- ===== src/Ui/Windows/RoundTrip.antt =====
-- The visibility that is saved is loaded again (ui/window_manager.hpp).
use imrmf_map_editor.Base.{◌≡◌, false, List, ◌∷◌, ◌++◌, map}
use imrmf_map_editor.Base.Text.{Text, has_char}
use imrmf_map_editor.Ui.Windows.{Window, flag}

-- A name that a line can hold.
abbrev pub IsPlainName : Text → Type 0
IsPlainName name = (has_char 10 name ≡ false) × (has_char b'=' name ≡ false)

abbrev line_of : Window → Text
line_of w = w.name ++ b'=' ∷ flag w.visible

abbrev pub names : List Window → List Text
names windows = map (λ w. w.name) windows
