-- ===== src/Tests/Ui.antt =====
-- Messages and windows (ui/).
use imrmf_map_editor.Base.{◌≡◌, refl, true, false, List, [], ◌∷◌, arith}
use imrmf_map_editor.Base.Text.{Text, codes}
use imrmf_map_editor.Tests.Nodes.{toy_double}
use imrmf_map_editor.Ui.Notifications.{one_line, warning, danger}
use imrmf_map_editor.Ui.Notifications.Stack.{
  Event, message, frame, IsTidy, handle_all, handle_all-IsTidy,
}
use imrmf_map_editor.Ui.Windows.{Window}

abbrev report : Text
report = codes "  could not\n\treach   it "

one_line-report : one_line report ≡ codes "could not reach it"
unfolding one_line
one_line-report = refl

abbrev events : List (Event toy_double)
events =
    message danger report
    ∷ message warning report
    ∷ frame 7 (λ i. false) false
    ∷ message danger report
    ∷ frame 9 (λ i. true) true
    ∷ []

handle_all-IsTidy_example : IsTidy toy_double (handle_all toy_double events [])
handle_all-IsTidy_example =
    handle_all-IsTidy toy_double events [] (record { few = omega arith; apart = tt; cards = tt })

abbrev saved_windows : List Window
saved_windows =
    record { name = codes "Layers"; visible = false }
    ∷ record { name = codes "Log"; visible = true }
    ∷ []

abbrev open_windows : List Window
open_windows =
    record { name = codes "Layers"; visible = true }
    ∷ record { name = codes "Log"; visible = true }
    ∷ []
