-- ===== src/Ui/Notifications.antt =====
-- Transient messages: ui/notifications.hpp. The queue is a list, its front first. ImGui gives the time
-- of a frame, which cards the mouse is over, and whether it was clicked: arguments of `draw`.
pub mod OneLine
pub mod Parts
pub mod Stack
use imrmf_map_editor.Base.{
  ℕ, zero, suc, ◌+◌, Bool, true, false, not, ◌&&◌, ◌||◌, Option, none, some, List, [], ◌∷◌, ◌++◌,
  length, erase_idx, ltb, leb, ◌==◌, if◌then◌else◌,
}
use imrmf_map_editor.Base.Text.{Text, codes, text_eq, is_empty}
use imrmf_map_editor.Building.Double.{Double}
use imrmf_map_editor.Base.Int.{pos}
use imrmf_map_editor.Bundle.Names.{to_string}

-- `theme::Signal`
pub data Signal : Type 0 where
  success warning danger info muted : Signal

unfoldable pub signal_eq : Signal → Signal → Bool
signal_eq success success = true
signal_eq warning warning = true
signal_eq danger danger = true
signal_eq info info = true
signal_eq muted muted = true
signal_eq _ _ = false

pub record Notification (D : Type 0) : Type 0 where
  pub signal : Signal
  pub text : Text
  pub count : ℕ
  pub posted : D

-- `kNotifyMax`
abbrev pub notify_max : ℕ
notify_max = 5

-- Twelve seconds for an error, six for the others.
unfoldable pub notification_seconds : Signal → ℕ
notification_seconds danger = 12
notification_seconds _ = 6

unfoldable pub notification_label : {D : Type 0} → Notification D → Text
unfolding to_string
notification_label n =
    if ltb 1 n.count then n.text ++ (codes "  (x" ++ (to_string n.count ++ codes ")")) else n.text

abbrev pub max_chars : ℕ
max_chars = 240

-- The bytes of "…".
abbrev pub ellipsis : Text
ellipsis = 226 ∷ 128 ∷ 166 ∷ []

unfoldable pub is_space : ℕ → Bool
is_space c = c == b' ' || c == 9 || c == 10 || c == 13

-- The loop of `one_line`: what is out, whether a space is due, and what is left.
unfoldable pub one_line_loop : Text → Bool → Text → Text
unfolding is_space
one_line_loop out space [] = out
one_line_loop out space (c ∷ text) =
    let skipped = one_line_loop out (not (is_empty out)) text in
    let spaced = if space then out ++ b' ' ∷ [] else out in
    let kept = one_line_loop (spaced ++ c ∷ []) false text in
    if is_space c
    then skipped
    else if leb max_chars (length spaced)
    then spaced ++ ellipsis
    else kept

unfoldable pub one_line : Text → Text
unfolding one_line_loop
one_line text = one_line_loop [] false text

module _ {D : Type 0} (F : Double D) where
  abbrev pub same_card : Signal → Text → Notification D → Bool
  same_card signal text n = signal_eq n.signal signal && text_eq n.text text

  -- The loop over the queue: none where no card is the same.
  unfoldable pub bump : Signal → Text → List (Notification D) → Option (List (Notification D))
  unfolding signal_eq text_eq
  bump signal text [] = none
  bump signal text (n ∷ queue) =
      let rest = bump signal text queue in
      if same_card signal text n
      then some (record n { count = n.count + 1; posted = F.zero } ∷ queue)
      else elim rest [ none ↦ none | some bumped ↦ some (n ∷ bumped) ]

  -- `while (queue.size() > kNotifyMax) queue.pop_front();`
  unfoldable pub pop_extra : List (Notification D) → List (Notification D)
  pop_extra [] = []
  pop_extra (n ∷ queue) =
      let popped = pop_extra queue in
      if ltb notify_max (length (n ∷ queue)) then popped else n ∷ queue

  abbrev pub fresh_card : Signal → Text → Notification D
  fresh_card signal text = record { signal = signal; text = text; count = 1; posted = F.zero }

  -- `Notify`, after the text was put on one line.
  unfoldable pub post : Signal → Text → List (Notification D) → List (Notification D)
  unfolding bump pop_extra
  post signal text queue = elim (bump signal text queue) [
    | none ↦ pop_extra (queue ++ fresh_card signal text ∷ [])
    | some bumped ↦ bumped
  ]

  unfoldable pub notify : Signal → Text → List (Notification D) → List (Notification D)
  unfolding one_line post
  notify signal text queue =
      if is_empty (one_line text) then queue else post signal (one_line text) queue

  -- `DrawNotifications`: the cards whose time is over go.
  unfoldable pub is_expired : D → Notification D → Bool
  unfolding notification_seconds
  is_expired now n =
      F.lt F.zero n.posted
      && F.lt (F.of_int (pos (notification_seconds n.signal))) (F.sub now n.posted)

  unfoldable pub expire : D → List (Notification D) → List (Notification D)
  unfolding is_expired
  expire now [] = []
  expire now (n ∷ queue) =
      let rest = expire now queue in if is_expired now n then rest else n ∷ rest

  -- A card that is drawn for the first time, or that the mouse is over, is posted now.
  unfoldable pub touch : D → Bool → Notification D → Notification D
  touch now hovered n = if hovered || F.le n.posted F.zero then record n { posted = now } else n

  -- The loop over the cards from index `i` on; `hovered` says which the mouse is over.
  unfoldable pub touch_all : D → (ℕ → Bool) → ℕ → List (Notification D) → List (Notification D)
  unfolding touch
  touch_all now hovered i [] = []
  touch_all now hovered i (n ∷ queue) =
      touch now (hovered i) n ∷ touch_all now hovered (suc i) queue

  -- The index that is dismissed: of the cards under a click the last that the loop meets, which runs
  -- from the newest card to the oldest.
  unfoldable pub dismissed : Bool → (ℕ → Bool) → ℕ → List (Notification D) → Option ℕ
  dismissed clicked hovered i [] = none
  dismissed clicked hovered i (n ∷ queue) =
      let rest = dismissed clicked hovered (suc i) queue in
      if clicked && hovered i then some i else rest

  unfoldable pub dismiss : Option ℕ → List (Notification D) → List (Notification D)
  dismiss none queue = queue
  dismiss (some i) queue = erase_idx queue i

  unfoldable pub draw_notifications :
      D → (ℕ → Bool) → Bool → List (Notification D) → List (Notification D)
  unfolding expire touch_all dismissed dismiss
  draw_notifications now hovered clicked queue =
      let shown = expire now queue in
      dismiss (dismissed clicked hovered 0 shown) (touch_all now hovered 0 shown)
