-- ===== src/Ui/Notifications/Stack.antt =====
-- The stack of cards (ui/notifications.hpp) stays small, each message on one card.
use mathlib.Core.Path.{subst}
use imrmf_map_editor.Base.{
  ℕ, ◌≤◌, ◌≡◌, Bool, false, Option, none, some, List, [], ◌∷◌, ◌++◌, arith, length, Bool-cases,
  Option-cases, inl, inr, All, All-append,
}
use imrmf_map_editor.Base.Text.{Text, is_empty}
use imrmf_map_editor.Building.Double.{Double}
use imrmf_map_editor.Ui.Notifications.{
  Signal, Notification, notify_max, one_line, fresh_card, bump, post, notify, expire, touch_all,
  dismissed, dismiss, draw_notifications,
}
use imrmf_map_editor.Ui.Notifications.OneLine.{one_line_twice, AllPlain, one_line-AllPlain}
use imrmf_map_editor.Ui.Notifications.Parts.{
  IsApart, All-erase, All-expire, All-pop_extra, All-touch_all, AllSome, All-bump, bump-none,
  IsApart-snoc, IsApartSome, bump-IsApart, erase-IsApart, expire-IsApart, pop_extra-IsApart,
  touch_all-IsApart, length-erase-le, length-expire-le, length-touch_all, length-pop_extra-le,
  HasLength, length-bump,
}

module _ {D : Type 0} (F : Double D) where
  -- What a card shows is not empty, has no tab, newline or carriage return, and has at most 244 bytes;
  -- putting it on one line again changes nothing.
  pub record IsShown (text : Text) : Type 0 where
    pub shows : is_empty text ≡ false
    pub plain : AllPlain text
    pub short : length text ≤ 244
    pub line : one_line text ≡ text

  pub record IsCard (n : Notification D) : Type 0 where
    pub text : IsShown n.text
    pub counted : 1 ≤ n.count

  pub record IsTidy (queue : List (Notification D)) : Type 0 where
    pub few : length queue ≤ notify_max
    pub apart : IsApart F queue
    pub cards : All IsCard queue

  post-IsTidy :
      (signal : Signal) (text : Text) (queue : List (Notification D))
      → IsShown text
      → IsTidy queue
      → IsTidy (post F signal text queue)
  unfolding post
  post-IsTidy signal text queue shown t = elim (Option-cases (bump F signal text queue)) [
    | inl new ↦
        rw (post, new)
          (record {
            few = length-pop_extra-le F (queue ++ fresh_card F signal text ∷ []);
            apart = pop_extra-IsApart F (queue ++ fresh_card F signal text ∷ []) (
                IsApart-snoc F queue (fresh_card F signal text) t.apart
                  (bump-none F signal text queue new));
            cards = All-pop_extra F IsCard (queue ++ fresh_card F signal text ∷ []) (
                All-append IsCard queue (fresh_card F signal text ∷ []) t.cards
                  (record { text = shown; counted = omega arith }, tt));
          })
    | inr (bumped, hit) ↦
        let apart : IsApartSome F (some bumped) =
          subst (IsApartSome F) hit (bump-IsApart F signal text queue t.apart) in
        let size : HasLength F (length queue) (some bumped) =
          subst (HasLength F (length queue)) hit (length-bump F signal text queue) in
        let cards : AllSome F IsCard (some bumped) = subst (AllSome F IsCard) hit (
          All-bump F IsCard (λ n c. record { text = c.text; counted = omega (arith, c.counted) })
            signal text queue t.cards) in
        rw (post, hit) (record { few = omega (arith, size, t.few); apart = apart; cards = cards })
  ]

  notify-IsTidy :
      (signal : Signal) (text : Text) (queue : List (Notification D))
      → IsTidy queue
      → IsTidy (notify F signal text queue)
  unfolding notify
  notify-IsTidy signal text queue t = elim (Bool-cases (is_empty (one_line text))) [
    | inl blank ↦ rw blank t
    | inr full ↦
        let (stable, short) = one_line_twice text in
        rw full (
          post-IsTidy signal (one_line text) queue
            (record { shows = full; plain = one_line-AllPlain text; short = short; line = stable })
            t)
  ]

  dismiss-IsTidy :
      (i : Option ℕ) (queue : List (Notification D)) → IsTidy queue → IsTidy (dismiss F i queue)
  unfolding dismiss
  dismiss-IsTidy none queue t = t
  dismiss-IsTidy (some i) queue t = record {
    few = omega (arith, length-erase-le F queue i, t.few);
    apart = erase-IsApart F queue i t.apart;
    cards = All-erase F IsCard queue i t.cards;
  }

  draw-IsTidy :
      (now : D) (hovered : ℕ → Bool) (clicked : Bool) (queue : List (Notification D))
      → IsTidy queue
      → IsTidy (draw_notifications F now hovered clicked queue)
  unfolding draw_notifications
  draw-IsTidy now hovered clicked queue t =
      let shown = expire F now queue in
      dismiss-IsTidy (dismissed F clicked hovered 0 shown) (touch_all F now hovered 0 shown)
        (record {
          few =
              omega (
                arith,
                length-touch_all F now hovered 0 shown,
                length-expire-le F now queue,
                t.few,
              );
          apart = touch_all-IsApart F now hovered 0 shown (expire-IsApart F now queue t.apart);
          cards =
              All-touch_all F IsCard (λ n time c. record { text = c.text; counted = c.counted }) now
                hovered 0 shown (All-expire F IsCard now queue t.cards);
        })

  -- What the program does with the queue: a message from anywhere, and a frame.
  pub data Event : Type 0 where
    message : Signal → Text → Event
    frame : D → (ℕ → Bool) → Bool → Event

  abbrev pub handle : Event → List (Notification D) → List (Notification D)
  handle (message signal text) queue = notify F signal text queue
  handle (frame now hovered clicked) queue = draw_notifications F now hovered clicked queue

  abbrev pub handle_all : List Event → List (Notification D) → List (Notification D)
  handle_all [] queue = queue
  handle_all (e ∷ events) queue = handle_all events (handle e queue)

  -- Whatever the messages and the frames, a queue that holds at most five cards, no two of one severity
  -- and text, each with a count and with a text that is not empty, has no tab, newline or carriage
  -- return, has at most 244 bytes and is left as it is by `one_line`, stays one.
  pub handle_all-IsTidy :
      (events : List Event) (queue : List (Notification D))
      → IsTidy queue
      → IsTidy (handle_all events queue)
  handle_all-IsTidy [] queue t = t
  handle_all-IsTidy (message signal text ∷ events) queue t =
      handle_all-IsTidy events _ (notify-IsTidy signal text queue t)
  handle_all-IsTidy (frame now hovered clicked ∷ events) queue t =
      handle_all-IsTidy events _ (draw-IsTidy now hovered clicked queue t)
