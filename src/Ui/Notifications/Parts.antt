-- ===== src/Ui/Notifications/Parts.antt =====
-- What the parts of ui/notifications.hpp keep of a queue: properties of each card, that no two cards
-- say the same, and lengths.
use imrmf_map_editor.Base.{
  ℕ, zero, suc, ◌+◌, ◌≤◌, ◌≡◌, refl, ap, Bool, true, false, ◌||◌, Option, none, some, List, [], ◌∷◌,
  ◌++◌, arith, length, erase_idx, ltb, Bool-cases, inl, inr, All, All-append,
}
use imrmf_map_editor.Base.Text.{Text}
use imrmf_map_editor.Building.Double.{Double}
use imrmf_map_editor.Ui.Notifications.{
  Signal, success, warning, danger, info, muted, signal_eq, Notification, notify_max, same_card,
  bump, pop_extra, is_expired, expire, touch, touch_all,
}

module _ {D : Type 0} (F : Double D) where
  -- No two cards say the same.
  abbrev pub IsApart : List (Notification D) → Type 0
  IsApart [] = Unit
  IsApart (n ∷ queue) = All (λ m. same_card F m.signal m.text n ≡ false) queue × IsApart queue

  module _ {ℓ} (P : Notification D → Type ℓ) where
    pub All-erase :
        (queue : List (Notification D)) (i : ℕ) → All P queue → All P (erase_idx queue i)
    All-erase [] i h = tt
    All-erase (n ∷ queue) zero h = h.1
    All-erase (n ∷ queue) (suc i) h = (h.0, All-erase queue i (h.1))

    pub All-expire :
        (now : D) (queue : List (Notification D)) → All P queue → All P (expire F now queue)
    unfolding expire
    All-expire now [] h = tt
    All-expire now (n ∷ queue) h = elim (Bool-cases (is_expired F now n)) [
      | inl gone ↦ rw gone (All-expire now queue (h.1))
      | inr stays ↦ rw stays (h.0, All-expire now queue (h.1))
    ]

    pub All-pop_extra : (queue : List (Notification D)) → All P queue → All P (pop_extra F queue)
    unfolding pop_extra
    All-pop_extra [] h = tt
    All-pop_extra (n ∷ queue) h = elim (Bool-cases (ltb notify_max (length (n ∷ queue)))) [
      | inl more ↦ rw more (All-pop_extra queue (h.1))
      | inr fits ↦ rw fits h
    ]

    -- A property that does not look at the time.
    pub All-touch_all :
        ((n : Notification D) (now : D) → P n → P (record n { posted = now }))
        → (now : D) (hovered : ℕ → Bool) (i : ℕ) (queue : List (Notification D)) → All P queue
        → All P (touch_all F now hovered i queue)
    unfolding touch_all touch
    All-touch_all keep now hovered i [] h = tt
    All-touch_all keep now hovered i (n ∷ queue) h =
        elim (Bool-cases (hovered i || F.le n.posted F.zero)) [
          | inl e ↦ rw e (keep n now (h.0), All-touch_all keep now hovered (suc i) queue (h.1))
          | inr e ↦ rw e (h.0, All-touch_all keep now hovered (suc i) queue (h.1))
        ]

    abbrev pub AllSome : Option (List (Notification D)) → Type ℓ
    AllSome none = Unit
    AllSome (some queue) = All P queue

    AllSome-cons :
        (n : Notification D) (o : Option (List (Notification D)))
        → P n
        → AllSome o
        → AllSome (elim o [ none ↦ none | some bumped ↦ some (n ∷ bumped) ])
    AllSome-cons n none p h = tt
    AllSome-cons n (some bumped) p h = (p, h)

    -- A property that looks neither at the time nor at the count, but for its growth.
    pub All-bump :
        ((n : Notification D) → P n → P (record n { count = n.count + 1; posted = F.zero }))
        → (signal : Signal) (text : Text) (queue : List (Notification D)) → All P queue
        → AllSome (bump F signal text queue)
    unfolding bump
    All-bump keep signal text [] h = tt
    All-bump keep signal text (n ∷ queue) h = elim (Bool-cases (same_card F signal text n)) [
      | inl hit ↦ rw hit (keep n (h.0), h.1)
      | inr miss ↦
          rw miss (
            AllSome-cons n (bump F signal text queue) (h.0) (All-bump keep signal text queue (h.1)))
    ]

  pub signal_eq_refl : (s : Signal) → signal_eq s s ≡ true
  unfolding signal_eq
  signal_eq_refl success = refl
  signal_eq_refl warning = refl
  signal_eq_refl danger = refl
  signal_eq_refl info = refl
  signal_eq_refl muted = refl

  -- No card says the same where none is bumped.
  pub bump-none :
      (signal : Signal) (text : Text) (queue : List (Notification D))
      → bump F signal text queue ≡ none
      → All (λ n. same_card F signal text n ≡ false) queue
  unfolding bump
  bump-none signal text [] e = tt
  bump-none signal text (n ∷ queue) e = elim (Bool-cases (same_card F signal text n)) [
    | inl hit ↦ absurd (ground arith)
    | inr miss ↦ (miss, bump-none signal text queue (ground arith))
  ]

  pub IsApart-snoc :
      (queue : List (Notification D)) (m : Notification D)
      → IsApart queue
      → All (λ n. same_card F m.signal m.text n ≡ false) queue
      → IsApart (queue ++ m ∷ [])
  IsApart-snoc [] m a h = (tt, tt)
  IsApart-snoc (n ∷ queue) m a h = (
    All-append (λ k. same_card F k.signal k.text n ≡ false) queue (m ∷ []) (a.0) (h.0, tt),
    IsApart-snoc queue m (a.1) (h.1),
  )

  abbrev pub IsApartSome : Option (List (Notification D)) → Type 0
  IsApartSome none = Unit
  IsApartSome (some queue) = IsApart queue

  -- What a card `n` asks of the cards after it.
  abbrev Differs : Notification D → Notification D → Type 0
  Differs n m = same_card F m.signal m.text n ≡ false

  IsApartSome-cons :
      (n : Notification D) (o : Option (List (Notification D)))
      → AllSome (Differs n) o
      → IsApartSome o
      → IsApartSome (elim o [ none ↦ none | some bumped ↦ some (n ∷ bumped) ])
  IsApartSome-cons n none p h = tt
  IsApartSome-cons n (some bumped) p h = (p, h)

  pub bump-IsApart :
      (signal : Signal) (text : Text) (queue : List (Notification D))
      → IsApart queue
      → IsApartSome (bump F signal text queue)
  unfolding bump
  bump-IsApart signal text [] a = tt
  bump-IsApart signal text (n ∷ queue) a = elim (Bool-cases (same_card F signal text n)) [
    | inl hit ↦ rw hit a
    | inr miss ↦ rw miss (
        IsApartSome-cons n (bump F signal text queue)
          (All-bump (Differs n) (λ m d. d) signal text queue (a.0))
          (bump-IsApart signal text queue (a.1)))
  ]

  pub erase-IsApart :
      (queue : List (Notification D)) (i : ℕ) → IsApart queue → IsApart (erase_idx queue i)
  erase-IsApart [] i a = tt
  erase-IsApart (n ∷ queue) zero a = a.1
  erase-IsApart (n ∷ queue) (suc i) a =
      (All-erase (Differs n) queue i (a.0), erase-IsApart queue i (a.1))

  pub expire-IsApart :
      (now : D) (queue : List (Notification D)) → IsApart queue → IsApart (expire F now queue)
  unfolding expire
  expire-IsApart now [] a = tt
  expire-IsApart now (n ∷ queue) a = elim (Bool-cases (is_expired F now n)) [
    | inl gone ↦ rw gone (expire-IsApart now queue (a.1))
    | inr stays ↦ rw stays (All-expire (Differs n) now queue (a.0), expire-IsApart now queue (a.1))
  ]

  pub pop_extra-IsApart :
      (queue : List (Notification D)) → IsApart queue → IsApart (pop_extra F queue)
  unfolding pop_extra
  pop_extra-IsApart [] a = tt
  pop_extra-IsApart (n ∷ queue) a = elim (Bool-cases (ltb notify_max (length (n ∷ queue)))) [
    | inl more ↦ rw more (pop_extra-IsApart queue (a.1))
    | inr fits ↦ rw fits a
  ]

  pub touch_all-IsApart :
      (now : D) (hovered : ℕ → Bool) (i : ℕ) (queue : List (Notification D))
      → IsApart queue
      → IsApart (touch_all F now hovered i queue)
  unfolding touch_all touch
  touch_all-IsApart now hovered i [] a = tt
  touch_all-IsApart now hovered i (n ∷ queue) a =
      let rest = All-touch_all (Differs n) (λ m t d. d) now hovered (suc i) queue (a.0) in
      let tail = touch_all-IsApart now hovered (suc i) queue (a.1) in
      elim (Bool-cases (hovered i || F.le n.posted F.zero)) [
        | inl e ↦ rw e (rest, tail)
        | inr e ↦ rw e (rest, tail)
      ]

  -- Lengths.
  pub length-erase-le :
      (queue : List (Notification D)) (i : ℕ) → length (erase_idx queue i) ≤ length queue
  length-erase-le [] i = omega arith
  length-erase-le (n ∷ queue) zero = omega arith
  length-erase-le (n ∷ queue) (suc i) = omega (arith, length-erase-le queue i)

  pub length-expire-le :
      (now : D) (queue : List (Notification D)) → length (expire F now queue) ≤ length queue
  unfolding expire
  length-expire-le now [] = omega arith
  length-expire-le now (n ∷ queue) = ground (arith, length-expire-le now queue)

  pub length-touch_all :
      (now : D) (hovered : ℕ → Bool) (i : ℕ) (queue : List (Notification D))
      → length (touch_all F now hovered i queue) ≡ length queue
  unfolding touch_all
  length-touch_all now hovered i [] = refl
  length-touch_all now hovered i (n ∷ queue) = ap suc (length-touch_all now hovered (suc i) queue)

  pub length-pop_extra-le :
      (queue : List (Notification D)) → length (pop_extra F queue) ≤ notify_max
  unfolding pop_extra
  length-pop_extra-le [] = omega arith
  length-pop_extra-le (n ∷ queue) = ground (arith, length-pop_extra-le queue)

  abbrev pub HasLength : ℕ → Option (List (Notification D)) → Type 0
  HasLength k none = Unit
  HasLength k (some queue) = length queue ≡ k

  pub length-bump :
      (signal : Signal) (text : Text) (queue : List (Notification D))
      → HasLength (length queue) (bump F signal text queue)
  unfolding bump
  length-bump signal text [] = tt
  length-bump signal text (n ∷ queue) = elim (Bool-cases (same_card F signal text n)) [
    | inl hit ↦ rw hit refl
    | inr miss ↦ rw miss (cons (bump F signal text queue) (length-bump signal text queue))
  ]
    where
      cons :
          (o : Option (List (Notification D)))
          → HasLength (length queue) o
          → HasLength
              (suc (length queue))
              (elim o [ none ↦ none | some bumped ↦ some (n ∷ bumped) ])
      cons none h = tt
      cons (some bumped) h = ap suc h
