-- ===== src/Ui/Notifications/OneLine.antt =====
-- What `one_line` (ui/notifications.hpp) makes of a text.
use imrmf_map_editor.Base.{
  ℕ, ◌+◌, ◌≤◌, ◌<◌, ◌≡◌, refl, ap, sym, ◌∙◌, Bool, true, false, not, [], ◌∷◌, ◌++◌, append-nil,
  append_assoc, arith, length, length-append, leb, ◌==◌, Bool-cases, inl, inr, All, All-append,
}
use imrmf_map_editor.Base.Text.{Text, is_empty}
use imrmf_map_editor.Ui.Notifications.{one_line, one_line_loop, is_space, max_chars, ellipsis}

-- What is out reads back to itself.
abbrev ReadsBack : Text → Type 0
ReadsBack out = (rest : Text) → one_line_loop [] false (out ++ rest) ≡ one_line_loop out false rest

module _ (out : Text) (c : ℕ) where
  loop-skip :
      (space : Bool) (text : Text)
      → is_space c ≡ true
      → one_line_loop out space (c ∷ text) ≡ one_line_loop out (not (is_empty out)) text
  unfolding one_line_loop
  loop-skip space text e = rw e refl

  loop-full :
      (text : Text)
      → is_space c ≡ false
      → leb max_chars (length out) ≡ true
      → one_line_loop out false (c ∷ text) ≡ out ++ ellipsis
  unfolding one_line_loop
  loop-full text e full = rw (e, full) refl

  loop-keep :
      (text : Text)
      → is_space c ≡ false
      → leb max_chars (length out) ≡ false
      → one_line_loop out false (c ∷ text) ≡ one_line_loop (out ++ c ∷ []) false text
  unfolding one_line_loop
  loop-keep text e room = rw (e, room) refl

-- A character after what reads back; `spaced` is `out` and the space that may be due.
loop-due :
    (out : Text) (c : ℕ) (text : Text)
    → is_space c ≡ false
    → one_line_loop out true (c ∷ text) ≡ one_line_loop (out ++ b' ' ∷ []) false (c ∷ text)
unfolding one_line_loop
loop-due out c text e = rw e refl

not-is_empty : (out : Text) (b : ℕ) → not (is_empty (out ++ b ∷ [])) ≡ true
not-is_empty [] b = refl
not-is_empty (c ∷ out) b = refl

-- What is out reads back before a character that is no space.
abbrev ReadsBefore : Text → Type 0
ReadsBefore out =
    (c : ℕ) (rest : Text)
    → is_space c ≡ false
    → one_line_loop [] false (out ++ c ∷ rest) ≡ one_line_loop out false (c ∷ rest)

spaced-ReadsBefore :
    (out : Text) → ReadsBack out → not (is_empty out) ≡ true → ReadsBefore (out ++ b' ' ∷ [])
spaced-ReadsBefore out reads full c rest e =
    ap (one_line_loop [] false) (append_assoc out (b' ' ∷ []) (c ∷ rest))
    ∙ (reads (b' ' ∷ c ∷ rest)
        ∙ (loop-skip out b' ' false (c ∷ rest) (unfold is_space in refl)
            ∙ rw full (loop-due out c rest e)))

snoc-ReadsBack :
    (out : Text) (c : ℕ)
    → ReadsBefore out
    → is_space c ≡ false
    → leb max_chars (length out) ≡ false
    → ReadsBack (out ++ c ∷ [])
snoc-ReadsBack out c reads e room rest =
    ap (one_line_loop [] false) (append_assoc out (c ∷ []) rest)
    ∙ (reads c rest e ∙ loop-keep out c rest e room)

ellipsis-ReadsBack :
    (out : Text)
    → ReadsBefore out
    → leb max_chars (length out) ≡ true
    → one_line_loop [] false (out ++ ellipsis) ≡ out ++ ellipsis
ellipsis-ReadsBack out reads full =
    let e : is_space 226 ≡ false = unfold is_space in refl in
    reads 226 (128 ∷ 166 ∷ []) e ∙ loop-full out 226 (128 ∷ 166 ∷ []) e full

abbrev IsStable : Text → Type 0
IsStable line = one_line_loop [] false line ≡ line

-- The step at a character that is no space, once a space that is due is out.
char-IsStable :
    (out : Text) (c : ℕ) (text : Text)
    → ReadsBefore out
    → is_space c ≡ false
    → (ReadsBack (out ++ c ∷ []) → IsStable (one_line_loop (out ++ c ∷ []) false text))
    → IsStable (one_line_loop out false (c ∷ text))
char-IsStable out c text reads e ih = elim (Bool-cases (leb max_chars (length out))) [
  | inl full ↦ rw (loop-full out c text e full) (ellipsis-ReadsBack out reads full)
  | inr room ↦ rw (loop-keep out c text e room) (ih (snoc-ReadsBack out c reads e room))
]

loop-IsStable :
    (out : Text) (space : Bool) (text : Text)
    → ReadsBack out
    → (space ≡ true → not (is_empty out) ≡ true)
    → IsStable (one_line_loop out space text)
loop-IsStable out space [] reads due =
    unfold one_line_loop in ap (one_line_loop [] false) (sym (append-nil out)) ∙ reads []
loop-IsStable out space (c ∷ text) reads due = elim (Bool-cases (is_space c)) [
  | inl skip ↦
      rw (loop-skip out c space text skip)
        (loop-IsStable out (not (is_empty out)) text reads (λ e. e))
  | inr e ↦ elim (Bool-cases space) [
    | inl spaced ↦
        rw (spaced, loop-due out c text e)
          (char-IsStable (out ++ b' ' ∷ []) c text (spaced-ReadsBefore out reads (due spaced)) e
            (λ back. loop-IsStable ((out ++ b' ' ∷ []) ++ c ∷ []) false text back (λ f. cc)))
    | inr plain ↦ rw plain (
        char-IsStable out c text (λ d rest _. reads (d ∷ rest)) e
          (λ back. loop-IsStable (out ++ c ∷ []) false text back (λ f. cc)))
  ]
]

room_left : (n : ℕ) → leb max_chars n ≡ false → n < max_chars
room_left n e = ground arith

char-length :
    (out : Text) (c : ℕ) (text : Text)
    → length out ≤ max_chars + 1
    → is_space c ≡ false
    → (length (out ++ c ∷ []) ≤ max_chars
        → length (one_line_loop (out ++ c ∷ []) false text) ≤ max_chars + 4)
    → length (one_line_loop out false (c ∷ text)) ≤ max_chars + 4
char-length out c text h e ih = elim (Bool-cases (leb max_chars (length out))) [
  | inl full ↦ rw (loop-full out c text e full) (omega (arith, length-append out ellipsis))
  | inr room ↦
      rw (loop-keep out c text e room)
        (ih (omega (arith, length-append out (c ∷ []), room_left (length out) room)))
]

loop-length :
    (out : Text) (space : Bool) (text : Text)
    → length out ≤ max_chars
    → length (one_line_loop out space text) ≤ max_chars + 4
loop-length out space [] h = unfold one_line_loop in omega arith
loop-length out space (c ∷ text) h = elim (Bool-cases (is_space c)) [
  | inl skip ↦ rw (loop-skip out c space text skip) (loop-length out (not (is_empty out)) text h)
  | inr e ↦ elim (Bool-cases space) [
    | inl spaced ↦
        rw (spaced, loop-due out c text e)
          (char-length (out ++ b' ' ∷ []) c text (omega (arith, length-append out (b' ' ∷ []))) e
            (loop-length ((out ++ b' ' ∷ []) ++ c ∷ []) false text))
    | inr plain ↦
        rw plain (char-length out c text (omega arith) e (loop-length (out ++ c ∷ []) false text))
  ]
]

-- A line is at most 244 bytes long, and putting it on one line again changes nothing.
pub one_line_twice :
    (text : Text) → (one_line (one_line text) ≡ one_line text) × (length (one_line text) ≤ 244)
unfolding one_line
one_line_twice text =
    (loop-IsStable [] false text (λ rest. refl) (λ e. cc), loop-length [] false text (omega arith))

-- A character that stays on the line: no tab, no newline, no carriage return.
abbrev pub IsPlain : ℕ → Type 0
IsPlain c = ((c == 9) ≡ false) × ((c == 10) ≡ false) × ((c == 13) ≡ false)

abbrev pub AllPlain : Text → Type 0
AllPlain = All IsPlain

is_space-IsPlain : (c : ℕ) → is_space c ≡ false → IsPlain c
unfolding is_space
is_space-IsPlain c e = (ground (arith, e), ground (arith, e), ground (arith, e))

snoc-AllPlain : (out : Text) (c : ℕ) → AllPlain out → IsPlain c → AllPlain (out ++ c ∷ [])
snoc-AllPlain out c h e = All-append IsPlain out (c ∷ []) h (e, tt)

space-IsPlain : IsPlain b' '
space-IsPlain = (refl, refl, refl)

ellipsis-AllPlain : (out : Text) → AllPlain out → AllPlain (out ++ ellipsis)
ellipsis-AllPlain out h =
    All-append IsPlain out ellipsis h
      ((refl, refl, refl), ((refl, refl, refl), ((refl, refl, refl), tt)))

char-AllPlain :
    (out : Text) (c : ℕ) (text : Text)
    → AllPlain out
    → is_space c ≡ false
    → (AllPlain (out ++ c ∷ []) → AllPlain (one_line_loop (out ++ c ∷ []) false text))
    → AllPlain (one_line_loop out false (c ∷ text))
char-AllPlain out c text h e ih = elim (Bool-cases (leb max_chars (length out))) [
  | inl full ↦ rw (loop-full out c text e full) (ellipsis-AllPlain out h)
  | inr room ↦ rw (loop-keep out c text e room) (ih (snoc-AllPlain out c h (is_space-IsPlain c e)))
]

loop-AllPlain :
    (out : Text) (space : Bool) (text : Text)
    → AllPlain out
    → AllPlain (one_line_loop out space text)
loop-AllPlain out space [] h = unfold one_line_loop in h
loop-AllPlain out space (c ∷ text) h = elim (Bool-cases (is_space c)) [
  | inl skip ↦ rw (loop-skip out c space text skip) (loop-AllPlain out (not (is_empty out)) text h)
  | inr e ↦ elim (Bool-cases space) [
    | inl spaced ↦
        rw (spaced, loop-due out c text e)
          (char-AllPlain (out ++ b' ' ∷ []) c text (snoc-AllPlain out b' ' h space-IsPlain) e
            (loop-AllPlain ((out ++ b' ' ∷ []) ++ c ∷ []) false text))
    | inr plain ↦ rw plain (char-AllPlain out c text h e (loop-AllPlain (out ++ c ∷ []) false text))
  ]
]

pub one_line-AllPlain : (text : Text) → AllPlain (one_line text)
unfolding one_line
one_line-AllPlain text = loop-AllPlain [] false text tt
