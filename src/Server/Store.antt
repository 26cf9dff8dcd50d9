-- ===== src/Server/Store.antt =====
-- What the requests of server/buildings_api.cpp do to the files of the maps.
use mathlib.Core.Path.{subst}
use imrmf_map_editor.Base.{
  ℕ, ◌≡◌, ◌≤◌, ◌<◌, ◌∙◌, refl, sym, ◌⊎◌, inl, inr, true, false, not, ◌&&◌, some, List, [], ◌∷◌,
  arith, ◌==◌, length, and_parts, if◌then◌else◌, Bool-cases, Option-cases,
}
use imrmf_map_editor.Base.Text.{Text, text_eq, text_eq_iff, is_empty, has_char}
use imrmf_map_editor.Building.{Building, find}
use imrmf_map_editor.Building.Double.{Double}
use imrmf_map_editor.Yaml.{Yaml, put}
use imrmf_map_editor.Yaml.Levels.{parse_building}
use imrmf_map_editor.Server.Protocol.{etag_of, building_id_safe, all_id_chars, is_id_char}
use imrmf_map_editor.Server.Handlers.{Store, handle_building_post}

elsewhere : (i j k : Text) → text_eq i j ≡ true → text_eq i k ≡ false → text_eq k j ≡ false
elsewhere i j k same other = elim (Bool-cases (text_eq k j)) [
  | inl e ↦
      absurd (ground (arith, (text_eq_iff i j).0 same, (text_eq_iff k j).0 e, (text_eq_iff i k).1))
  | inr e ↦ e
]

find-put {ℓ} :
    {V : Type ℓ} (k : Text) (v : V) (m : List (Text × V)) (j : Text)
    → find j (put k v m) ≡ (if text_eq k j then some v else find j m)
unfolding find put
find-put k v [] j = elim (Bool-cases (text_eq k j)) [
  | inl e ↦ rw (find, put, e) refl
  | inr e ↦ rw (find, put, e) refl
]
find-put k v ((i, w) ∷ m) j = elim (Bool-cases (text_eq i k)) [
  | inl same ↦ elim (Bool-cases (text_eq k j)) [
    | inl e ↦ rw (find, put, same, (text_eq_iff i k).0 same, e) refl
    | inr e ↦ rw (find, put, same, (text_eq_iff i k).0 same, e) refl
  ]
  | inr other ↦ elim (Bool-cases (text_eq i j)) [
    | inl e ↦ rw (find, put, other, e, elsewhere i j k e other) refl
    | inr e ↦ rw (find, put, other, e) (find-put k v m j)
  ]
]

-- What a post has checked, and what it leaves behind.
pub record IsAccepted {D : Type 0} (Y : Yaml D) (F : Double D) (store next : Store)
    (id if_match body : Text) : Type 0 where
  pub safe : building_id_safe id ≡ true
  pub current : Text
  pub found : find id store ≡ some current
  pub matches : (if_match ≡ []) ⊎ (if_match ≡ etag_of current)
  pub parsed : Building D Y.Node
  pub parses : parse_building Y F body ≡ some parsed
  pub stored : (j : Text) → find j next ≡ (if text_eq id j then some body else find j store)

module _ {D : Type 0} (Y : Yaml D) (F : Double D) (what : Text → Text) where
  tag_matches :
      (if_match tag : Text)
      → (not (is_empty if_match) && not (text_eq if_match tag)) ≡ false
      → (if_match ≡ []) ⊎ (if_match ≡ tag)
  tag_matches [] tag h = inl refl
  tag_matches (c ∷ s) tag h = inr ((text_eq_iff (c ∷ s) tag).0 (ground arith))

  -- A post changes no file but where the id is safe, the map exists, its tag is the one expected or
  -- none is, and the text is a map; then it changes the file of that id to the text, and no other.
  pub handle_building_post-IsAccepted :
      (store : Store) (id if_match body : Text)
      → let next = (handle_building_post Y F what store id if_match body).0 in
        (next ≡ store) ⊎ IsAccepted Y F store next id if_match body
  unfolding handle_building_post
  handle_building_post-IsAccepted store id if_match body = elim (Bool-cases (building_id_safe id)) [
    | inr unsafe ↦ inl (rw (handle_building_post, unsafe) refl)
    | inl safe ↦ elim (Option-cases (find id store)) [
      | inl gone ↦ inl (rw (handle_building_post, safe, gone) refl)
      | inr (current, found) ↦
          elim (Bool-cases (not (is_empty if_match) && not (text_eq if_match (etag_of current)))) [
            | inl stale ↦ inl (rw (handle_building_post, safe, found, stale) refl)
            | inr fresh ↦ elim (Option-cases (parse_building Y F body)) [
              | inl bad ↦ inl (rw (handle_building_post, safe, found, fresh, bad) refl)
              | inr (parsed, parses) ↦
                  let wrote : (handle_building_post Y F what store id if_match body).0
                      ≡ put id body store =
                    rw (handle_building_post, safe, found, fresh, parses) refl in
                  subst (λ next. (next ≡ store) ⊎ IsAccepted Y F store next id if_match body)
                    (sym wrote)
                    (inr (record {
                      safe = safe;
                      current = current;
                      found = found;
                      matches = tag_matches if_match (etag_of current) fresh;
                      parsed = parsed;
                      parses = parses;
                      stored = find-put id body store;
                    }))
            ]
          ]
    ]
  ]

  -- Once a post with a tag that is not empty has been accepted, and the text that it stored has another
  -- tag: a second post with the first tag changes nothing.
  pub no_lost_update :
      (store next : Store) (id tag first second : Text)
      → IsAccepted Y F store next id tag first
      → is_empty tag ≡ false
      → text_eq tag (etag_of first) ≡ false
      → (handle_building_post Y F what next id tag second).0 ≡ next
  unfolding handle_building_post
  no_lost_update store next id tag first second accepted given differ =
      let found : find id next ≡ some first =
        accepted.stored id ∙ rw ((text_eq_iff id id).1 refl) refl in
      rw (handle_building_post, accepted.safe, found, given, differ) refl

is_id_char-plain : (c : ℕ) → is_id_char c ≡ true → ((b'/' == c) ≡ false) × ((b'.' == c) ≡ false)
is_id_char-plain c h = (ground arith, ground arith)

all_id_chars-plain :
    (id : Text) → all_id_chars id ≡ true → (has_char b'/' id ≡ false) × (has_char b'.' id ≡ false)
unfolding all_id_chars has_char
all_id_chars-plain [] h = (refl, refl)
all_id_chars-plain (c ∷ id) h =
    let (here, rest) = and_parts (is_id_char c) (all_id_chars id) h in
    let (no_slash, no_dot) = is_id_char-plain c here in
    let (slashes, dots) = all_id_chars-plain id rest in
    (rw (has_char, no_slash) slashes, rw (has_char, no_dot) dots)

-- A safe id has at least one character and at most 64, none of them a slash or a dot, so that it
-- names one directory below the root of the maps.
pub building_id_safe-plain :
    (id : Text)
    → building_id_safe id ≡ true
    → (0 < length id) × (length id ≤ 64) × (has_char b'/' id ≡ false) × (has_char b'.' id ≡ false)
unfolding building_id_safe
building_id_safe-plain [] h = cc
building_id_safe-plain (c ∷ id) h =
    let chars : all_id_chars (c ∷ id) ≡ true = ground arith in
    let (no_slash, no_dot) = all_id_chars-plain (c ∷ id) chars in
    (omega arith, ground arith, no_slash, no_dot)
