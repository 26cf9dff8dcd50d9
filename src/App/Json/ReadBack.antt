-- ===== src/App/Json/ReadBack.antt =====
-- Each field of the JSON that the application builds is read back, whatever the values (app/main.cpp).
use imrmf_map_editor.Base.{
  ℕ, true, false, ◌≡◌, refl, ◌∙◌, none, some, List, [], ◌∷◌, ◌++◌, arith, ◌==◌, if◌then◌else◌,
  Bool-cases, inl, inr, and_parts, ==_iff, All,
}
use imrmf_map_editor.Base.Int.{pos, eqb_ℤ}
use imrmf_map_editor.Base.Text.{Text, codes, text_eq, text_eq_iff, is_empty}
use imrmf_map_editor.Building.{find}
use imrmf_map_editor.Server.Protocol.{all_id_chars}
use imrmf_map_editor.App.Json.{
  quote, colon, strip_prefix, after_first, json_string_field, ConnectionForm, esc, build_mount_json,
}
use imrmf_map_editor.App.Json.Fields.{
  after_key, is_separator, read_quoted-esc, strip_prefix-esc, after_first-other, after_first-quote,
  after_first-esc,
}

-- A member, and what follows it.
abbrev member : Text → Text → Text → Text
member j v rest = quote ∷ (j ++ (quote ∷ colon ∷ quote ∷ (esc v ++ (quote ∷ rest))))

-- An object of texts: its members, each behind a separator.
unfoldable pub members_text : Text → ℕ → List (Text × Text) → Text
unfolding esc
members_text tail first [] = tail
members_text tail first ((j, v) ∷ kvs) = first ∷ member j v (members_text tail b',' kvs)

-- The value of a member; an empty text where there is none.
abbrev pub member_of : Text → List (Text × Text) → Text
member_of k kvs = elim (find k kvs) [ none ↦ [] | some v ↦ v ]

abbrev pub AllKeys : List (Text × Text) → Type 0
AllKeys kvs = All (λ kv. all_id_chars kv.0 ≡ true) kvs

strip_prefix-same :
    (k t : Text) → strip_prefix (k ++ after_key) (k ++ (quote ∷ colon ∷ quote ∷ t)) ≡ some t
unfolding strip_prefix
strip_prefix-same [] t = refl
strip_prefix-same (c ∷ k) t = rw (strip_prefix, (==_iff c c).1 refl) (strip_prefix-same k t)

strip_prefix-other :
    (k j t : Text)
    → all_id_chars k ≡ true
    → all_id_chars j ≡ true
    → text_eq j k ≡ false
    → strip_prefix (k ++ after_key) (j ++ (quote ∷ colon ∷ quote ∷ t)) ≡ none
unfolding strip_prefix all_id_chars text_eq
strip_prefix-other [] [] t h l e = cc
strip_prefix-other [] (d ∷ j) t h l e = ground (arith, l)
strip_prefix-other (c ∷ k) [] t h l e = ground (arith, h)
strip_prefix-other (c ∷ k) (d ∷ j) t h l e = elim (Bool-cases (c == d)) [
  | inr other ↦ rw (strip_prefix, other) refl
  | inl same ↦
      rw (strip_prefix, same)
        (strip_prefix-other k j t (and_parts _ _ h).1 (and_parts _ _ l).1 (ground (arith, same, e)))
]

after_first-key :
    (k j t : Text)
    → all_id_chars j ≡ true
    → after_first (quote ∷ k) (j ++ t) ≡ after_first (quote ∷ k) t
unfolding all_id_chars
after_first-key k [] t h = refl
after_first-key k (c ∷ j) t h =
    after_first-other k (j ++ t) c (ground (arith, h)) ∙ after_first-key k j t (and_parts _ _ h).1

-- What follows an object begins with a separator.
abbrev pub IsEnd : Text → Type 0
IsEnd [] = ⊥
IsEnd (d ∷ more) = is_separator d ≡ true

-- A value with what follows it.
strip_prefix-value :
    (end : Text) (ends : IsEnd end) (k v : Text) (kvs : List (Text × Text))
    → all_id_chars k ≡ true
    → strip_prefix (k ++ after_key) (esc v ++ quote ∷ members_text end b',' kvs) ≡ none
unfolding members_text
strip_prefix-value [] ends k v [] h = absurd ends
strip_prefix-value (d ∷ more) ends k v [] h = strip_prefix-esc k v d more h ends
strip_prefix-value end ends k v ((j, w) ∷ kvs) h = strip_prefix-esc k v b',' _ h refl

after_first-value :
    (end : Text) (ends : IsEnd end) (k v : Text) (kvs : List (Text × Text))
    → all_id_chars k ≡ true
    → after_first (quote ∷ (k ++ after_key)) (esc v ++ quote ∷ members_text end b',' kvs)
      ≡ after_first (quote ∷ (k ++ after_key)) (members_text end b',' kvs)
unfolding members_text
after_first-value [] ends k v [] h = absurd ends
after_first-value (d ∷ more) ends k v [] h = after_first-esc k v d more h ends
after_first-value end ends k v ((j, w) ∷ kvs) h = after_first-esc k v b',' _ h refl

strip_prefix-colon :
    (k t : Text) → all_id_chars k ≡ true → strip_prefix (k ++ after_key) (colon ∷ t) ≡ none
unfolding strip_prefix all_id_chars
strip_prefix-colon [] t h = refl
strip_prefix-colon (c ∷ k) t h = ground (arith, h)

-- The search passes over the member of another key.
after_first-member :
    (end : Text) (ends : IsEnd end) (k j v : Text) (kvs : List (Text × Text))
    → all_id_chars k ≡ true
    → all_id_chars j ≡ true
    → text_eq j k ≡ false
    → after_first (quote ∷ (k ++ after_key)) (member j v (members_text end b',' kvs))
      ≡ after_first (quote ∷ (k ++ after_key)) (members_text end b',' kvs)
after_first-member end ends k j v kvs h l e =
    let tail : Text = esc v ++ (quote ∷ members_text end b',' kvs) in
    let k_end = k ++ after_key in
    after_first-quote k_end (j ++ (quote ∷ colon ∷ quote ∷ tail))
      (strip_prefix-other k j tail h l e)
    ∙ after_first-key k_end j (quote ∷ colon ∷ quote ∷ tail) l
    ∙ after_first-quote k_end (colon ∷ quote ∷ tail) (strip_prefix-colon k (quote ∷ tail) h)
    ∙ after_first-other k_end (quote ∷ tail) colon refl
    ∙ after_first-quote k_end tail (strip_prefix-value end ends k v kvs h)
    ∙ after_first-value end ends k v kvs h

-- Of an object of texts each member is read; for any other key the search goes on behind it.
pub json_string_field-members :
    (end : Text) (ends : IsEnd end) (first : ℕ) (k : Text) (kvs : List (Text × Text))
    → (quote == first) ≡ false
    → all_id_chars k ≡ true
    → AllKeys kvs
    → json_string_field (members_text end first kvs) k
      ≡ elim (find k kvs) [ none ↦ json_string_field end k | some v ↦ v ]
unfolding members_text json_string_field find
json_string_field-members end ends first k [] f h l = refl
json_string_field-members end ends first k ((j, v) ∷ kvs) f h l =
    let rest : Text = members_text end b',' kvs in
    let skip = after_first-other (k ++ after_key) (member j v rest) first f in
    elim (Bool-cases (text_eq j k)) [
      | inl same ↦
          rw
            (
              json_string_field,
              skip,
              find,
              same,
              (text_eq_iff j k).0 same,
              strip_prefix-same k (esc v ++ (quote ∷ rest)),
            )
            (read_quoted-esc v rest)
      | inr other ↦
          rw
            (
              json_string_field,
              skip,
              after_first-member end ends k j v kvs h l.0 other,
              find,
              other,
            )
            (json_string_field-members end ends b',' k kvs refl h l.1)
    ]

-- The members of the request to mount a store, by the kind of the store.
abbrev pub mount_members : ConnectionForm → List (Text × Text)
mount_members f =
    if eqb_ℤ f.kind_idx (pos 0)
    then (codes "kind", codes "local") ∷ (codes "path", f.local_path) ∷ []
    else (codes "kind", codes "s3")
      ∷ (codes "bucket", f.s3_bucket)
      ∷ (codes "prefix", f.s3_prefix)
      ∷ (codes "region", f.s3_region)
      ∷ (codes "branch", f.s3_branch)
      ∷ (codes "access_key_id", if f.s3_access_is_server_held then [] else f.s3_access)
      ∷ (codes "secret_access_key", if f.s3_secret_is_server_held then [] else f.s3_secret)
      ∷ (if is_empty f.s3_endpoint then [] else (codes "endpoint_url", f.s3_endpoint) ∷ [])

pub build_mount_json-members :
    (f : ConnectionForm) → build_mount_json f ≡ members_text (codes "}") b'{' (mount_members f)
unfolding build_mount_json members_text esc
build_mount_json-members f = elim (Bool-cases (eqb_ℤ f.kind_idx (pos 0))) [
  | inl local ↦ rw (build_mount_json, local) refl
  | inr s3 ↦ elim (Bool-cases (is_empty f.s3_endpoint)) [
    | inl absent ↦ rw (build_mount_json, s3, absent) refl
    | inr given ↦ rw (build_mount_json, s3, given) refl
  ]
]

pub mount_members-AllKeys : (f : ConnectionForm) → AllKeys (mount_members f)
unfolding all_id_chars
mount_members-AllKeys f = elim (Bool-cases (eqb_ℤ f.kind_idx (pos 0))) [
  | inl local ↦ rw (local) (refl, (refl, tt))
  | inr s3 ↦ elim (Bool-cases (is_empty f.s3_endpoint)) [
    | inl absent ↦ rw (s3, absent) (refl, (refl, (refl, (refl, (refl, (refl, (refl, tt)))))))
    | inr given ↦ rw (s3, given) (refl, (refl, (refl, (refl, (refl, (refl, (refl, (refl, tt))))))))
  ]
]

-- Whatever the fields of the form hold, quotes and backslashes included, each member of the request to
-- mount a store is read back as the field it was made of, and no value brings in another member.
pub json_string_field-build_mount_json :
    (f : ConnectionForm) (k : Text)
    → all_id_chars k ≡ true
    → json_string_field (build_mount_json f) k ≡ member_of k (mount_members f)
unfolding json_string_field
json_string_field-build_mount_json f k h = rw (build_mount_json-members f) (
    json_string_field-members (codes "}") refl b'{' k (mount_members f) refl h
      (mount_members-AllKeys f))
