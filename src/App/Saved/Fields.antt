-- ===== src/App/Saved/Fields.antt =====
-- How the fields of the saved session are read (`save_session` of app/main.cpp).
use imrmf_map_editor.Base.{
  ℕ, ◌≡◌, refl, ◌∙◌, true, false, none, some, List, [], ◌∷◌, ◌++◌, append_assoc, Option-cases, inl,
  inr,
}
use imrmf_map_editor.Base.Text.{Text, codes, text_eq, is_empty}
use imrmf_map_editor.Building.{find}
use imrmf_map_editor.Server.Protocol.{all_id_chars}
use imrmf_map_editor.App.Json.{quote, colon, strip_prefix, after_first, json_string_field, esc}
use imrmf_map_editor.App.Json.ReadBack.{
  members_text, AllKeys, member_of, mount_members, build_mount_json-members, mount_members-AllKeys,
  json_string_field-members,
}
use imrmf_map_editor.App.Saved.{Place, has, save_session}

members_text-append :
    (end more : Text) (first : ℕ) (kvs : List (Text × Text))
    → members_text end first kvs ++ more ≡ members_text (end ++ more) first kvs
unfolding members_text esc
members_text-append end more first [] = refl
members_text-append end more first ((j, v) ∷ kvs) =
    let value : Text = esc v ++ (quote ∷ members_text end b',' kvs) in
    rw
      (
        append_assoc j (quote ∷ colon ∷ quote ∷ value) more,
        append_assoc (esc v) (quote ∷ members_text end b',' kvs) more,
        members_text-append end more b',' kvs,
      )
      refl

-- The members before the mount blob.
abbrev pub outer : Place → List (Text × Text)
outer p = (codes "server_url", p.server_url) ∷ (codes "building_id", p.building_id) ∷ []

abbrev pub blob : Place → Text
blob p = members_text (codes "}}") b'{' (mount_members p.form)

save_session-members :
    (p : Place) → save_session p ≡ members_text (codes ",\"mount\":" ++ blob p) b'{' (outer p)
unfolding save_session members_text
save_session-members p =
    rw
      (
        build_mount_json-members p.form,
        members_text-append (codes "}") (codes "}") b'{' (mount_members p.form),
      )
      refl

blob_field :
    (p : Place) (k : Text)
    → all_id_chars k ≡ true
    → json_string_field (blob p) k ≡ member_of k (mount_members p.form)
unfolding json_string_field
blob_field p k h =
    json_string_field-members (codes "}}") refl b'{' k (mount_members p.form) refl h
      (mount_members-AllKeys p.form)

outer-AllKeys : (p : Place) → AllKeys (outer p)
unfolding all_id_chars
outer-AllKeys p = (refl, (refl, tt))

-- A key, read in the saved text.
pub saved_field :
    (p : Place) (k : Text)
    → all_id_chars k ≡ true
    → json_string_field (codes ",\"mount\":" ++ blob p) k ≡ json_string_field (blob p) k
    → json_string_field (save_session p) k
      ≡ elim (find k (outer p)) [ none ↦ member_of k (mount_members p.form) | some v ↦ v ]
saved_field p k h skip = rw (save_session-members p) (
    json_string_field-members (codes ",\"mount\":" ++ blob p) refl b'{' k (outer p) refl h
      (outer-AllKeys p)
    ∙ elim (Option-cases (find k (outer p))) [
      | inl e ↦ rw (e) (skip ∙ blob_field p k h)
      | inr (v, e) ↦ rw (e) refl
    ])

-- For a key of the blob the search passes over what stands before it.
abbrev pub IsPlainKey : Text → Type 0
IsPlainKey k =
    (all_id_chars k ≡ true)
    × ((p : Place)
        → json_string_field (codes ",\"mount\":" ++ blob p) k ≡ json_string_field (blob p) k)
    × ((p : Place) → find k (outer p) ≡ none)

pub blob_key :
    (p : Place) (k : Text)
    → IsPlainKey k
    → json_string_field (save_session p) k ≡ member_of k (mount_members p.form)
blob_key p k (h, skip, apart) = saved_field p k h (skip p) ∙ rw (apart p) refl

pub plain_kind : IsPlainKey (codes "kind")
unfolding all_id_chars json_string_field after_first strip_prefix find text_eq
plain_kind = (refl, (λ p. refl), (λ p. refl))

pub plain_path : IsPlainKey (codes "path")
unfolding all_id_chars json_string_field after_first strip_prefix find text_eq
plain_path = (refl, (λ p. refl), (λ p. refl))

pub plain_bucket : IsPlainKey (codes "bucket")
unfolding all_id_chars json_string_field after_first strip_prefix find text_eq
plain_bucket = (refl, (λ p. refl), (λ p. refl))

pub plain_prefix : IsPlainKey (codes "prefix")
unfolding all_id_chars json_string_field after_first strip_prefix find text_eq
plain_prefix = (refl, (λ p. refl), (λ p. refl))

pub plain_region : IsPlainKey (codes "region")
unfolding all_id_chars json_string_field after_first strip_prefix find text_eq
plain_region = (refl, (λ p. refl), (λ p. refl))

pub plain_access : IsPlainKey (codes "access_key_id")
unfolding all_id_chars json_string_field after_first strip_prefix find text_eq
plain_access = (refl, (λ p. refl), (λ p. refl))

pub plain_secret : IsPlainKey (codes "secret_access_key")
unfolding all_id_chars json_string_field after_first strip_prefix find text_eq
plain_secret = (refl, (λ p. refl), (λ p. refl))

pub plain_endpoint : IsPlainKey (codes "endpoint_url")
unfolding all_id_chars json_string_field after_first strip_prefix find text_eq
plain_endpoint = (refl, (λ p. refl), (λ p. refl))

-- A field that is not empty has its key in the text.
pub has-field :
    (raw k : Text)
    → is_empty (json_string_field raw k) ≡ false
    → has (quote ∷ k ++ quote ∷ colon ∷ quote ∷ []) raw ≡ true
unfolding json_string_field
has-field raw k h =
    elim (Option-cases (after_first (quote ∷ k ++ quote ∷ colon ∷ quote ∷ []) raw)) [
      | inl e ↦ absurd (cc (rw (json_string_field, e) at h))
      | inr (rest, e) ↦ rw (has, e) refl
    ]
