-- ===== src/App/Json.antt =====
-- The application's own JSON: what it sends to mount a store, and how it takes a field out of a
-- response (app/main.cpp). A field of the form is a C string, the text before its first zero byte.
pub mod Fields
pub mod ReadBack
use imrmf_map_editor.Base.{
  ℕ, Bool, true, false, ◌||◌, Option, none, some, List, [], ◌∷◌, ◌++◌, ◌==◌, if◌then◌else◌,
}
use imrmf_map_editor.Base.Int.{ℤ, pos, eqb_ℤ}
use imrmf_map_editor.Base.Text.{Text, codes, is_empty, starts_with}

abbrev pub quote : ℕ
quote = b'"'

abbrev pub backslash : ℕ
backslash = 92

abbrev pub colon : ℕ
colon = b':'

-- What follows `needle`, where it stands at the front.
unfoldable pub strip_prefix : Text → Text → Option Text
strip_prefix [] s = some s
strip_prefix (d ∷ needle) [] = none
strip_prefix (d ∷ needle) (c ∷ s) = elim (d == c) [ true ↦ strip_prefix needle s | false ↦ none ]

-- What follows the first occurrence that `find` finds, from `pos + needle.size()`.
unfoldable pub after_first : Text → Text → Option Text
unfolding strip_prefix
after_first needle [] = strip_prefix needle []
after_first needle (c ∷ s) = elim (strip_prefix needle (c ∷ s)) [
  | some rest ↦ some rest
  | none ↦ after_first needle s
]

-- The loop up to the closing quote, which takes the character after a backslash as it is.
unfoldable pub read_quoted : Text → Text
read_quoted [] = []
read_quoted (c ∷ []) = if c == quote then [] else c ∷ []
read_quoted (c ∷ d ∷ s) =
    let skipped = read_quoted s in
    let next = read_quoted (d ∷ s) in
    if c == quote then [] else if c == backslash then d ∷ skipped else c ∷ next

unfoldable pub json_string_field : Text → Text → Text
unfolding after_first read_quoted
json_string_field src key = elim (after_first (quote ∷ key ++ quote ∷ colon ∷ quote ∷ []) src) [
  | none ↦ []
  | some s ↦ read_quoted s
]

skip_blanks : Text → Text
skip_blanks [] = []
skip_blanks (c ∷ s) = elim (c == b' ' || c == 9) [ true ↦ skip_blanks s | false ↦ c ∷ s ]

unfoldable pub json_bool_field : Text → Text → Bool
unfolding after_first skip_blanks starts_with
json_bool_field src key = elim (after_first (quote ∷ key ++ quote ∷ colon ∷ []) src) [
  | none ↦ false
  | some s ↦ starts_with (codes "true") (skip_blanks s)
]

pub record ConnectionForm : Type 0 where
  pub kind_idx : ℤ
  pub s3_secret_is_server_held : Bool
  pub s3_access_is_server_held : Bool
  pub server_url : Text
  pub local_path : Text
  pub s3_bucket : Text
  pub s3_prefix : Text
  pub s3_region : Text
  pub s3_branch : Text
  pub s3_access : Text
  pub s3_secret : Text
  pub s3_endpoint : Text
  pub building_id : Text

unfoldable pub esc : Text → Text
esc [] = []
esc (c ∷ s) =
    let rest = esc s in if c == quote || c == backslash then backslash ∷ c ∷ rest else c ∷ rest

-- `",\"" + key + "\":\"" + esc(value) + "\""`, and what follows.
abbrev member_text : Text → Text → Text → Text
member_text key value rest = b',' ∷ quote ∷ key ++ quote ∷ colon ∷ quote ∷ esc value ++ quote ∷ rest

-- The credentials that are sent: none where the server holds them.
abbrev pub sent : Bool → Text → Text
sent held secret = if held then [] else secret

unfoldable pub build_mount_json : ConnectionForm → Text
unfolding esc
build_mount_json f =
    if eqb_ℤ f.kind_idx (pos 0)
    then codes "{\"kind\":\"local\",\"path\":\"" ++ esc f.local_path ++ codes "\"}"
    else codes "{\"kind\":\"s3\""
      ++ member_text (codes "bucket") f.s3_bucket (
          member_text (codes "prefix") f.s3_prefix (
            member_text (codes "region") f.s3_region (
              member_text (codes "branch") f.s3_branch (
                member_text (codes "access_key_id") (sent f.s3_access_is_server_held f.s3_access) (
                  member_text (codes "secret_access_key")
                    (sent f.s3_secret_is_server_held f.s3_secret)
                    (if is_empty f.s3_endpoint
                      then codes "}"
                      else member_text (codes "endpoint_url") f.s3_endpoint (codes "}")))))))
