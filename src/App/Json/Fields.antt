-- ===== src/App/Json/Fields.antt =====
-- Where the search for a field passes over the escaped value of another (app/main.cpp).
use imrmf_map_editor.Base.{
  ℕ, Bool, true, false, ◌≡◌, refl, sym, ◌∙◌, ◌||◌, none, [], ◌∷◌, ◌++◌, arith, ◌==◌, Bool-cases,
  inl, inr, and_parts, ==_iff,
}
use imrmf_map_editor.Base.Text.{Text}
use imrmf_map_editor.Server.Protocol.{all_id_chars}
use imrmf_map_editor.App.Json.{quote, backslash, colon, strip_prefix, after_first, read_quoted, esc}

-- What stands after a key.
abbrev pub after_key : Text
after_key = quote ∷ colon ∷ quote ∷ []

read_quoted-plain :
    (c : ℕ) (s : Text)
    → (c == quote || c == backslash) ≡ false
    → read_quoted (c ∷ s) ≡ c ∷ read_quoted s
unfolding read_quoted
read_quoted-plain c [] h = ground (arith, h)
read_quoted-plain c (d ∷ s) h = ground (arith, h)

pub read_quoted-esc : (s rest : Text) → read_quoted (esc s ++ quote ∷ rest) ≡ s
unfolding read_quoted esc
read_quoted-esc [] [] = refl
read_quoted-esc [] (c ∷ rest) = refl
read_quoted-esc (c ∷ s) rest = elim (Bool-cases (c == quote || c == backslash)) [
  | inl special ↦ rw (esc, special, read_quoted-esc s rest) refl
  | inr plain ↦
      rw (esc, plain, read_quoted-plain c (esc s ++ quote ∷ rest) plain, read_quoted-esc s rest)
        refl
]

-- What stands after a value.
abbrev pub is_separator : ℕ → Bool
is_separator d = d == b',' || d == b'}'

-- No key ends inside an escaped value.
pub strip_prefix-esc :
    (k s : Text) (d : ℕ) (rest : Text)
    → all_id_chars k ≡ true
    → is_separator d ≡ true
    → strip_prefix (k ++ after_key) (esc s ++ quote ∷ d ∷ rest) ≡ none
unfolding strip_prefix esc all_id_chars
strip_prefix-esc [] [] d rest h e = ground (arith, e)
strip_prefix-esc [] (c ∷ s) d rest h e = ground arith
strip_prefix-esc (k ∷ ks) [] d rest h e = ground (arith, h)
strip_prefix-esc (k ∷ ks) (c ∷ s) d rest h e = elim (Bool-cases (c == quote || c == backslash)) [
  | inl special ↦ rw (esc, special) (ground (arith, h))
  | inr plain ↦ elim (Bool-cases (k == c)) [
    | inl same ↦
        rw (esc, plain, strip_prefix, same) (strip_prefix-esc ks s d rest (and_parts _ _ h).1 e)
    | inr other ↦ rw (esc, plain, strip_prefix, other) refl
  ]
]

pub after_first-other :
    (k s : Text) (c : ℕ)
    → (quote == c) ≡ false
    → after_first (quote ∷ k) (c ∷ s) ≡ after_first (quote ∷ k) s
unfolding after_first strip_prefix
after_first-other k s c h = rw (after_first, strip_prefix, h) refl

pub after_first-quote :
    (k s : Text)
    → strip_prefix k s ≡ none
    → after_first (quote ∷ k) (quote ∷ s) ≡ after_first (quote ∷ k) s
unfolding after_first strip_prefix
after_first-quote k s h = rw (after_first, strip_prefix, h) refl

strip_prefix-separator :
    (k : Text) (d : ℕ) (rest : Text)
    → all_id_chars k ≡ true
    → is_separator d ≡ true
    → strip_prefix (k ++ after_key) (d ∷ rest) ≡ none
unfolding strip_prefix all_id_chars
strip_prefix-separator [] d rest h e = ground (arith, e)
strip_prefix-separator (k ∷ ks) d rest h e = ground (arith, h, e)

-- So the search passes over it.
pub after_first-esc :
    (k s : Text) (d : ℕ) (rest : Text)
    → all_id_chars k ≡ true
    → is_separator d ≡ true
    → after_first (quote ∷ k ++ after_key) (esc s ++ quote ∷ d ∷ rest)
      ≡ after_first (quote ∷ k ++ after_key) (d ∷ rest)
unfolding esc
after_first-esc k [] d rest h e =
    after_first-quote (k ++ after_key) (d ∷ rest) (strip_prefix-separator k d rest h e)
after_first-esc k (c ∷ s) d rest h e =
    let later = after_first-esc k s d rest h e in
    elim (Bool-cases (c == quote || c == backslash)) [
      | inr plain ↦
          rw (esc, plain)
            (after_first-other (k ++ after_key) (esc s ++ quote ∷ d ∷ rest) c
                (ground (arith, plain))
              ∙ later)
      | inl special ↦ elim (Bool-cases (quote == c)) [
        | inr other ↦
            rw (esc, special)
              (after_first-other (k ++ after_key) (c ∷ esc s ++ quote ∷ d ∷ rest) backslash refl
                ∙ after_first-other (k ++ after_key) (esc s ++ quote ∷ d ∷ rest) c other
                ∙ later)
        | inl same ↦
            rw (esc, special, sym ((==_iff quote c).0 same))
              (after_first-other (k ++ after_key) (quote ∷ esc s ++ quote ∷ d ∷ rest) backslash refl
                ∙ after_first-quote (k ++ after_key) (esc s ++ quote ∷ d ∷ rest)
                    (strip_prefix-esc k s d rest h e)
                ∙ later)
      ]
    ]
