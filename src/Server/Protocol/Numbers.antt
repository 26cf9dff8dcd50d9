-- ===== src/Server/Protocol/Numbers.antt =====
-- Numbers and ids in a request to server/buildings_api.cpp.
use imrmf_map_editor.Base.{
  ℕ, ◌+◌, ◌-◌, ◌*◌, ◌^◌, ◌<◌, ◌≡◌, refl, true, false, ◌||◌, some, [], ◌∷◌, ◌==◌, arith, ap, ◌∙◌,
  ltb, and_parts, All,
}
use imrmf_map_editor.Base.Text.{Text, has_char, is_empty}
use imrmf_map_editor.Bundle.Names.{to_string}
use imrmf_map_editor.Bundle.Names.Digits.{
  IsDigit, value, value-to_string, to_string-IsDigit, to_string-nonempty,
}
use imrmf_map_editor.Server.Protocol.{
  between, drop_while, read_digits, in_word, signed_digits, stoul, url_decode, is_id_char,
  all_id_chars,
}

read_digits-value : (s : Text) (n : ℕ) → All IsDigit s → read_digits (some n) s ≡ some (value n s)
unfolding read_digits value
read_digits-value [] n h = refl
read_digits-value (c ∷ s) n h =
    let digit : between b'0' b'9' c ≡ true = ground (arith, h.0) in
    rw (digit) (read_digits-value s (n * 10 + (c - b'0')) h.1)

stoul-digits :
    (s : Text)
    → All IsDigit s
    → is_empty s ≡ false
    → value 0 s < 2 ^ 64
    → stoul s ≡ some (value 0 s)
unfolding stoul signed_digits drop_while read_digits in_word value
stoul-digits [] h full fits = cc
stoul-digits (c ∷ s) h full fits =
    let digit : between b'0' b'9' c ≡ true = ground (arith, h.0) in
    let blank : (c == b' ' || between 9 13 c) ≡ false = ground (arith, h.0) in
    let minus : (c == b'-') ≡ false = ground (arith, h.0) in
    let plus : (c == b'+') ≡ false = ground (arith, h.0) in
    let small : ltb (value (0 * 10 + (c - b'0')) s) (2 ^ 64) ≡ true = ground (arith, fits) in
    rw (blank, minus, plus, digit, read_digits-value s (0 * 10 + (c - b'0')) h.1)
      (rw (in_word, small) refl)

-- A length that was written is read back.
pub stoul-to_string : (n : ℕ) → n < 2 ^ 64 → stoul (to_string n) ≡ some n
stoul-to_string n fits =
    stoul-digits (to_string n) (to_string-IsDigit n) (to_string-nonempty n)
      (rw (value-to_string n) fits)
    ∙ ap some (value-to_string n)

-- An id has none of the characters that an id may not have.
pub all_id_chars-has_char :
    (c : ℕ) (id : Text) → is_id_char c ≡ false → all_id_chars id ≡ true → has_char c id ≡ false
unfolding all_id_chars has_char
all_id_chars-has_char c [] e h = refl
all_id_chars-has_char c (d ∷ id) e h =
    let (here, rest) = and_parts (is_id_char d) (all_id_chars id) h in
    ground (arith, e, here, all_id_chars-has_char c id e rest)

id_char-plain : (c : ℕ) → is_id_char c ≡ true → ((c == b'+') ≡ false) × ((c == b'%') ≡ false)
id_char-plain c h = (ground (arith, h), ground (arith, h))

-- An id is not changed by the decoding of the path.
pub url_decode-id : (id : Text) → all_id_chars id ≡ true → url_decode id ≡ id
unfolding url_decode all_id_chars
url_decode-id [] h = refl
url_decode-id (c ∷ []) h =
    let (here, _) = and_parts (is_id_char c) true h in rw ((id_char-plain c here).0) refl
url_decode-id (c ∷ d ∷ []) h =
    let (here, rest) = and_parts (is_id_char c) (all_id_chars (d ∷ [])) h in
    rw ((id_char-plain c here).0) (ap (λ s. c ∷ s) (url_decode-id (d ∷ []) rest))
url_decode-id (c ∷ d ∷ l ∷ s) h =
    let (here, rest) = and_parts (is_id_char c) (all_id_chars (d ∷ l ∷ s)) h in
    let (plus, percent) = id_char-plain c here in
    rw (percent, plus) (ap (λ t. c ∷ t) (url_decode-id (d ∷ l ∷ s) rest))
