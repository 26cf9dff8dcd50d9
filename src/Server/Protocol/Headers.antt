-- ===== src/Server/Protocol/Headers.antt =====
-- What `header_value` of server/buildings_api.cpp finds.
use imrmf_map_editor.Base.{
  ℕ, zero, suc, ◌+◌, ◌≤◌, ◌<◌, ◌≡◌, refl, Bool, true, false, ◌&&◌, ◌||◌, some, [], ◌∷◌, ◌++◌, ◌==◌,
  arith, ap, ◌∙◌, sym, append_assoc, map, length, if◌then◌else◌, Bool-cases, inl, inr, All,
  All-mono,
}
use imrmf_map_editor.Base.Text.{Text, codes, starts_with, has_char, until, is_empty}
use imrmf_map_editor.Server.Protocol.Split.{has_char-append, until-found, until-none}
use imrmf_map_editor.Bundle.Names.Digits.{IsDigit}
use imrmf_map_editor.Server.Protocol.{
  to_lower, search_header, colon_at, value_of, is_blank_char, header_value, drop_chars, drop_while,
  trim_end,
}

-- A name without a line feed that is found before one lies before it.
starts_with-within :
    (name line rest : Text)
    → has_char 10 name ≡ false
    → starts_with name (map to_lower (line ++ 10 ∷ rest)) ≡ true
    → length name ≤ length line
unfolding starts_with has_char
starts_with-within [] line rest plain h = omega arith
starts_with-within (c ∷ name) [] rest plain h = absurd (ground (arith, plain, h))
starts_with-within (c ∷ name) (d ∷ line) rest plain h =
    let shorter = starts_with-within name line rest (ground (arith, plain)) (ground (arith, h)) in
    omega (arith, shorter)

-- The rest of a line does not matter.
search_header-line :
    (name line rest : Text) (skip : ℕ)
    → has_char 10 name ≡ false
    → 0 < length name
    → has_char 10 line ≡ false
    → skip ≤ length line + 1
    → search_header name false skip (line ++ 10 ∷ rest) ≡ search_header name true 0 rest
unfolding search_header has_char
search_header-line name [] rest zero plain some_name h k =
    elim (Bool-cases (starts_with name (map to_lower (10 ∷ rest)))) [
      | inl hit ↦ absurd (omega (arith, starts_with-within name [] rest plain hit, some_name))
      | inr miss ↦ rw (miss, search_header) refl
    ]
search_header-line name [] rest (suc zero) plain some_name h k = refl
search_header-line name [] rest (suc (suc skip)) plain some_name h k = absurd (omega (arith, k))
search_header-line name (c ∷ line) rest (suc skip) plain some_name h k =
    let e : (c == 10) ≡ false = ground (arith, h) in
    rw (e, search_header)
      (search_header-line name line rest skip plain some_name (ground (arith, h))
        (omega (arith, k)))
search_header-line name (c ∷ line) rest zero plain some_name h k =
    let e : (c == 10) ≡ false = ground (arith, h) in
    elim (Bool-cases (starts_with name (map to_lower (c ∷ line ++ 10 ∷ rest)))) [
      | inl hit ↦
          let fits = starts_with-within name (c ∷ line) rest plain hit in
          rw (hit, e, search_header)
            (search_header-line name line rest (length name) plain some_name (ground (arith, h))
              (omega (arith, fits)))
      | inr miss ↦
          rw (miss, e, search_header)
            (search_header-line name line rest 0 plain some_name (ground (arith, h)) (omega arith))
    ]

-- A line that begins with another character.
search_header-other :
    (name : Text) (c : ℕ) (line rest : Text)
    → has_char 10 name ≡ false
    → 0 < length name
    → has_char 10 (c ∷ line) ≡ false
    → starts_with name (map to_lower (c ∷ line ++ 10 ∷ rest)) ≡ false
    → search_header name true 0 (c ∷ line ++ 10 ∷ rest) ≡ search_header name true 0 rest
unfolding search_header has_char
search_header-other name c line rest plain some_name h miss =
    let e : (c == 10) ≡ false = ground (arith, h) in
    rw (miss, e, search_header)
      (search_header-line name line rest 0 plain some_name (ground (arith, h)) (omega arith))

-- What `value_of` takes off at the end of a line.
abbrev is_end : ℕ → Bool
is_end c = c == 13 || is_blank_char c

trim_end-keep :
    (test : ℕ → Bool) (s : Text) (c : ℕ)
    → test c ≡ false
    → trim_end test (s ++ c ∷ []) ≡ s ++ c ∷ []
unfolding trim_end
trim_end-keep test [] c e = rw e refl
trim_end-keep test (d ∷ s) c e = rw (trim_end-keep test s c e) (nonempty-last s)
  where
    nonempty-last :
        (s : Text)
        → (if is_empty (s ++ c ∷ []) && test d then [] else d ∷ s ++ c ∷ []) ≡ d ∷ s ++ c ∷ []
    nonempty-last [] = refl
    nonempty-last (x ∷ s) = refl

trim_end-drop :
    (test : ℕ → Bool) (s : Text) (c : ℕ)
    → test c ≡ true
    → trim_end test (s ++ c ∷ []) ≡ trim_end test s
unfolding trim_end
trim_end-drop test [] c e = rw e refl
trim_end-drop test (d ∷ s) c e = rw (trim_end-drop test s c e) refl

-- The value of a header, which neither begins nor ends with a blank, up to a line feed.
value_of-line :
    (c d : ℕ) (mid rest : Text)
    → is_blank_char c ≡ false
    → has_char 10 (c ∷ mid) ≡ false
    → is_end d ≡ false
    → has_char 10 (d ∷ []) ≡ false
    → value_of (b' ' ∷ c ∷ mid ++ d ∷ 13 ∷ 10 ∷ rest) ≡ c ∷ mid ++ d ∷ []
unfolding value_of drop_while
value_of-line c d mid rest first plain last plain_last =
    let line : until 10 (c ∷ mid ++ d ∷ 13 ∷ 10 ∷ rest)
        ≡ ((c ∷ mid ++ d ∷ []) ++ 13 ∷ [], some rest) =
      ap (until 10) (sym (append_assoc (c ∷ mid) (d ∷ 13 ∷ []) (10 ∷ rest)))
      ∙ (until-found 10 (c ∷ mid ++ d ∷ 13 ∷ []) rest (
            has_char-append 10 (c ∷ mid) (d ∷ 13 ∷ []) plain
              (unfold has_char in ground (arith, plain_last)))
          ∙ ap (λ x. (x, some rest)) (sym (append_assoc (c ∷ mid) (d ∷ []) (13 ∷ [])))) in
    rw (first, line)
      (trim_end-drop is_end (c ∷ mid ++ d ∷ []) 13 refl ∙ trim_end-keep is_end (c ∷ mid) d last)

trim_end-all : (test : ℕ → Bool) (s : Text) → All (λ c. test c ≡ false) s → trim_end test s ≡ s
unfolding trim_end
trim_end-all test [] h = refl
trim_end-all test (c ∷ s) h = rw (trim_end-all test s h.1, h.0) (ground arith)

digits-no_feed : (t : Text) → All IsDigit t → has_char 10 t ≡ false
unfolding has_char
digits-no_feed [] k = refl
digits-no_feed (d ∷ t) k = ground (arith, k.0, digits-no_feed t k.1)

-- The value of a header that is a number, at the end of the headers.
value_of-digits : (s : Text) → All IsDigit s → is_empty s ≡ false → value_of (b' ' ∷ s) ≡ s
unfolding value_of drop_while
value_of-digits [] h full = cc
value_of-digits (c ∷ s) h full =
    let first : is_blank_char c ≡ false = ground (arith, h.0) in
    rw (first, until-none 10 (c ∷ s) (digits-no_feed (c ∷ s) h))
      (trim_end-all is_end (c ∷ s) (All-mono (λ d k. ground (arith, k)) (c ∷ s) h))

-- The headers of a post as a client sends them: the request line, the quoted tag that it expects, and
-- the length of the body.
unfoldable pub length_line : Text → Text
length_line digits = codes "Content-Length: " ++ digits

unfoldable pub tag_line : Text → Text → Text
tag_line mid digits = codes "If-Match: \"" ++ (mid ++ b'"' ∷ 13 ∷ 10 ∷ length_line digits)

abbrev pub post_head : Text → Text → Text → Text
post_head id mid digits =
    codes "POST /buildings/" ++ (id ++ (codes " HTTP/1.1\r" ++ 10 ∷ tag_line mid digits))

module _ (id mid digits : Text) (id_plain : has_char 10 id ≡ false)
    (mid_plain : has_char 10 mid ≡ false) where
  -- The request line.
  first_line :
      (name : Text)
      → has_char 10 name ≡ false
      → 0 < length name
      → ((s : Text) → starts_with name (b'p' ∷ s) ≡ false)
      → search_header name true 0 (post_head id mid digits)
        ≡ search_header name true 0 (tag_line mid digits)
  first_line name plain some_name other =
      ap (λ t. search_header name true 0 (codes "POST /buildings/" ++ t))
        (sym (append_assoc id (codes " HTTP/1.1\r") (10 ∷ (tag_line mid digits))))
      ∙ search_header-other name b'P' (codes "OST /buildings/" ++ (id ++ codes " HTTP/1.1\r"))
          (tag_line mid digits) plain some_name
          (has_char-append 10 (codes "POST /buildings/") (id ++ codes " HTTP/1.1\r")
            (unfold has_char in refl)
            (has_char-append 10 id (codes " HTTP/1.1\r") id_plain (unfold has_char in refl)))
          (other _)

  pub header_value-if_match :
      header_value (post_head id mid digits) (codes "If-Match") ≡ b'"' ∷ mid ++ b'"' ∷ []
  unfolding header_value search_header tag_line length_line starts_with colon_at drop_chars
  header_value-if_match =
      first_line (codes "if-match") (unfold has_char in refl) (omega arith) (λ s. refl)
      ∙ value_of-line b'"' b'"' mid (length_line digits) refl (unfold has_char in mid_plain) refl
          (unfold has_char in refl)

  pub header_value-content_length :
      All IsDigit digits
      → is_empty digits ≡ false
      → header_value (post_head id mid digits) (codes "Content-Length") ≡ digits
  unfolding header_value search_header tag_line length_line starts_with colon_at drop_chars
  header_value-content_length h full =
      first_line (codes "content-length") (unfold has_char in refl) (omega arith) (λ s. refl)
      ∙ (ap (λ t. search_header (codes "content-length") true 0 (codes "If-Match: \"" ++ t))
            (sym (append_assoc mid (b'"' ∷ 13 ∷ []) (10 ∷ (length_line digits))))
          ∙ (search_header-other (codes "content-length") b'I'
                (codes "f-Match: \"" ++ (mid ++ b'"' ∷ 13 ∷ [])) (length_line digits)
                (unfold has_char in refl) (omega arith)
                (has_char-append 10 (codes "If-Match: \"") (mid ++ b'"' ∷ 13 ∷ [])
                  (unfold has_char in refl)
                  (has_char-append 10 mid (b'"' ∷ 13 ∷ []) mid_plain (unfold has_char in refl)))
                refl
              ∙ value_of-digits digits h full))
