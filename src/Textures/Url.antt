-- ===== src/Textures/Url.antt =====
-- Where a server's images are fetched (canvas/http_texture_provider.cpp).
use imrmf_map_editor.Base.{
  ℕ, ◌+◌, ◌-◌, ◌%◌, ◌/◌, ◌<◌, ◌≡◌, refl, ap, Bool, true, ◌||◌, [], ◌∷◌, ◌++◌, arith, All, ltb, ◌==◌,
  if◌then◌else◌, Bool-cases, inl, inr,
}
use imrmf_map_editor.Base.Text.{Text, codes}
use imrmf_map_editor.Server.Protocol.{between, hex_value, url_decode}

-- The digits of `%02X`.
abbrev upper_digit : ℕ → ℕ
upper_digit n = if ltb n 10 then b'0' + n else b'A' + (n - 10)

abbrev is_unreserved : ℕ → Bool
is_unreserved c =
    between b'A' b'Z' c
    || between b'a' b'z' c
    || between b'0' b'9' c
    || c == b'-'
    || c == b'_'
    || c == b'.'
    || c == b'~'

unfoldable pub urlencode : Text → Text
urlencode [] = []
urlencode (c ∷ s) =
    let rest = urlencode s in
    if is_unreserved c then c ∷ rest else b'%' ∷ upper_digit (c / 16) ∷ upper_digit (c % 16) ∷ rest

-- `url_builder_` of the default constructor.
unfoldable pub layer_asset_url : Text → Text → Text
unfolding urlencode
layer_asset_url id path =
    codes "/layer_asset?id=" ++ urlencode id ++ codes "&path=" ++ urlencode path

-- The `pop_back` loop of `set_base_url`: without the slashes at the end.
unfoldable pub set_base_url : Text → Text
set_base_url [] = []
set_base_url (c ∷ s) = elim (set_base_url s) [
  | [] ↦ if c == b'/' then [] else c ∷ []
  | d ∷ t ↦ c ∷ d ∷ t
]

url_decode-plain :
    (c : ℕ) (s : Text) → is_unreserved c ≡ true → url_decode (c ∷ s) ≡ c ∷ url_decode s
unfolding url_decode
url_decode-plain c [] h = ground (arith, h)
url_decode-plain c (d ∷ []) h = ground (arith, h)
url_decode-plain c (d ∷ e ∷ s) h = ground (arith, h)

hex_value-upper_digit : (n : ℕ) → n < 16 → hex_value (upper_digit n) ≡ n
unfolding hex_value
hex_value-upper_digit n h = ground (arith, h)

-- What a client's `urlencode` makes of a text of bytes, the server's `url_decode` turns back into it.
pub url_decode-urlencode : (s : Text) → All (λ c. c < 256) s → url_decode (urlencode s) ≡ s
unfolding urlencode url_decode
url_decode-urlencode [] h = refl
url_decode-urlencode (c ∷ s) h = elim (Bool-cases (is_unreserved c)) [
  | inl plain ↦
      rw (urlencode, plain, url_decode-plain c (urlencode s) plain, url_decode-urlencode s h.1) refl
  | inr escaped ↦
      rw
        (
          urlencode,
          escaped,
          url_decode,
          hex_value-upper_digit (c / 16) (omega (arith, h.0)),
          hex_value-upper_digit (c % 16) (omega arith),
          url_decode-urlencode s h.1,
        )
        (ap (λ d. d ∷ s) (omega arith))
]
