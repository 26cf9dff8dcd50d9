-- ===== src/Server/Protocol.antt =====
-- Texts of the protocol: hashes, ids, headers and responses of server/buildings_api.cpp.
pub mod Headers
pub mod Numbers
pub mod Split
use imrmf_map_editor.Base.{
  ℕ, zero, suc, ◌+◌, ◌-◌, ◌*◌, ◌%◌, ◌/◌, ◌^◌, Bool, true, false, ◌&&◌, ◌||◌, Option, none, some,
  List, [], ◌∷◌, ◌++◌, map, length, ltb, leb, ◌==◌, if◌then◌else◌,
}
use imrmf_map_editor.Base.Text.{until, Text, codes, is_empty, starts_with}
use imrmf_map_editor.Bundle.Names.{to_string}

-- Exclusive or of two numbers below `2 ^ width`.
unfoldable pub xor : ℕ → ℕ → ℕ → ℕ
xor zero a b = 0
xor (suc width) a b = (a % 2 + b % 2) % 2 + 2 * xor width (a / 2) (b / 2)

-- `h ^= c; h *= 1099511628211;` on 64 bits.
fnv1a : ℕ → Text → ℕ
unfolding xor
fnv1a h [] = h
fnv1a h (c ∷ data_) = fnv1a (xor 64 h c * 1099511628211 % 2 ^ 64) data_

hex_digit : ℕ → ℕ
hex_digit n = if ltb n 10 then b'0' + n else b'a' + (n - 10)

-- The last `width` digits.
hex_digits : ℕ → ℕ → Text → Text
unfolding hex_digit
hex_digits zero n acc = acc
hex_digits (suc width) n acc = hex_digits width (n / 16) (hex_digit (n % 16) ∷ acc)

unfoldable pub fnv1a_hex : Text → Text
unfolding fnv1a hex_digits
fnv1a_hex data_ = hex_digits 16 (fnv1a 14695981039346656037 data_) []

-- The entity tag of a text.
unfoldable pub etag_of : Text → Text
unfolding fnv1a_hex
etag_of body = b'"' ∷ fnv1a_hex body ++ b'"' ∷ []

abbrev pub between : ℕ → ℕ → ℕ → Bool
between low high c = leb low c && leb c high

unfoldable pub hex_value : ℕ → ℕ
hex_value c =
    if between b'0' b'9' c
    then c - b'0'
    else if between b'a' b'f' c
    then c - b'a' + 10
    else if between b'A' b'F' c
    then c - b'A' + 10
    else 0

-- `out += c` for what stands at the front; a `%` counts where two characters follow it.
unfoldable pub url_decode : Text → Text
unfolding hex_value
url_decode [] = []
url_decode (c ∷ []) = (if c == b'+' then b' ' else c) ∷ []
url_decode (c ∷ d ∷ []) = (if c == b'+' then b' ' else c) ∷ url_decode (d ∷ [])
url_decode (c ∷ h ∷ l ∷ s) =
    let skipped = url_decode s in
    let next = url_decode (h ∷ l ∷ s) in
    if c == b'%'
    then (hex_value h * 16 + hex_value l) ∷ skipped
    else (if c == b'+' then b' ' else c) ∷ next

-- In the "C" locale.
abbrev pub is_id_char : ℕ → Bool
is_id_char c =
    between b'0' b'9' c || between b'A' b'Z' c || between b'a' b'z' c || c == b'_' || c == b'-'

unfoldable pub all_id_chars : Text → Bool
all_id_chars [] = true
all_id_chars (c ∷ s) = is_id_char c && all_id_chars s

unfoldable pub building_id_safe : Text → Bool
unfolding all_id_chars
building_id_safe id = if is_empty id || ltb 64 (length id) then false else all_id_chars id

abbrev pub crlf : Text
crlf = 13 ∷ 10 ∷ []

header_lines : List (Text × Text) → Text
header_lines [] = []
header_lines ((k, v) ∷ headers) = k ++ codes ": " ++ v ++ crlf ++ header_lines headers

unfoldable pub http_response : ℕ → Text → List (Text × Text) → Text → Text
unfolding header_lines to_string
http_response status status_text headers body =
    codes "HTTP/1.1 "
    ++ to_string status
    ++ codes " "
    ++ status_text
    ++ crlf
    ++ codes "Access-Control-Allow-Origin: *"
    ++ crlf
    ++ codes "Access-Control-Allow-Methods: GET, POST, OPTIONS"
    ++ crlf
    ++ codes "Access-Control-Allow-Headers: If-Match, Content-Type"
    ++ crlf
    ++ codes "Access-Control-Expose-Headers: ETag"
    ++ crlf
    ++ header_lines headers
    ++ codes "Content-Length: "
    ++ to_string (length body)
    ++ crlf
    ++ crlf
    ++ body

abbrev to_lower : ℕ → ℕ
to_lower c = if between b'A' b'Z' c then c + 32 else c

abbrev is_blank_char : ℕ → Bool
is_blank_char c = c == b' ' || c == 9

drop_while : (ℕ → Bool) → Text → Text
drop_while test [] = []
drop_while test (c ∷ s) = let rest = drop_while test s in if test c then rest else c ∷ s

-- The `pop_back` loop.
trim_end : (ℕ → Bool) → Text → Text
trim_end test [] = []
trim_end test (c ∷ s) =
    let rest = trim_end test s in if is_empty rest && test c then [] else c ∷ rest

-- The value after the colon, up to the end of its line.
value_of : Text → Text
unfolding until drop_while trim_end
value_of s = trim_end (λ c. c == 13 || is_blank_char c) (until 10 (drop_while is_blank_char s)).0

-- The text from an index on.
drop_chars : ℕ → Text → Text
drop_chars zero s = s
drop_chars (suc n) [] = []
drop_chars (suc n) (c ∷ s) = drop_chars n s

colon_at : ℕ → Text → Bool
unfolding drop_chars
colon_at n s = starts_with (b':' ∷ []) (drop_chars n s)

-- The search for a name: `fresh` says that a line starts here, and `skip` counts the positions that
-- the search leaves out after a match that is no header.
search_header : Text → Bool → ℕ → Text → Text
unfolding value_of drop_chars colon_at starts_with
search_header name fresh skip [] = []
search_header name fresh (suc skip) (c ∷ s) = search_header name (c == 10) skip s
search_header name fresh zero (c ∷ s) =
    let hit = starts_with name (map to_lower (c ∷ s)) in
    let next = search_header name (c == 10) (if hit then length name else 0) s in
    if hit && fresh && colon_at (length name) (c ∷ s)
    then value_of (drop_chars (suc (length name)) (c ∷ s))
    else next

unfoldable pub header_value : Text → Text → Text
unfolding search_header
header_value headers name = search_header (map to_lower name) true zero headers

-- What stands before and after the first occurrence of `needle`.
unfoldable pub split_on : Text → Text → Option (Text × Text)
unfolding starts_with drop_chars
split_on needle [] = none
split_on needle (c ∷ s) =
    let rest = split_on needle s in
    if starts_with needle (c ∷ s)
    then some ([], drop_chars (length needle) (c ∷ s))
    else elim rest [ none ↦ none | some p ↦ some (c ∷ p.0, p.1) ]

-- The digits at the front, if there is one.
read_digits : Option ℕ → Text → Option ℕ
read_digits n [] = n
read_digits n (c ∷ s) =
    let so_far : ℕ = elim n [ none ↦ 0 | some k ↦ k ] in
    let rest = read_digits (some (so_far * 10 + (c - b'0'))) s in
    if between b'0' b'9' c then rest else n

in_word : Option ℕ → Option ℕ
in_word none = none
in_word (some n) = if ltb n (2 ^ 64) then some n else none

negated : Option ℕ → Option ℕ
negated none = none
negated (some n) = some ((2 ^ 64 - n) % 2 ^ 64)

signed_digits : Text → Option ℕ
unfolding read_digits in_word negated
signed_digits [] = none
signed_digits (c ∷ s) =
    let minus = negated (in_word (read_digits none s)) in
    let plus = in_word (read_digits none s) in
    if c == b'-' then minus else if c == b'+' then plus else in_word (read_digits none (c ∷ s))

-- `std::stoul`, which throws on a text with no number at its front and on one out of range.
unfoldable pub stoul : Text → Option ℕ
unfolding drop_while signed_digits
stoul s = signed_digits (drop_while (λ c. c == b' ' || between 9 13 c) s)
