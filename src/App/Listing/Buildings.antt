-- ===== src/App/Listing/Buildings.antt =====
-- The list of maps is read as it was sent (`parse_buildings_payload` of app/main.cpp).
use imrmf_map_editor.Base.{
  ℕ, ◌≡◌, refl, sym, ◌∙◌, ap, true, false, none, some, List, [], ◌∷◌, ◌++◌, append_assoc,
  append-nil, arith, All, All-append, ◌==◌, and_parts,
}
use imrmf_map_editor.Base.Text.{Text, codes, until}
use imrmf_map_editor.Server.Protocol.{all_id_chars}
use imrmf_map_editor.App.Listing.{quoted, parse_buildings_payload}

-- A list of texts as the response has it: in quotes, with commas between.
unfoldable pub listing : List Text → Text
listing [] = []
listing (id ∷ []) = b'"' ∷ (id ++ b'"' ∷ [])
listing (id ∷ next ∷ ids) = b'"' ∷ (id ++ b'"' ∷ b',' ∷ listing (next ∷ ids))

abbrev pub buildings_payload : List Text → Text
buildings_payload ids = codes "{\"buildings\":[" ++ (listing ids ++ codes "]}")

abbrev pub AllIds : List Text → Type 0
AllIds ids = All (λ id. all_id_chars id ≡ true) ids

until-append :
    (c : ℕ) (s t : Text) → All (λ d. (d == c) ≡ false) s → until c (s ++ c ∷ t) ≡ (s, some t)
unfolding until
until-append c [] t h = ground arith
until-append c (d ∷ s) t h = ground (arith, h.0, until-append c s t h.1)

quoted-id :
    (text id t : Text)
    → all_id_chars id ≡ true
    → quoted (some text) (id ++ b'"' ∷ t) ≡ (text ++ id) ∷ quoted none t
unfolding quoted all_id_chars
quoted-id text [] t h = ap (λ x. x ∷ quoted none t) (sym (append-nil text))
quoted-id text (c ∷ id) t h =
    let other : (c == b'"') ≡ false = ground (arith, h) in
    rw (quoted, other)
      (quoted-id (text ++ c ∷ []) id t (and_parts _ _ h).1
        ∙ ap (λ x. x ∷ quoted none t) (append_assoc text (c ∷ []) id))

quoted-listing : (ids : List Text) → AllIds ids → quoted none (listing ids) ≡ ids
unfolding listing quoted
quoted-listing [] h = refl
quoted-listing (id ∷ []) h = quoted-id [] id [] h.0
quoted-listing (id ∷ next ∷ ids) h =
    quoted-id [] id (b',' ∷ listing (next ∷ ids)) h.0
    ∙ ap (λ rest. id ∷ rest) (quoted-listing (next ∷ ids) h.1)

-- An id has neither quotes nor brackets.
id-plain : (id : Text) → all_id_chars id ≡ true → All (λ d. (d == b']') ≡ false) id
unfolding all_id_chars
id-plain [] h = tt
id-plain (c ∷ id) h = (ground (arith, h), id-plain id (and_parts _ _ h).1)

listing-plain : (ids : List Text) → AllIds ids → All (λ d. (d == b']') ≡ false) (listing ids)
unfolding listing
listing-plain [] h = tt
listing-plain (id ∷ []) h = (refl, All-append _ id (b'"' ∷ []) (id-plain id h.0) (refl, tt))
listing-plain (id ∷ next ∷ ids) h = (
  refl,
  All-append _ id (b'"' ∷ b',' ∷ listing (next ∷ ids)) (id-plain id h.0)
      (refl, (refl, listing-plain (next ∷ ids) h.1)),
)

-- The ids of a response are read as they were sent, none lost or changed, for ids of the form that the
-- application and the server accept.
pub parse_buildings_payload-listing :
    (ids : List Text) → AllIds ids → parse_buildings_payload (buildings_payload ids) ≡ ids
unfolding parse_buildings_payload until
parse_buildings_payload-listing ids h =
    let ended = until-append b']' (listing ids) (b'}' ∷ []) (listing-plain ids h) in
    rw (parse_buildings_payload, ended, ended) (quoted-listing ids h)
