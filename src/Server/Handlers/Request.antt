-- ===== src/Server/Handlers/Request.antt =====
-- What the dispatch of server/buildings_api.cpp reads from a request.
use imrmf_map_editor.Base.{
  ℕ, zero, suc, ◌≤◌, ◌≡◌, refl, sym, ap, ◌∙◌, true, false, Option, none, some, List, [], ◌∷◌, ◌++◌,
  append-nil, append_assoc, arith, length, take, ltb, All, Bool-cases, inl, inr,
}
use imrmf_map_editor.Base.Text.{Text, codes, until, starts_with, has_char, is_empty}
use imrmf_map_editor.Building.Double.{Double}
use imrmf_map_editor.Yaml.{Yaml}
use imrmf_map_editor.Server.Protocol.{all_id_chars, url_decode}
use imrmf_map_editor.Server.Protocol.Split.{
  has_char-append, split_on-buildings, until-found, until-none,
}
use imrmf_map_editor.Server.Protocol.Numbers.{all_id_chars-has_char, url_decode-id}
use imrmf_map_editor.Server.Handlers.{read_until, id_in_path, requested_id}

-- The bytes of the chunks.
abbrev pub concat : List Text → Text
concat [] = []
concat (chunk ∷ chunks) = chunk ++ concat chunks

take-append : (n : ℕ) (s t : Text) → n ≤ length s → take n (s ++ t) ≡ take n s
take-append zero s t h = refl
take-append (suc n) [] t h = elim h [ ]
take-append (suc n) (c ∷ s) t h = ap (λ x. c ∷ x) (take-append n s t (omega (arith, h)))

-- Reading until a length that comes gives a text that begins as what comes does, up to that length.
pub read_until-enough :
    (chunks : List Text) (accum : Text) (n : ℕ)
    → All (λ chunk. is_empty chunk ≡ false) chunks
    → n ≤ length (accum ++ concat chunks)
    → (read : Text) × (read_until chunks accum n ≡ some read)
      × (take n read ≡ take n (accum ++ concat chunks))
unfolding read_until
read_until-enough [] accum n h fits =
    let size = ap length (append-nil accum) in
    let enough : ltb (length accum) n ≡ false = ground (arith, fits, size) in
    (accum, rw enough refl, ap (take n) (sym (append-nil accum)))
read_until-enough (chunk ∷ chunks) accum n h fits = elim (Bool-cases (ltb (length accum) n)) [
  | inr enough ↦ (
    accum,
    rw (enough, read_until) refl,
    sym (take-append n accum (concat (chunk ∷ chunks)) (ground (arith, enough))),
  )
  | inl short ↦
      let e = append_assoc accum chunk (concat chunks) in
      let (read, ran, same) = read_until-enough chunks (accum ++ chunk) n h.1 (rw e fits) in
      (read, rw (short, h.0, read_until) ran, same ∙ ap (take n) e)
]

take-length : (s : Text) → take (length s) s ≡ s
take-length [] = refl
take-length (c ∷ s) = ap (λ t. c ∷ t) (take-length s)

-- The first bytes of a text, by their count.
pub take-first : (s t : Text) → take (length s) (s ++ t) ≡ s
take-first s t = take-append (length s) s t (omega arith) ∙ take-length s

module _ {D : Type 0} (Y : Yaml D) (F : Double D) (what : Text → Text) where
  id_in_path-id :
      (id : Text) → all_id_chars id ≡ true → id_in_path Y F what (codes "/buildings/" ++ id) ≡ id
  unfolding id_in_path starts_with
  id_in_path-id id h =
      ap
        (λ (r : Option (Text × Text)). elim r [
          | none ↦ []
          | some p ↦ url_decode (until b'?' p.1).0
        ])
        (split_on-buildings id)
      ∙ ap (λ (r : Text × Option Text). url_decode r.0)
          (until-none b'?' id (all_id_chars-has_char b'?' id refl h))
      ∙ url_decode-id id h

  -- The id of a post, whatever follows it.
  pub requested_id-post :
      (id rest : Text)
      → all_id_chars id ≡ true
      → requested_id Y F what (codes "POST /buildings/" ++ (id ++ b' ' ∷ rest)) ≡ id
  unfolding requested_id until
  requested_id-post id rest h =
      let found : until b' ' (codes "/buildings/" ++ (id ++ b' ' ∷ rest))
          ≡ (codes "/buildings/" ++ id, some rest) =
        until-found b' ' (codes "/buildings/" ++ id) rest (
          has_char-append b' ' (codes "/buildings/") id (unfold has_char in refl)
            (all_id_chars-has_char b' ' id refl h)) in
      ap (λ (r : Text × Option Text). elim r.1 [ none ↦ [] | some _ ↦ id_in_path Y F what r.0 ])
        found
      ∙ id_in_path-id id h
