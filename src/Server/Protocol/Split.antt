-- ===== src/Server/Protocol/Split.antt =====
-- Where `handle_client`'s reader of server/buildings_api.cpp cuts a request: at the first empty line.
use imrmf_map_editor.Base.{ℕ, ◌≡◌, refl, false, none, some, [], ◌∷◌, ◌++◌, ◌==◌, arith}
use imrmf_map_editor.Base.Text.{Text, codes, starts_with, has_char, until}
use imrmf_map_editor.Server.Protocol.{crlf, split_on, drop_chars}

pub has_char-append :
    (c : ℕ) (s t : Text) → has_char c s ≡ false → has_char c t ≡ false → has_char c (s ++ t) ≡ false
unfolding has_char
has_char-append c [] t h k = k
has_char-append c (d ∷ s) t h k = ground (arith, h, k, has_char-append c s t)

-- A step over a character at which the empty line does not start.
pub split_on-step :
    (c : ℕ) (t h b : Text)
    → starts_with (crlf ++ crlf) (c ∷ t) ≡ false
    → split_on (crlf ++ crlf) t ≡ some (h, b)
    → split_on (crlf ++ crlf) (c ∷ t) ≡ some (c ∷ h, b)
unfolding split_on
split_on-step c t h b other e = rw (other, e) refl

-- A text without a carriage return before it does not matter.
pub split_on-past :
    (s t h b : Text)
    → has_char 13 s ≡ false
    → split_on (crlf ++ crlf) t ≡ some (h, b)
    → split_on (crlf ++ crlf) (s ++ t) ≡ some (s ++ h, b)
unfolding has_char starts_with
split_on-past [] t h b plain e = e
split_on-past (c ∷ s) t h b plain e =
    split_on-step c (s ++ t) (s ++ h) b (ground (arith, plain))
      (split_on-past s t h b (ground (arith, plain)) e)

pub split_on-here : (b : Text) → split_on (crlf ++ crlf) (13 ∷ 10 ∷ 13 ∷ 10 ∷ b) ≡ some ([], b)
unfolding split_on starts_with drop_chars
split_on-here b = refl

pub split_on-buildings :
    (s : Text) → split_on (codes "/buildings/") (codes "/buildings/" ++ s) ≡ some ([], s)
unfolding split_on starts_with drop_chars
split_on-buildings s = refl

-- The end of a line after which another one begins.
pub split_on-line :
    (c : ℕ) (t h b : Text)
    → (13 == c) ≡ false
    → split_on (crlf ++ crlf) (c ∷ t) ≡ some (h, b)
    → split_on (crlf ++ crlf) (13 ∷ 10 ∷ c ∷ t) ≡ some (13 ∷ 10 ∷ h, b)
unfolding starts_with
split_on-line c t h b other e =
    split_on-step 13 (10 ∷ c ∷ t) (10 ∷ h) b (ground (arith, other))
      (split_on-step 10 (c ∷ t) h b refl e)

pub until-found : (c : ℕ) (s t : Text) → has_char c s ≡ false → until c (s ++ c ∷ t) ≡ (s, some t)
unfolding until has_char
until-found c [] t h = ground arith
until-found c (d ∷ s) t h =
    let rest = until-found c s t (ground (arith, h)) in rw (rest) (ground (arith, h))

pub until-none : (c : ℕ) (s : Text) → has_char c s ≡ false → until c s ≡ (s, none)
unfolding until has_char
until-none c [] h = refl
until-none c (d ∷ s) h =
    let rest = until-none c s (ground (arith, h)) in rw (rest) (ground (arith, h))
