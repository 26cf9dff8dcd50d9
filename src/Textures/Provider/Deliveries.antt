-- ===== src/Textures/Provider/Deliveries.antt =====
-- What the delivery of results does to the statuses (`pump` of canvas/stb_texture_provider.cpp).
use imrmf_map_editor.Base.{
  ℕ, ◌≡◌, ◌≢◌, refl, sym, ap, ◌∙◌, inl, inr, Bool, true, false, Option, none, some, List, [], ◌∷◌,
  arith, if◌then◌else◌, Bool-cases, Option-cases, if_true, if_false, sum_by,
}
use imrmf_map_editor.Base.Text.{Text, text_eq, text_eq_iff}
use imrmf_map_editor.Textures.Loader.{Done}
use imrmf_map_editor.Textures.Decode.{
  LoadStatus, not_started, loading, ok, failed, LayerTexture, DecodedPixels, Gl, upload_decoded,
}
use imrmf_map_editor.Textures.Provider.{find_entry, set_entry, status_of, deliver_one, deliver}

pub find-set :
    {A : Type 0} (key other : Text) (a : A) (entries : List (Text × A))
    → find_entry other (set_entry key a entries)
      ≡ (if text_eq key other then some a else find_entry other entries)
unfolding find_entry set_entry
find-set key other a [] = refl
find-set key other a ((k, b) ∷ entries) = elim (Bool-cases (text_eq k key)) [
  | inl here ↦
      let same : text_eq k other ≡ text_eq key other =
        ap (λ t. text_eq t other) ((text_eq_iff k key).0 here) in
      elim (Bool-cases (text_eq key other)) [
        | inl there ↦ simp (here, same, there)
        | inr there ↦ simp (here, same, there)
      ]
  | inr here ↦ elim (Bool-cases (text_eq key other)) [
    | inl there ↦
        let same : text_eq k other ≡ false =
          ap (text_eq k) (sym ((text_eq_iff key other).0 there)) ∙ here in
        simp (here, same, there, find-set key other a entries)
    | inr there ↦ simp (here, there, find-set key other a entries)
  ]
]

pub ok_not_loading : ok ≢ loading
ok_not_loading e = cc

failed_not_loading : failed ≢ loading
failed_not_loading e = cc

upload_decoded-settled :
    {D : Type 0} (names : ℕ → ℕ) (out : LayerTexture D) (px : DecodedPixels) (gl : Gl)
    → (upload_decoded names out px gl).0.status ≢ loading
unfolding upload_decoded
upload_decoded-settled names out px gl = elim (Bool-cases px.ok) [
  | inl fine ↦ λ e. absurd (ok_not_loading (simp (fine) at e))
  | inr bad ↦ λ e. absurd (failed_not_loading (simp (bad) at e))
]

-- How many results have the key.
abbrev pub keyed : Text → Done DecodedPixels → ℕ
keyed key result = if text_eq result.cache_key key then 1 else 0

abbrev status_in : {D : Type 0} → Option (LayerTexture D) → LoadStatus
status_in none = not_started
status_in (some tex) = tex.status

pub status_of-find :
    {D : Type 0} (key : Text) (textures : List (Text × LayerTexture D))
    → status_of key textures ≡ status_in (find_entry key textures)
unfolding status_of
status_of-find key textures = elim (Option-cases (find_entry key textures)) [
  | inl missing ↦ rw (status_of, missing) refl
  | inr (tex, found) ↦ rw (status_of, found) refl
]

status_in-if :
    {D : Type 0} (b : Bool) (tex : LayerTexture D) (found : Option (LayerTexture D))
    → status_in (if b then some tex else found) ≡ (if b then tex.status else status_in found)
status_in-if true tex found = refl
status_in-if false tex found = refl

pub status-set :
    {D : Type 0} (key other : Text) (tex : LayerTexture D) (textures : List (Text × LayerTexture D))
    → status_of other (set_entry key tex textures)
      ≡ (if text_eq key other then tex.status else status_of other textures)
status-set key other tex textures =
    rw
      (
        status_of-find other (set_entry key tex textures),
        find-set key other tex textures,
        status_of-find other textures,
      )
      (status_in-if (text_eq key other) tex (find_entry other textures))

pub not_started_not_loading : not_started ≢ loading
not_started_not_loading e = cc

deliver_one_missing :
    {D : Type 0} (names : ℕ → ℕ) (result : Done DecodedPixels)
    (textures : List (Text × LayerTexture D)) (gl : Gl)
    → find_entry result.cache_key textures ≡ none
    → deliver_one names result (textures, gl) ≡ (textures, gl)
unfolding deliver_one
deliver_one_missing names result textures gl e = rw (deliver_one, e) refl

deliver_one_found :
    {D : Type 0} (names : ℕ → ℕ) (result : Done DecodedPixels)
    (textures : List (Text × LayerTexture D)) (gl : Gl) (tex : LayerTexture D)
    → find_entry result.cache_key textures ≡ some tex
    → (deliver_one names result (textures, gl)).0
      ≡ set_entry result.cache_key (upload_decoded names tex result.pixels gl).0 textures
unfolding deliver_one
deliver_one_found names result textures gl tex e = rw (deliver_one, e) refl

-- A delivery leaves loading only what its result is not for.
deliver_one-loading :
    {D : Type 0} (names : ℕ → ℕ) (key : Text) (result : Done DecodedPixels)
    (textures : List (Text × LayerTexture D)) (gl : Gl)
    → status_of key (deliver_one names result (textures, gl)).0 ≡ loading
    → (status_of key textures ≡ loading) × (keyed key result ≡ 0)
deliver_one-loading names key result textures gl e =
    elim (Option-cases (find_entry result.cache_key textures)) [
      | inl missing ↦
          let before : status_of key textures ≡ loading =
            ap (λ s. status_of key s.0) (sym (deliver_one_missing names result textures gl missing))
            ∙ e in
          elim (Bool-cases (text_eq result.cache_key key)) [
            | inl here ↦
                let same = (text_eq_iff result.cache_key key).0 here in
                absurd (
                  not_started_not_loading (
                    sym (
                      status_of-find key textures
                      ∙ ap status_in (ap (λ k. find_entry k textures) (sym same) ∙ missing))
                    ∙ before))
            | inr away ↦ (before, rw away refl)
          ]
      | inr (tex, found) ↦
          let loaded = (upload_decoded names tex result.pixels gl).0 in
          let after : (if text_eq result.cache_key key
                then loaded.status
                else status_of key textures)
              ≡ loading =
            sym (status-set result.cache_key key loaded textures)
            ∙ ap (status_of key) (sym (deliver_one_found names result textures gl tex found))
            ∙ e in
          elim (Bool-cases (text_eq result.cache_key key)) [
            | inl here ↦
                absurd (
                  upload_decoded-settled names tex result.pixels gl
                    (sym (if_true _ _ here) ∙ after))
            | inr away ↦ (sym (if_false _ _ away) ∙ after, rw away refl)
          ]
    ]

pub deliver-loading :
    {D : Type 0} (names : ℕ → ℕ) (key : Text) (results : List (Done DecodedPixels))
    (textures : List (Text × LayerTexture D)) (gl : Gl)
    → status_of key (deliver names results (textures, gl)).0 ≡ loading
    → (status_of key textures ≡ loading) × (sum_by (keyed key) results ≡ 0)
unfolding deliver sum_by
deliver-loading names key [] textures gl e = (e, refl)
deliver-loading names key (result ∷ results) textures gl e =
    let (after, none_later) = deliver-loading names key results _ _ e in
    let (before, not_this) = deliver_one-loading names key result textures gl after in
    (before, omega (arith, none_later, not_this))
