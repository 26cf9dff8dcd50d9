-- ===== src/View/Params/Kept.antt =====
-- Giving defaults keeps what is set (`ensure_params` of view/editor_view.cpp).
use imrmf_map_editor.Base.{
  ◌≡◌, refl, ◌∙◌, true, false, none, some, [], ◌∷◌, Bool-cases, Option-cases, inl, inr,
  if◌then◌else◌,
}
use imrmf_map_editor.Base.Text.{text_eq_apart, Text, text_eq, text_eq_iff}
use imrmf_map_editor.Building.{Params, ParamValue, find}
use imrmf_map_editor.Yaml.{text_ltb}
use imrmf_map_editor.View.Split.Tool.{insert_param, need}
use imrmf_map_editor.View.Params.{ensure_params}

module _ {D : Type 0} where
  -- A key that is put in is found; the others are as before.
  find-insert_param :
      (k j : Text) (v : ParamValue D) (params : Params D)
      → find j params ≡ none
      → find k (insert_param j v params)
        ≡ elim (text_eq j k) [ true ↦ some v | false ↦ find k params ]
  unfolding insert_param find
  find-insert_param k j v [] h = refl
  find-insert_param k j v ((i, w) ∷ params) h = elim (Bool-cases (text_ltb j i)) [
    | inl before ↦ rw (insert_param, before) refl
    | inr after ↦ elim (Bool-cases (text_eq i j)) [
      | inl taken ↦ absurd (cc (rw (find, taken) at h))
      | inr other ↦
          let later = find-insert_param k j v params (rw (find, other) at h) in
          elim (Bool-cases (text_eq i k)) [
            | inl here ↦ rw (insert_param, after, text_eq_apart i j k here other, find, here) refl
            | inr elsewhere ↦ elim (Bool-cases (text_eq j k)) [
              | inl same ↦ rw (insert_param, after, same, find, elsewhere) (rw same at later)
              | inr differ ↦ rw (insert_param, after, differ, find, elsewhere) (rw differ at later)
            ]
          ]
    ]
  ]

  -- What a key has: what it had, or else the default.
  find-need :
      (k j : Text) (v : ParamValue D) (params : Params D)
      → find k (need j v params)
        ≡ elim (find k params) [ some w ↦ some w | none ↦ if text_eq j k then some v else none ]
  unfolding need
  find-need k j v params = elim (Option-cases (find j params)) [
    | inl absent ↦
        rw (need, absent)
          (find-insert_param k j v params absent ∙ elim (Option-cases (find k params)) [
            | inl none_k ↦ elim (Bool-cases (text_eq j k)) [
              | inl same ↦ rw (none_k, same) refl
              | inr other ↦ rw (none_k, other, none_k) refl
            ]
            | inr (w, some_k) ↦ elim (Bool-cases (text_eq j k)) [
              | inl same ↦ absurd (cc (absent, some_k, (text_eq_iff j k).0 same))
              | inr other ↦ rw (some_k, other, some_k) refl
            ]
          ])
    | inr (w, there) ↦ elim (Option-cases (find k params)) [
      | inr (u, some_k) ↦ rw (need, there, some_k) refl
      | inl none_k ↦ elim (Bool-cases (text_eq j k)) [
        | inl same ↦ absurd (cc (there, none_k, (text_eq_iff j k).0 same))
        | inr other ↦ rw (need, there, none_k, other) refl
      ]
    ]
  ]

  -- After the defaults are given, each key has what it had before, or else its first default, or nothing:
  -- whatever the defaults, no parameter that is set changes.
  pub find-ensure_params :
      (k : Text) (defs params : Params D)
      → find k (ensure_params defs params)
        ≡ elim (find k params) [ some w ↦ some w | none ↦ find k defs ]
  unfolding ensure_params find
  find-ensure_params k [] params = elim (Option-cases (find k params)) [
    | inl e ↦ rw e refl
    | inr (w, e) ↦ rw e refl
  ]
  find-ensure_params k ((j, v) ∷ defs) params =
      find-ensure_params k defs (need j v params) ∙ elim (Option-cases (find k params)) [
        | inr (w, e) ↦ rw (find-need k j v params, e) refl
        | inl e ↦ elim (Bool-cases (text_eq j k)) [
          | inl same ↦ rw (find-need k j v params, e, find, same) refl
          | inr other ↦ rw (find-need k j v params, e, find, other) refl
        ]
      ]
