-- ===== src/Tests/Libraries.antt =====
-- Toy versions of the archive library and of the JSON library, which meet the hypotheses.
use native.Mathlib.Nat.{le_refl}
use imrmf_map_editor.Base.{
  ℕ, ◌^◌, ◌<◌, ◌≡◌, refl, ap, ◌∙◌, true, false, Option, none, some, List, [], ◌∷◌, ◌++◌, arith,
  length, get_elem?, ltb, ◌==◌, if◌then◌else◌,
}
use imrmf_map_editor.Base.Int.{pos, negsuc}
use imrmf_map_editor.Base.Text.{Text}
use imrmf_map_editor.Building.{find}
use imrmf_map_editor.Bundle.{Bytes}
use imrmf_map_editor.Bundle.Interface.{Zip, Json, IsJson, FileStat}
use imrmf_map_editor.Bundle.Read.Bounds.{IsBounded}
use imrmf_map_editor.Tests.Chunks.{chunks, unchunk, unchunk-chunks}

unfoldable pub unpair : List Text → List (Text × Text)
unpair (a ∷ b ∷ rest) = (a, b) ∷ unpair rest
unpair _ = []

unfoldable pub pair_up : List (Text × Text) → List Text
pair_up [] = []
pair_up ((a, b) ∷ rest) = a ∷ b ∷ pair_up rest

unfoldable pub bounded : Option (Text × Text) → Option Bytes
bounded none = none
bounded (some e) = if ltb (length e.1) (2 ^ 63) then some e.1 else none

unfoldable pub stat : Option (Text × Text) → Option FileStat
stat none = none
stat (some e) = some (record { filename = e.0; uncomp_size = length e.1; comp_size = length e.1 })

-- An archive is the list of its entries, in order.
abbrev pub toy_zip : Zip
unfolding bounded stat unpair pair_up chunks unchunk
toy_zip = record {
  Reader = List (Text × Text);
  Writer = List (Text × Text);
  open_mem = λ input. some (unpair (unchunk (length input) input));
  num_files = λ r. length r;
  file_stat = λ r i. stat (get_elem? r i);
  is_directory = λ r i. false;
  extract_to_heap = λ r i. bounded (get_elem? r i);
  init_heap = some [];
  add_mem = λ w name bytes level. some (w ++ (name, bytes) ∷ []);
  finalize_heap = λ w. some (chunks (pair_up w));
}

bounded-small :
    (o : Option (Text × Text)) (bytes : Bytes) → bounded o ≡ some bytes → length bytes < 2 ^ 63
unfolding bounded
bounded-small none bytes e = cc
bounded-small (some e) bytes h = ground arith

pub toy_zip-IsBounded : IsBounded toy_zip
unfolding toy_zip
toy_zip-IsBounded r i bytes e = bounded-small (get_elem? r i) bytes e

-- A JSON value is its own text: a tag, and then what it holds.
unfoldable pub after_tag : ℕ → Text → Option Text
after_tag tag [] = none
after_tag tag (t ∷ v) = if t == tag then some v else none

unfoldable pub members : Text → List (Text × Text)
unfolding unpair
members v = unpair (unchunk (length v) v)

abbrev pub toy_json : Json
unfolding after_tag members pair_up chunks unchunk
toy_json = record {
  Value = Text;
  parse = λ bytes. some bytes;
  dump = λ v. v;
  is_object = λ v. elim (after_tag 4 v) [ none ↦ false | some m ↦ true ];
  member = λ v k. elim (after_tag 4 v) [ none ↦ none | some m ↦ find k (members m) ];
  elements = λ v. elim (after_tag 3 v) [ none ↦ none | some m ↦ some (unchunk (length m) m) ];
  as_text = λ v. after_tag 0 v;
  as_int = λ v. elim v [
    | [] ↦ none
    | tag ∷ rest ↦ elim rest [
      | [] ↦ none
      | n ∷ _ ↦ if tag == 1 then some (pos n) else if tag == 2 then some (negsuc n) else none
    ]
  ];
  object = λ kvs. 4 ∷ chunks (pair_up kvs);
  array = λ vs. 3 ∷ chunks vs;
  text = λ t. 0 ∷ t;
  int = λ i. elim i [ pos n ↦ 1 ∷ n ∷ [] | negsuc n ↦ 2 ∷ n ∷ [] ];
}

unpair-pair_up : (kvs : List (Text × Text)) → unpair (pair_up kvs) ≡ kvs
unfolding unpair pair_up
unpair-pair_up [] = refl
unpair-pair_up ((a, b) ∷ kvs) = ap (◌∷◌ (a, b)) (unpair-pair_up kvs)

-- The hypotheses about the JSON library can be met.
pub toy_json-IsJson : IsJson toy_json
unfolding after_tag members toy_json
toy_json-IsJson = record {
  parse-dump = λ v. refl;
  is_object-object = λ kvs. refl;
  member-object = λ kvs k. ap (find k) (
      ap unpair (unchunk-chunks (length (chunks (pair_up kvs))) (pair_up kvs) (le_refl _))
      ∙ unpair-pair_up kvs);
  elements-array = λ vs. ap some (unchunk-chunks (length (chunks vs)) vs (le_refl _));
  as_text-text = λ t. refl;
  as_int-int = elim [ pos n ↦ refl | negsuc n ↦ refl ];
}
