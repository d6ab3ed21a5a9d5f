-- ===== src/Vocab/Documents.antt =====
-- `load` and `evidence_weight` of src/sort4circ_dpp/vocab.py. The published documents and `int` are given.
use sort4circ.Prelude.{
  ◌≡◌, refl, String, Bool, true, false, Option, none, some, List, [], ◌∷◌, ◌==◌, elem, Result, ok,
  err, ◌>>=◌, on_ok, ok_inj, subst, ap, sym, ◌∙◌, keep_if, eq_refl, Bool-cases, inl, inr,
}
use text.Mathlib.TextEquality.{eq_iff}
use sort4circ.Prelude.Int.{ℤ, pos}
use sort4circ.Reasons.{Error, key_error, type_error}
use sort4circ.Json.{Json, Items, Dict, null, int, arr, nil, cons, is_truthy}
use sort4circ.Json.Shape.{text_at, json_at, as_dict, get_or}

pub record Vocabulary : Type 0 where
  pub name : String
  pub version : String
  pub tokens : List String
  pub deprecated : List String
  pub replacements : List (String × Json)

abbrev published_or_raise : String → Option Dict → Result Error Dict
published_or_raise name none = err (key_error name)
published_or_raise name (some d) = ok d

-- The terms of a document, a dict each.
unfoldable pub terms_of : Items → Result Error (List Dict)
terms_of nil = ok []
terms_of (cons x xs) = do term ← as_dict x; terms ← terms_of xs; ok (term ∷ terms)

abbrev list_or_raise : Json → Result Error Items
list_or_raise (arr xs) = ok xs
list_or_raise v = err type_error

unfoldable pub tokens_of : List Dict → Result Error (List String)
tokens_of [] = ok []
tokens_of (term ∷ terms) = do
  token ← text_at "token" term
  tokens ← tokens_of terms
  ok (token ∷ tokens)

abbrev is_deprecated : Dict → Bool
is_deprecated term = is_truthy (get_or "deprecated" null term)

unfoldable pub replacements_of : List Dict → Result Error (List (String × Json))
replacements_of [] = ok []
replacements_of (term ∷ terms) = do
  token ← text_at "token" term
  replacements ← replacements_of terms
  ok ((token, get_or "replacedBy" null term) ∷ replacements)

-- `load`
unfoldable pub load : (String → Option Dict) → String → Result Error Vocabulary
load documents name = do
  document ← published_or_raise name (documents name)
  listed ← json_at "terms" document
  title ← text_at "name" document
  version ← text_at "version" document
  entries ← list_or_raise listed
  terms ← terms_of entries
  tokens ← tokens_of terms
  deprecated ← tokens_of (keep_if is_deprecated terms)
  replacements ← replacements_of terms
  ok (record {
    name = title;
    version = version;
    tokens = tokens;
    deprecated = deprecated;
    replacements = replacements;
  })

abbrev pub weight_if : Bool → Result Error ℤ → Result Error ℤ → Result Error ℤ
weight_if true weight rest = weight
weight_if false weight rest = rest

-- The loop over the terms.
unfoldable pub weight_in : (Json → Result Error ℤ) → String → Items → Result Error ℤ
weight_in int_of method nil = err (key_error method)
weight_in int_of method (cons x xs) = do
  let rest = weight_in int_of method xs
  term ← as_dict x
  token ← text_at "token" term
  weight_if (token == method) (int_of (get_or "evidenceWeight" (int (pos 0)) term)) rest

-- `evidence_weight`, with the document of the methods.
unfoldable pub evidence_weight : Dict → (Json → Result Error ℤ) → String → Result Error ℤ
evidence_weight document int_of method = do
  listed ← json_at "terms" document
  entries ← list_or_raise listed
  weight_in int_of method entries

elem_first : (k x : String) (xs : List String) → (x == k) ≡ true → elem k (x ∷ xs) ≡ true
elem_first k x xs h = rw ((eq_iff x k).0 h, eq_refl k) refl

elem_later : (k x : String) (xs : List String) → elem k xs ≡ true → elem k (x ∷ xs) ≡ true
elem_later k x xs h = elim (Bool-cases (k == x)) [ inl q ↦ rw q refl | inr q ↦ rw q h ]

weight_in-tokens_of :
    (int_of : Json → Result Error ℤ) (method : String) (weight : ℤ) (xs : Items) (terms : List Dict)
    (tokens : List String)
    → weight_in int_of method xs ≡ ok weight
    → terms_of xs ≡ ok terms
    → tokens_of terms ≡ ok tokens
    → elem method tokens ≡ true
unfolding weight_in terms_of tokens_of
weight_in-tokens_of int_of method weight nil terms tokens h t k = absurd (cc)
weight_in-tokens_of int_of method weight (cons x xs) terms tokens h t k =
    on_ok (as_dict x) _ t λ term p t₁. on_ok (terms_of xs) _ t₁ λ rest q t₂.
      on_ok (text_at "token" term) _ (ap tokens_of (ok_inj t₂) ∙ k) λ token r k₁.
        on_ok (tokens_of rest) _ k₁ λ later s k₂.
          subst (λ ts. elem method ts ≡ true) (ok_inj k₂)
            (elim (Bool-cases (token == method)) [
              | inl e ↦ elem_first method token later e
              | inr e ↦
                  let next : weight_in int_of method (cons x xs) ≡ weight_in int_of method xs =
                    rw (p, r, e) refl in
                  elem_later method token later
                    (weight_in-tokens_of int_of method weight xs rest later (sym next ∙ h) q s)
            ])

-- Only a method of the vocabulary has a weight.
evidence_weight-load :
    (documents : String → Option Dict) (document : Dict) (int_of : Json → Result Error ℤ)
    (method : String) (weight : ℤ) (vocabulary : Vocabulary)
    → documents "method" ≡ some document
    → load documents "method" ≡ ok vocabulary
    → evidence_weight document int_of method ≡ ok weight
    → elem method vocabulary.tokens ≡ true
unfolding load evidence_weight
evidence_weight-load documents document int_of method weight vocabulary d h k =
    on_ok (published_or_raise "method" (documents "method")) _ h λ same p h₁.
      on_ok (json_at "terms" same) _ h₁ λ listed q h₂.
        on_ok (text_at "name" same) _ h₂ λ title r h₃.
          on_ok (text_at "version" same) _ h₃ λ version r h₄.
            on_ok (list_or_raise listed) _ h₄ λ xs s h₅. on_ok (terms_of xs) _ h₅ λ terms t h₆.
              on_ok (tokens_of terms) _ h₆ λ tokens u h₇.
                on_ok (tokens_of (keep_if is_deprecated terms)) _ h₇ λ deprecated r h₈.
                  on_ok (replacements_of terms) _ h₈ λ replacements r h₉.
                    let same_document : document ≡ same =
                      ok_inj (sym (ap (published_or_raise "method") d) ∙ p) in
                    let found : evidence_weight same int_of method ≡ ok weight =
                      subst (λ x. evidence_weight x int_of method ≡ ok weight) same_document k in
                    let start : evidence_weight same int_of method ≡ weight_in int_of method xs =
                      rw (q, s) refl in
                    let weighed = sym start ∙ found in
                    subst (λ v. elem method v.tokens ≡ true) (ok_inj h₉)
                      (weight_in-tokens_of int_of method weight xs terms tokens weighed t u)
