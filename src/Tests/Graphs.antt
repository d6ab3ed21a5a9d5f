-- ===== src/Tests/Graphs.antt =====
-- A stand-in for the graphs of rdflib: the list of the triples, the last one first.
use sort4circ.Prelude.{
  ◌≡◌, refl, true, false, ◌&&◌, String, Option, none, some, List, [], ◌∷◌, if◌then◌else◌, eq_refl,
}
use sort4circ.Rdf.{Term, iri, literal, Triple, triple, same_type, term_eq, Graphs, Lawful}

unfoldable pub add : List Triple → Triple → List Triple
add graph t = t ∷ graph

unfoldable pub subjects : List Triple → Term → Term → List Term
subjects [] p o = []
subjects (t ∷ graph) p o =
    let rest = subjects graph p o in
    if term_eq t.predicate p && term_eq t.object o then t.subject ∷ rest else rest

unfoldable pub value : List Triple → Term → Term → Option Term
value [] s p = none
value (t ∷ graph) s p =
    let rest = value graph s p in
    if term_eq t.subject s && term_eq t.predicate p then some t.object else rest

abbrev pub listed : Graphs (List Triple)
listed = record { empty_graph = []; add = add; subjects = subjects; value = value }

same_type_refl : (a : Option String) → same_type a a ≡ true
same_type_refl none = refl
same_type_refl (some t) = eq_refl t

term_eq_refl : (t : Term) → term_eq t t ≡ true
unfolding term_eq
term_eq_refl (iri s) = eq_refl s
term_eq_refl (literal s a) = rw (eq_refl s, same_type_refl a) refl

subjects_other :
    (graph : List Triple) (t : Triple) (p o : Term)
    → (term_eq t.predicate p && term_eq t.object o) ≡ false
    → subjects (add graph t) p o ≡ subjects graph p o
unfolding subjects add
subjects_other graph t p o h = rw h refl

value_other :
    (graph : List Triple) (t : Triple) (s p : Term)
    → (term_eq t.subject s && term_eq t.predicate p) ≡ false
    → value (add graph t) s p ≡ value graph s p
unfolding value add
value_other graph t s p h = rw h refl

subjects_first : (s p o : Term) → subjects (add [] (triple s p o)) p o ≡ s ∷ []
unfolding subjects add
subjects_first s p o = rw (term_eq_refl p, term_eq_refl o) refl

value_empty : (s p : Term) → value [] s p ≡ none
unfolding value
value_empty s p = refl

value_first :
    (graph : List Triple) (s p o : Term)
    → value graph s p ≡ none
    → value (add graph (triple s p o)) s p ≡ some o
unfolding value add
value_first graph s p o h = rw (term_eq_refl s, term_eq_refl p) refl

pub listed-Lawful : Lawful listed
listed-Lawful = record {
  subjects_other = subjects_other;
  value_other = value_other;
  subjects_first = subjects_first;
  value_empty = value_empty;
  value_first = value_first;
}
