-- ===== src/Rdf.antt =====
-- The RDF graphs of src/sort4circ_dpp/mapping.py and exchange.py: terms and triples, with the graphs of rdflib
-- as a parameter.
use sort4circ.Prelude.{
  ◌≡◌, String, Bool, true, false, ◌&&◌, Option, none, some, List, [], ◌∷◌, ◌++◌, ◌==◌,
  if◌then◌else◌,
}
pub mod Mapping
pub mod Plain
pub mod Reversal
pub mod Projection
pub mod Core
pub mod Single

-- A `URIRef`, or a `Literal` with its lexical form and its datatype.
pub data Term : Type 0 where
  iri : String → Term
  literal : String → Option String → Term

pub record Triple : Type 0 where
  pub subject : Term
  pub predicate : Term
  pub object : Term

abbrev pub same_type : Option String → Option String → Bool
same_type none none = true
same_type (some s) (some t) = s == t
same_type _ _ = false

unfoldable pub term_eq : Term → Term → Bool
term_eq (iri s) (iri t) = s == t
term_eq (literal s a) (literal t b) = (s == t) && same_type a b
term_eq _ _ = false

-- The graphs of rdflib, `G`: `Graph()`, `add`, `subjects(predicate, object)` and `value(subject, predicate)`.
pub record Graphs (G : Type 0) : Type 0 where
  pub empty_graph : G
  pub add : G → Triple → G
  pub subjects : G → Term → Term → List Term
  pub value : G → Term → Term → Option Term

-- The additions of a function, in order.
unfoldable pub add_all : {G : Type 0} → Graphs G → G → List Triple → G
add_all graphs graph [] = graph
add_all graphs graph (t ∷ ts) = add_all graphs (graphs.add graph t) ts

abbrev pub triple : Term → Term → Term → Triple
triple subject predicate object = record {
  subject = subject;
  predicate = predicate;
  object = object;
}

-- A name of the vocabulary's namespace.
abbrev pub s4c : String → Term
s4c name = iri (Prim.Native.String.◌++◌ "https://data.sort4circ.eu/vocabulary/" name)

abbrev pub rdf_type : Term
rdf_type = iri "http://www.w3.org/1999/02/22-rdf-syntax-ns#type"

abbrev pub rdf_value : Term
rdf_value = iri "http://www.w3.org/1999/02/22-rdf-syntax-ns#value"

abbrev pub rdf_json : String
rdf_json = "http://www.w3.org/1999/02/22-rdf-syntax-ns#JSON"

abbrev pub xsd_integer : String
xsd_integer = "http://www.w3.org/2001/XMLSchema#integer"

abbrev pub xsd_decimal : String
xsd_decimal = "http://www.w3.org/2001/XMLSchema#decimal"

abbrev pub xsd_string : String
xsd_string = "http://www.w3.org/2001/XMLSchema#string"

abbrev pub xsd_date_time : String
xsd_date_time = "http://www.w3.org/2001/XMLSchema#dateTime"

-- What rdflib documents of them: a triple with another predicate or object does not change `subjects`, a triple
-- with another subject or predicate does not change `value`, and both find what was added to nothing.
pub record Lawful {G : Type 0} (graphs : Graphs G) : Type 0 where
  pub subjects_other :
      (graph : G) (t : Triple) (p o : Term)
      → (term_eq t.predicate p && term_eq t.object o) ≡ false
      → graphs.subjects (graphs.add graph t) p o ≡ graphs.subjects graph p o
  pub value_other :
      (graph : G) (t : Triple) (s p : Term)
      → (term_eq t.subject s && term_eq t.predicate p) ≡ false
      → graphs.value (graphs.add graph t) s p ≡ graphs.value graph s p
  pub subjects_first :
      (s p o : Term) → graphs.subjects (graphs.add graphs.empty_graph (triple s p o)) p o ≡ s ∷ []
  pub value_empty : (s p : Term) → graphs.value graphs.empty_graph s p ≡ none
  pub value_first :
      (graph : G) (s p o : Term)
      → graphs.value graph s p ≡ none
      → graphs.value (graphs.add graph (triple s p o)) s p ≡ some o
