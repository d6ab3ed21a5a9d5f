-- ===== src/Lib.antt =====
-- The digital product passport service of src/sort4circ_dpp: the parts that decide what a passport
-- holds, who owns an identifier, what is anchored and what a verification answers.
--
-- The parts and their files:
-- - Json: the values of the service, `Json`, with its lists and dicts; `Json/Equality` is Python's
--   `==`, `Json/Shape` reads a member of one type, `Json/Laws` has the laws of get and set.
-- - Reasons: src/sort4circ_dpp/reasons.py with spec/reason-codes.json; `Error` is what may be raised.
-- - Env: what the code calls and is not of this repository: the JSON Schema validator, SHA-256, the
--   arithmetic and printing of doubles; and the tokens of the vocabulary documents.
-- - Canonical: src/sort4circ_dpp/canonical.py: canonicalise, integrity_projection, digest,
--   verify_digest.
-- - Vocab, Composition, Validation: src/sort4circ_dpp/vocab.py and validation.py; `Vocab/Fields` is the
--   table of the coded fields, `Vocab/Documents` reads the vocabulary documents.
-- - Store: src/sort4circ_dpp/store.py, PassportStore: the state in `State`, each method in a child.
--   A method gives its result, or what it raises, beside the store that it leaves. The lock makes a
--   method one step, so a run is a sequence of steps (`Store/Reachable`,
--   `Store/Runs`); `Store/Ownership` follows the owner of an identifier.
-- - Ledger: src/sort4circ_dpp/ledger: the adapter interface of base.py, and its two adapters, the
--   reference one of memory.py and the one of besu.py, whose HTTP exchange with the node is a
--   parameter.
-- - Evidence: src/sort4circ_dpp/evidence.py: the table of transitions and the worker that drains the
--   outbox of the store onto a ledger (`Traces` one visit, `Drains` a drain).
-- - Access: src/sort4circ_dpp/access.py with spec/access-matrix.json: roles and views, the projection
--   of a record onto a view (`Projection`), and the members that a patch may name.
-- - Auth: src/sort4circ_dpp/auth.py: the two identity providers.
-- - ReadIndex: src/sort4circ_dpp/index.py: the projection that sorting reads; times are multiples
--   of 2^-20 ms.
-- - Governance: src/sort4circ_dpp/governance.py, validate_environmental_selection, and
--   validate_en18223_deviation in `Deviation`.
-- - ReadZone: src/sort4circ_dpp/gateway/readzone.py: the controls before a command to the actuator;
--   the clock and the digits of Unicode are parameters.
-- - Api: src/sort4circ_dpp/api.py: the handlers as steps on the store. `Keys` is the scoped
--   idempotency key, `Writes` and `Reads` the handlers with a reply, `Pages` and `Search` the
--   pages of a search, `Integrity` the verification, `Middleware` and `Formats` the refusals and the
--   conversion of a reply. FastAPI and `unquote` are outside.
-- - Exchange: src/sort4circ_dpp/exchange.py: a passport as the tree of an XML document and back
--   (`Documents`), with `str`, `int` and `Decimal` of Python as a parameter with its laws (`Survival`).
-- - Rdf: src/sort4circ_dpp/mapping.py, json_to_rdf and rdf_to_json (`Mapping`), and to_rdf of
--   exchange.py (`Projection`); the graphs of rdflib are an interface with its laws.
-- - Tests: runs at concrete inputs.
--
-- How they interact: a write of the store validates the record (Validation), commits it and puts an
-- entry with the digest of the record (Canonical) in the outbox; the worker (Evidence) submits each
-- entry to a ledger through the interface of Ledger, which verifies a recomputed digest later. The
-- handlers (Api) check the scope of the caller (Access), who comes from a provider (Auth), look at the
-- idempotency key, call the store and answer in a view.
--
-- Bounds: numbers are natural numbers or integers without a bound, as in Python. `digits` and
-- `decimal` recurse on a fuel that is above the number they print, and each division by ten makes the
-- number smaller. A double is a fraction m / 2^k, an infinity or NaN; its arithmetic is in Env. A text
-- is a list of code points where the code looks into it.
--
-- Not modelled: what libraries do for exchange.py (the printing and the parsing of XML, the XSD
-- validation, json.dumps); the selection of public results in public_summary.py. Glue and example
-- data (config.py, cli.py, synthetic.py) and the tools around the service are left
-- out. The message of an error and its `extra` members are left
-- out of its value (the handler of an error takes them); its code and its fields are kept. Two threads are not
-- modelled below the lock.
pub mod Prelude
pub mod Reasons
pub mod Json
pub mod Env
pub mod Canonical
pub mod Vocab
pub mod Composition
pub mod Validation
pub mod Store
pub mod Ledger
pub mod Evidence
pub mod Access
pub mod Auth
pub mod ReadIndex
pub mod Governance
pub mod ReadZone
pub mod Api
pub mod Exchange
pub mod Rdf
pub mod Tests
