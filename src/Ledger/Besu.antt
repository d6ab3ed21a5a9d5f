-- ===== src/Ledger/Besu.antt =====
-- src/sort4circ_dpp/ledger/besu.py: the adapter of a Besu node. The node is a parameter: `transport`
-- is the HTTP exchange of `_rpc`, which gives the body of the answer, or nothing where it raises.
use Prim.Native.String.{◌++◌}
use sort4circ.Prelude.{
  String, Bool, true, false, Option, none, some, List, [], ◌∷◌, Result, ok, err, Assoc, lookup,
  insert, codes, if◌then◌else◌, ◌==◌, ◌||◌,
}
use sort4circ.Reasons.{
  Error, key_error, type_error, ledger_unavailable, ledger_submit_rejected,
  ledger_timeout_after_broadcast,
}
use sort4circ.Json.{Json, Dict, null, str, obj, entry, empty, get?, is_truthy}
use sort4circ.Json.Shape.{text_at}
use sort4circ.Env.{Env}
use sort4circ.Ledger.{Receipt, Failure, ledger_error, other_error, Adapter}

pub record BesuLedger (Node : Type 0) : Type 0 where
  pub node : Node
  pub contract_address : String
  pub from_address : String
  pub network_id : String
  pub receipts : Assoc Receipt
  pub digests : Assoc String

-- `d.get(k)`, with None for a key that is absent
abbrev pub value_or_none : Option Json → Json
value_or_none none = null
value_or_none (some v) = v

-- The answer to `body["error"].get("message", …)`, and `body["result"]`.
abbrev pub body_of : Option Json → Option Json → Result Failure Json
body_of (some (obj e)) result = err (ledger_error ledger_submit_rejected false)
body_of (some _) result = err (other_error type_error)
body_of none none = err (other_error (key_error "result"))
body_of none (some v) = ok v

abbrev pub answer_of : Option Dict → Result Failure Json
answer_of none = err (ledger_error ledger_unavailable true)
answer_of (some body) = body_of (get? "error" body) (get? "result" body)

module _ {Node : Type 0} (transport : Node → String → List Json → Option Dict × Node) where
  -- `_rpc`
  unfoldable pub rpc : String → List Json → Node → Result Failure Json × Node
  rpc method params node =
      let (body, node') = transport node method params in (answer_of body, node')

  abbrev pub with_node : Node → BesuLedger Node → BesuLedger Node
  with_node n l = record l { node = n }

  -- An unknown outcome after a broadcast is not an unavailable ledger.
  abbrev pub ambiguous : Failure → Failure
  ambiguous (ledger_error ledger_unavailable retryable) =
      ledger_error ledger_timeout_after_broadcast true
  ambiguous e = e

  -- What follows the transaction, whose result is a hash, a text. The code keeps a result of another type as it is; here
  -- it is refused.
  abbrev pub sent_with :
      String
      → String
      → Result Failure Json
      → BesuLedger Node
      → Result Failure Receipt × BesuLedger Node
  sent_with id digest_word (err e) l = (err (ambiguous e), l)
  sent_with id digest_word (ok (str tx)) l =
      let receipt : Receipt = record {
        evidence_id = id;
        transaction_ref = tx;
        network_id = l.network_id;
        state = "submitted";
        confirmed_at = none;
        block_ref = none;
        raw = none;
      } in
      (
        ok receipt,
        record l {
          receipts = insert id receipt l.receipts;
          digests = insert id digest_word l.digests;
        },
      )
  sent_with id digest_word (ok _) l = (err (other_error type_error), l)

  abbrev pub send :
      Env
      → String
      → Result Error String
      → BesuLedger Node
      → Result Failure Receipt × BesuLedger Node
  send env id (err e) l = (err (other_error e), l)
  send env id (ok digest_word) l =
      let (answer, node') =
        rpc "eth_sendTransaction"
          (obj (
              entry "from" (str l.from_address) (
                entry "to" (str l.contract_address) (
                  entry "data" (str ("0x6b2b8b1a" ++ env.sha256 (codes id) ++ digest_word)) empty)))
            ∷ [])
          l.node in
      sent_with id digest_word answer (with_node node' l)

  abbrev pub submit_after :
      Env
      → String
      → Dict
      → Option Receipt
      → BesuLedger Node
      → Result Failure Receipt × BesuLedger Node
  submit_after env id envelope (some receipt) l = (ok receipt, l)
  submit_after env id envelope none l =
      if (l.contract_address == "") || (l.from_address == "")
      then (err (ledger_error ledger_unavailable false), l)
      else send env id (text_at "digestValue" envelope) l

  -- `submit`
  unfoldable pub submit :
      Env → String → Dict → BesuLedger Node → Result Failure Receipt × BesuLedger Node
  submit env id envelope l = submit_after env id envelope (lookup id l.receipts) l

  abbrev pub text_or_none : Option Json → Option String
  text_or_none (some (str t)) = some t
  text_or_none _ = none

  abbrev pub confirmation : Receipt → Dict → Receipt
  confirmation receipt result = record {
    evidence_id = receipt.evidence_id;
    transaction_ref = receipt.transaction_ref;
    network_id = receipt.network_id;
    state = "confirmed";
    confirmed_at = none;
    block_ref = text_or_none (get? "blockNumber" result);
    raw = some (entry "gasUsed" (value_or_none (get? "gasUsed" result)) empty);
  }

  abbrev pub is_text : String → Option Json → Bool
  is_text t (some (str u)) = u == t
  is_text t _ = false

  -- The answer of `eth_getTransactionReceipt`: nothing yet, a revert, or a confirmation.
  unfoldable pub read_receipt :
      String → Receipt → Json → BesuLedger Node → Result Failure (Option Receipt) × BesuLedger Node
  read_receipt id receipt (obj result) l =
      if is_truthy (obj result)
      then if is_text "0x1" (get? "status" result)
        then (
          ok (some (confirmation receipt result)),
          record l { receipts = insert id (confirmation receipt result) l.receipts },
        )
        else (err (ledger_error ledger_submit_rejected false), l)
      else (ok (some receipt), l)
  read_receipt id receipt v l =
      if is_truthy v then (err (other_error type_error), l) else (ok (some receipt), l)

  abbrev pub answered :
      String
      → Receipt
      → Result Failure Json
      → BesuLedger Node
      → Result Failure (Option Receipt) × BesuLedger Node
  answered id receipt (err e) l = (err e, l)
  answered id receipt (ok v) l = read_receipt id receipt v l

  abbrev pub status_after :
      String → Option Receipt → BesuLedger Node → Result Failure (Option Receipt) × BesuLedger Node
  status_after id none l = (ok none, l)
  status_after id (some receipt) l =
      if receipt.state == "confirmed"
      then (ok (some receipt), l)
      else (let (answer, node') =
            rpc "eth_getTransactionReceipt" (str receipt.transaction_ref ∷ []) l.node in
          answered id receipt answer (with_node node' l))

  -- `status`
  unfoldable pub status :
      String → BesuLedger Node → Result Failure (Option Receipt) × BesuLedger Node
  status id l = status_after id (lookup id l.receipts) l

  -- `anchored_digest` gives None: the submitted digest is a cache, not a reading of the contract.
  unfoldable pub besu_adapter : Env → Adapter (BesuLedger Node)
  besu_adapter env = record { submit = submit env; status = status; anchored_digest = λ id l. none }
