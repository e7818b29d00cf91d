-- ===== src/TaskControl/Fixtures.antt =====
-- One contract, one requester and one recipient, for the tests of the model of task_control.py.
use universal_agent_middlewa.Prelude.{String, true, none, some, List, [], ◌∷◌}
use universal_agent_middlewa.Prelude.PyValue.{py_none, py_bool, py_int, py_str}
use universal_agent_middlewa.TaskControl.Model.{
  Observation, unchanged, Delivery, delivered, was_delivered,
}
use universal_agent_middlewa.TaskControl.Wire.{Binding, ResultDoc, decision}
use universal_agent_middlewa.TaskControl.Port.{World, Env}
use universal_agent_middlewa.TaskControl.Requester.{DeliverArgs}
use universal_agent_middlewa.TaskControl.Rules.{event}
use universal_agent_middlewa.TaskControl.Changes.{begin_attempt}
use universal_agent_middlewa.TaskControl.Calls.{
  Call, cancel, start_attempt, submit_result, perform_all, empty_world,
}
use universal_agent_middlewa.TaskControl.Proofs.Spec.{Grows-refl}
use universal_agent_middlewa.TaskControl.Proofs.Writes.{OthersAreFair}

abbrev pub hash : String
hash = "0123456789abcdef01234567"

abbrev pub bound : Binding
bound = record {
  contract_id = "c-1";
  is_contract_v2 = true;
  digest = "d-1";
  workspace_id = "ws-1";
  is_ready = true;
}

abbrev pub same_as_before : Observation
same_as_before = record {
  state = unchanged;
  observed_at = some 7;
  changed_names = [];
  unknown_names = [];
  limits = [];
  reason = none;
}

abbrev pub test_env : Env
test_env = record {
  clock = λ n. record { aware = true; micros = n };
  contract_binding = λ n c. some bound;
  observe_baseline = λ n c. some same_as_before;
  verify = λ n r. decision (py_bool true) (py_str "GRANTED");
  verifier_version = none;
  audit_wired = true;
  audit_appends = λ n r. true;
  submission_digest = λ r. some r.content;
  admits = λ n r. true;
  review = λ n s. record { state = "REVIEW_REQUIRED"; blockers = [] };
  contract_record = λ n c. none;
  payload_digest = λ p. p.recipient;
  sha256_hex = λ s. hash;
  others = λ n w. w;
}

pub test_env-OthersAreFair : OthersAreFair test_env
test_env-OthersAreFair = record { sound = λ n w s. s; grown = λ n w s. Grows-refl w }

abbrev pub order : DeliverArgs
order = record {
  principal = py_str "alice";
  contract_id = py_str "c-1";
  contract_digest = py_str "d-1";
  recipient = py_str "bob";
  authority_ref = py_str "ref";
  idempotency_key = py_str "key-0001";
  business_task_ref = py_none;
  task_revision = py_none;
}

abbrev pub delivery_id : String
delivery_id = "dlv-0123456789abcdef01234567"

abbrev pub attempt_ref : String
attempt_ref = "att-0123456789abcdef01234567.1"

abbrev pub document : ResultDoc
document = record {
  result_id = "r-1";
  contract_id = "c-1";
  contract_digest = "d-1";
  workspace_instance = "ws-1";
  business_task_ref = none;
  task_revision = none;
  attempt_ref = attempt_ref;
  executor = "bob";
  content = "digest";
}

abbrev pub start : Call
start = start_attempt (py_str "bob") (py_str delivery_id) (py_int 60)

abbrev pub submit : Call
submit =
    submit_result (py_str "bob") (py_str delivery_id) (py_str attempt_ref) (py_int 1)
      (some document)

abbrev pub stop : Call
stop = cancel (py_str "alice") (py_str delivery_id) (py_str "no longer needed")

abbrev pub fresh : Delivery
fresh = record {
  delivery_id = delivery_id;
  payload_digest = "bob";
  contract_id = "c-1";
  contract_digest = "d-1";
  workspace_id = "ws-1";
  requester = "alice";
  recipient = "bob";
  business_task_ref = none;
  task_revision = none;
  authority_ref = "ref";
  created_at = 3;
  state = delivered;
  fence = 0;
  attempts = [];
  cancel = none;
  result = none;
  events = event 3 was_delivered "alice" ∷ [];
}

abbrev pub world_after : List Call → World
world_after calls = perform_all test_env calls empty_world

-- A started attempt, as the recipient gets it.
abbrev pub started : Delivery
started = begin_attempt fresh "bob" 60 6 same_as_before
