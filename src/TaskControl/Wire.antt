-- ===== src/TaskControl/Wire.antt =====
-- The data that task_control.py exchanges with what it is wired to: the clock's answer, contract
-- bindings, result documents, requests to the authority and its answers, audit records.
use universal_agent_middlewa.Prelude.{ℕ, String, Bool, Option, List}
use universal_agent_middlewa.Prelude.PyValue.{PyValue}
use universal_agent_middlewa.TaskControl.Model.{DeliveryState, Effect}

-- An answer of the clock: a datetime, which may have no time zone.
pub record Moment : Type 0 where
  pub aware : Bool
  pub micros : ℕ

-- ContractBinding, as far as task_control.py reads it
pub record Binding : Type 0 where
  pub contract_id : String
  pub is_contract_v2 : Bool
  pub digest : String
  pub workspace_id : String
  pub is_ready : Bool

-- A `uam-result-v2` document: the fields that bind it, and the rest as text.
pub record ResultDoc : Type 0 where
  pub result_id : String
  pub contract_id : String
  pub contract_digest : String
  pub workspace_instance : String
  pub business_task_ref : Option String
  pub task_revision : Option ℕ
  pub attempt_ref : String
  pub executor : String
  pub content : String

-- A result record of ResultV2Store.
pub record StoredResult : Type 0 where
  pub doc : ResultDoc
  pub submission_digest : String

pub record Review : Type 0 where
  pub state : String
  pub blockers : List String

-- What a delivery's payload digest covers.
pub record Payload : Type 0 where
  pub contract_id : String
  pub contract_digest : String
  pub requester : String
  pub recipient : String
  pub business_task_ref : Option String
  pub task_revision : Option ℕ
  pub authority_ref : String

pub record DataScope : Type 0 where
  pub scope_ref : String
  pub declared_region : Option String
  pub workspace_id : String
  pub contract_digest : String
  pub paths_digest : String
  pub baseline_digest : String

-- The evidence on another delivery that a version-2 request carries.
pub record Evidence : Type 0 where
  pub scope : String
  pub delivery_id : String
  pub payload_digest : String
  pub state : DeliveryState
  pub effect : Option Effect
  pub stop_evidence : String
  pub attempts_used : ℕ
  pub contract_digest : String
  pub task_revision : Option ℕ
  pub unresolved : Bool

pub record AuthorityRequest : Type 0 where
  pub authority_ref : String
  pub principal : String
  pub effect : String
  pub delivery_id : Option String
  pub contract_id : String
  pub contract_digest : String
  pub workspace_id : String
  pub business_task_ref : Option String
  pub task_revision : Option ℕ
  pub request_version : ℕ
  pub endpoint_ref : Option String
  pub owner_ref : Option String
  pub role : Option String
  pub initiator : Option String
  pub requester : Option String
  pub recipient : Option String
  pub from_principal : Option String
  pub to_principal : Option String
  pub handover_seq : ℕ
  pub attempt_ref : Option String
  pub fence : Option ℕ
  pub original_executor : Option String
  pub late_after_attempt_end : Option String
  pub continues : List String
  pub data_scope : Option DataScope
  pub pending_evidence : List Evidence
  pub binding_digest : Option String

-- What `verify` does: it raises, returns something else, or an `AuthorityDecision`.
pub data VerifierAnswer : Type 0 where
  raises : VerifierAnswer
  no_decision : VerifierAnswer
  decision : PyValue → PyValue → VerifierAnswer

-- The details of an ALLOW record.
pub record AllowDetails : Type 0 where
  pub effect : String
  pub request_version : ℕ
  pub principal : String
  pub role : Option String
  pub requester : Option String
  pub recipient : Option String
  pub from_principal : Option String
  pub to_principal : Option String
  pub delivery_id : Option String
  pub contract_id : String
  pub contract_digest : String
  pub business_task_ref : Option String
  pub task_revision : Option ℕ
  pub endpoint_ref : Option String
  pub owner_ref : Option String
  pub attempt_ref : Option String
  pub fence : Option ℕ
  pub binding_digest : Option String
  pub reason : String

pub data CancelOutcome : Type 0 where
  too_late cancel_already_recorded intent_recorded_attempt_active cancel_done : CancelOutcome

-- The `outcome` of a record that is written after an operation.
pub data DoneOutcome : Type 0 where
  pass : DoneOutcome
  cancel_answer : CancelOutcome → DoneOutcome
  review_state : String → DoneOutcome
  effect_seen : Effect → DoneOutcome

-- The records of `_record_allow`, `_record_denial` and `_record`, with the workspace's id.
pub data AuditRecord : Type 0 where
  -- action task_authority.<effect>, outcome ALLOW
  allow_record : String → AllowDetails → AuditRecord
  -- action task_control.<effect>, outcome DENY: effect, delivery, contract, principal, reason
  deny_record : String → String → Option String → String → String → String → AuditRecord
  -- action task_control.<action>: delivery, contract, principal, state
  done_record :
      String → String → DoneOutcome → String → String → String → DeliveryState → AuditRecord
