-- ===== src/TaskControl/Model.antt =====
-- The data of task_control.py: the constants of its planes, attempts, deliveries and the refusal
-- codes. A moment is the number of microseconds since the epoch in UTC: `_iso` writes it and
-- `datetime.fromisoformat` reads it back. The lists `attempts` and `events` only ever grow at their
-- end and are kept newest first: `attempts[-1]` is the head.
use universal_agent_middlewa.Prelude.{ℕ, String, Bool, true, false, Option, List}

-- STATE_DELIVERED, ..., STATE_CANCELLED
pub data DeliveryState : Type 0 where
  delivered attempt_active reconciliation_required result_recorded cancelled : DeliveryState

-- EFFECT_NOT_STARTED, ..., EFFECT_RECORDED
pub data Effect : Type 0 where
  not_started none_observed partial unknown recorded : Effect

-- ATTEMPT_ACTIVE, ATTEMPT_ENDED, ATTEMPT_RESULT
pub data AttemptState : Type 0 where
  active ended with_result : AttemptState

-- REPORTED_OUTCOMES
pub data Outcome : Type 0 where
  failed_before_effect stopped failed : Outcome

-- The `how` of an attempt's end.
pub data EndHow : Type 0 where
  lease_expired handed_over reported by_result : EndHow

-- BASELINE_UNCHANGED, BASELINE_CHANGED, READBACK_UNOBSERVABLE
pub data BaselineState : Type 0 where
  unchanged changed unobservable : BaselineState

-- The `code` of a `TaskControlError`. The last three are other exceptions: that of an audit sink whose
-- `append` raises, a ContractError that is passed on, a record that lacks what the code reads.
pub data Code : Type 0 where
  invalid_argument internal not_found wrong_role contract_missing contract_not_deliverable : Code
  contract_mismatch contract_not_ready authority_denied contract_already_delivered : Code
  idempotency_conflict result_already_recorded cancelled_delivery fence_mismatch : Code
  attempt_not_active already_active attempt_limit baseline_changed baseline_unobservable : Code
  result_invalid result_id_conflict result_binding_mismatch : Code
  not_audited contract_error malformed_record : Code

-- What `ResultV2Store.observe_baseline` answers, and the bounded summary kept as evidence.
pub record Observation : Type 0 where
  pub state : BaselineState
  pub observed_at : Option ℕ
  pub changed_names : List String
  pub unknown_names : List String
  pub limits : List String
  pub reason : Option String

-- attempt["end"]: `effect` and `observation` are absent after a result.
pub record AttemptEnd : Type 0 where
  pub how : EndHow
  pub reported_outcome : Option Outcome
  pub note : String
  pub effect : Option Effect
  pub observation : Option Observation
  pub ended_at : ℕ

pub record Attempt : Type 0 where
  pub attempt_ref : String
  pub fence : ℕ
  pub state : AttemptState
  pub started_at : ℕ
  pub lease_expires_at : ℕ
  pub baseline_at_start : Observation
  pub end : Option AttemptEnd
  pub result_id : Option String

pub record Cancel : Type 0 where
  pub requested_by : String
  pub requested_at : ℕ
  pub reason : String
  pub effect_evidence : Option Observation

pub record Recorded : Type 0 where
  pub result_id : String
  pub attempt_ref : String
  pub fence : ℕ
  pub submitted_by : String
  pub recorded_at : ℕ
  pub submission_digest : String
  pub review_state : String
  pub review_blockers : List String
  pub after_cancel_request : Bool

pub data EventType : Type 0 where
  was_delivered cancel_intent reconciled_no_effect attempt_started attempt_ended : EventType
  recorded_result : EventType

-- An event's keyword details: the attempt and, where it has one, its fence; how it ended, what the
-- executor reported and the effect; the result, its review and whether a cancel came first.
pub record Event : Type 0 where
  pub at : ℕ
  pub kind : EventType
  pub principal : String
  pub attempt_ref : Option String
  pub fence : Option ℕ
  pub how : Option EndHow
  pub reported_outcome : Option Outcome
  pub effect : Option Effect
  pub result_id : Option String
  pub review : Option String
  pub after_cancel_request : Option Bool

pub record Delivery : Type 0 where
  pub delivery_id : String
  pub payload_digest : String
  pub contract_id : String
  pub contract_digest : String
  pub workspace_id : String
  pub requester : String
  pub recipient : String
  pub business_task_ref : Option String
  pub task_revision : Option ℕ
  pub authority_ref : String
  pub created_at : ℕ
  pub state : DeliveryState
  pub fence : ℕ
  pub attempts : List Attempt
  pub cancel : Option Cancel
  pub result : Option Recorded
  pub events : List Event

-- The tests on these constants.
abbrev pub is_active_attempt : AttemptState → Bool
is_active_attempt active = true
is_active_attempt _ = false

abbrev pub is_attempt_active : DeliveryState → Bool
is_attempt_active attempt_active = true
is_attempt_active _ = false

abbrev pub is_result_recorded : DeliveryState → Bool
is_result_recorded result_recorded = true
is_result_recorded _ = false

abbrev pub is_cancelled : DeliveryState → Bool
is_cancelled cancelled = true
is_cancelled _ = false

abbrev pub is_reconciliation_required : DeliveryState → Bool
is_reconciliation_required reconciliation_required = true
is_reconciliation_required _ = false

-- state in TERMINAL_STATES
abbrev pub is_terminal : DeliveryState → Bool
is_terminal result_recorded = true
is_terminal cancelled = true
is_terminal _ = false

abbrev pub max_attempts : ℕ
max_attempts = 20

abbrev pub max_inbox : ℕ
max_inbox = 50

abbrev pub max_scan : ℕ
max_scan = 2000

abbrev pub min_lease_seconds : ℕ
min_lease_seconds = 10

abbrev pub max_lease_seconds : ℕ
max_lease_seconds = 3600
