-- ===== src/Continuity/Model.antt =====
-- The version-2 delivery of task_continuity.py and task_continuity_control.py, and what the rules over it answer.
-- The attempts and handovers are kept newest first: `attempts[-1]` is the head. A moment is a number of microseconds.
use universal_agent_middlewa.Prelude.{ℕ, String, Option, List}
use universal_agent_middlewa.TaskControl.Model.{
  DeliveryState, AttemptState, Outcome, EndHow, Cancel, Recorded, AttemptEnd,
}

-- STOP_ACTIVE, ..., STOP_NOT_APPLICABLE_NO_ATTEMPT
pub data Stop : Type 0 where
  active_not_confirmed self_reported self_reported_late : Stop
  not_confirmed_lease_expired not_confirmed_handed_over : Stop
  result_is_recorded no_attempt : Stop

-- attempt["late_stop_report"]
pub record LateStop : Type 0 where
  pub outcome : Outcome
  pub reported_at : ℕ
  pub note : String

-- attempt["late_receipt"]
pub record LateReceipt : Type 0 where
  pub ingested_at : ℕ
  pub after_end_how : EndHow
  pub checks : List String

pub record Attempt : Type 0 where
  pub attempt_ref : String
  pub fence : ℕ
  pub executor : String
  pub state : AttemptState
  pub end : Option AttemptEnd
  pub late_stop_report : Option LateStop
  pub late_receipt : Option LateReceipt

pub record DataScope : Type 0 where
  pub scope_ref : String
  pub declared_region : Option String
  pub workspace_id : String
  pub contract_digest : String
  pub paths_digest : String
  pub baseline_digest : String

pub record Handover : Type 0 where
  pub seq : ℕ
  pub role : String
  pub from_principal : String
  pub to_principal : String
  pub initiator : String
  pub at : ℕ
  pub authority_ref : String
  pub binding_digest : String
  pub closed_attempt_ref : Option String
  pub stop_at_handover : Stop

pub record Delivery : Type 0 where
  pub delivery_id : String
  pub payload_digest : String
  pub endpoint_ref : Option String
  pub owner_ref : String
  pub contract_id : String
  pub contract_digest : String
  pub workspace_id : String
  pub requester : String
  pub recipient : String
  pub origin_requester : String
  pub origin_recipient : String
  pub business_task_ref : String
  pub task_revision : ℕ
  pub authority_ref : String
  pub data_scope : DataScope
  pub continues : List String
  pub continuation_evidence_digest : Option String
  pub handovers : List Handover
  pub created_at : ℕ
  pub state : DeliveryState
  pub fence : ℕ
  pub attempts : List Attempt
  pub cancel : Option Cancel
  pub result : Option Recorded

-- The blockers of `new_effect_permission`.
pub data Blocker : Type 0 where
  blocked_by_result blocked_by_cancel blocked_by_active : Blocker
  stop_not_confirmed : EndHow → Blocker
  blocked_by_limit : Blocker
