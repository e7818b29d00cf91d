-- ===== src/Continuity/Package.antt =====
-- The Context Package of a version-2 delivery: task_continuity.py. The texts that never vary are left out.
use universal_agent_middlewa.Prelude.{ℕ, String, Option, none, some, List, [], ◌∷◌, map, length}
use universal_agent_middlewa.TaskControl.Model.{DeliveryState, Effect, EndHow, Recorded}
use universal_agent_middlewa.Continuity.Model.{Stop, Attempt, Handover, Delivery}
use universal_agent_middlewa.Continuity.Evidence.{
  attempt_stop_evidence, Permission, new_effect_permission,
}
use universal_agent_middlewa.Continuity.Views.{on_some, how_of, RegionStatus, region_status}

pub record AttemptLine : Type 0 where
  pub attempt_ref : String
  pub fence : ℕ
  pub executor : String
  pub end_how : Option EndHow
  pub stop_evidence : Stop

unfoldable pub line_of : Attempt → Stop → AttemptLine
line_of a stop = record {
  attempt_ref = a.attempt_ref;
  fence = a.fence;
  executor = a.executor;
  end_how = how_of a.end;
  stop_evidence = stop;
}

unfoldable pub join : {A : Type 0} → Option A → Option (List A) → Option (List A)
join (some a) (some l) = some (a ∷ l)
join _ _ = none

unfoldable pub lines_of : List Attempt → Option (List AttemptLine)
lines_of [] = some []
lines_of (a ∷ attempts) = join (on_some (line_of a) (attempt_stop_evidence a)) (lines_of attempts)

-- A result by its references, and a handover without its authority and the closed attempt.
pub record Artifact : Type 0 where
  pub result_id : String
  pub submission_digest : String
  pub review_state : String

pub record HandoverLine : Type 0 where
  pub seq : ℕ
  pub role : String
  pub from_principal : String
  pub to_principal : String
  pub initiator : String
  pub at : ℕ
  pub binding_digest : String
  pub stop_at_handover : Stop

unfoldable pub artifacts_of : Option Recorded → List Artifact
artifacts_of none = []
artifacts_of (some r) =
    record {
      result_id = r.result_id;
      submission_digest = r.submission_digest;
      review_state = r.review_state;
    }
    ∷ []

unfoldable pub handover_line : Handover → HandoverLine
handover_line h = record {
  seq = h.seq;
  role = h.role;
  from_principal = h.from_principal;
  to_principal = h.to_principal;
  initiator = h.initiator;
  at = h.at;
  binding_digest = h.binding_digest;
  stop_at_handover = h.stop_at_handover;
}

-- The package without the moment at which it was made and its digest.
pub record Unsigned : Type 0 where
  pub viewer : String
  pub viewer_role : String
  pub endpoint_ref : Option String
  pub owner_ref : String
  pub business_task_ref : String
  pub task_revision : ℕ
  pub delivery_id : String
  pub payload_digest : String
  pub state : DeliveryState
  pub fence : ℕ
  pub created_at : ℕ
  pub contract_id : String
  pub contract_digest : String
  pub workspace_id : String
  pub baseline_digest : String
  pub paths_digest : String
  pub artifacts : List Artifact
  pub requester : String
  pub recipient : String
  pub origin_requester : String
  pub origin_recipient : String
  pub handovers : List HandoverLine
  pub continues : List String
  pub continuation_evidence_digest : Option String
  pub effect : Option Effect
  pub attempts_used : ℕ
  pub attempts : List AttemptLine
  pub new_effect_permission : Permission
  pub authority_ref : String
  pub scope_ref : String
  pub declared_region : Option String
  pub region_status : RegionStatus

pub record Package : Type 0 where
  pub generated_at : ℕ
  pub content : Unsigned
  pub package_digest : String

unfoldable pub unsigned_with :
    Delivery → Option Effect → String → String → List AttemptLine → Permission → Unsigned
unsigned_with d effect viewer role lines permission = record {
  viewer = viewer;
  viewer_role = role;
  endpoint_ref = d.endpoint_ref;
  owner_ref = d.owner_ref;
  business_task_ref = d.business_task_ref;
  task_revision = d.task_revision;
  delivery_id = d.delivery_id;
  payload_digest = d.payload_digest;
  state = d.state;
  fence = d.fence;
  created_at = d.created_at;
  contract_id = d.contract_id;
  contract_digest = d.contract_digest;
  workspace_id = d.workspace_id;
  baseline_digest = (d.data_scope).baseline_digest;
  paths_digest = (d.data_scope).paths_digest;
  artifacts = artifacts_of d.result;
  requester = d.requester;
  recipient = d.recipient;
  origin_requester = d.origin_requester;
  origin_recipient = d.origin_recipient;
  handovers = map handover_line d.handovers;
  continues = d.continues;
  continuation_evidence_digest = d.continuation_evidence_digest;
  effect = effect;
  attempts_used = length d.attempts;
  attempts = lines;
  new_effect_permission = permission;
  authority_ref = d.authority_ref;
  scope_ref = (d.data_scope).scope_ref;
  declared_region = (d.data_scope).declared_region;
  region_status = region_status (d.data_scope).declared_region;
}

unfoldable pub unsigned_of :
    Delivery
    → Option Effect
    → String
    → String
    → Option (List AttemptLine)
    → Option Permission
    → Option Unsigned
unsigned_of d effect viewer role (some lines) (some permission) =
    some (unsigned_with d effect viewer role lines permission)
unsigned_of d effect viewer role _ _ = none

unfoldable pub signed : (Unsigned → String) → ℕ → Unsigned → Package
signed digest at u = record { generated_at = at; content = u; package_digest = digest u }

-- `build_context_package`, where `digest` is the canonical digest; `none` is the exception of a stop rule
unfoldable pub build_context_package :
    (Unsigned → String) → Delivery → Option Effect → String → String → ℕ → Option Package
build_context_package digest d effect viewer role at =
    on_some (signed digest at)
      (unsigned_of d effect viewer role (lines_of d.attempts) (new_effect_permission d))
