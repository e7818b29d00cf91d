-- ===== src/TaskControl/Views.antt =====
-- What the two parties of a delivery are shown, and the stop evidence of version 1.
use universal_agent_middlewa.Prelude.{
  ℕ, String, Bool, true, false, Option, none, some, List, [], ◌∷◌, map, leb, ◌&&◌, if◌then◌else◌,
  str_eq,
}
use universal_agent_middlewa.TaskControl.Model.{
  DeliveryState, Effect, AttemptState, reported, AttemptEnd, Attempt, Cancel, Recorded, Event,
  Delivery, is_active_attempt, malformed_record,
}
use universal_agent_middlewa.TaskControl.Rules.{has_value, effect_of_delivery}
use universal_agent_middlewa.TaskControl.Port.{Env, Proc, ◌>>=◌, pure, raise, now}

-- `_stop_evidence`
pub data StopEvidence : Type 0 where
  not_applicable_result_recorded not_applicable_no_attempt attempt_active_not_confirmed :
      StopEvidence
  confirmed_by_receiver not_confirmed_lease_expired : StopEvidence

abbrev is_reported : Option AttemptEnd → Bool
is_reported none = false
is_reported (some e) = elim e.how [ reported ↦ true | _ ↦ false ]

stop_of_attempts : List Attempt → StopEvidence
stop_of_attempts [] = not_applicable_no_attempt
stop_of_attempts (a ∷ older) =
    if is_active_attempt a.state
    then attempt_active_not_confirmed
    else if is_reported a.end
    then confirmed_by_receiver
    else not_confirmed_lease_expired

unfoldable pub stop_evidence : Delivery → StopEvidence
unfolding stop_of_attempts has_value
stop_evidence d =
    if has_value d.result then not_applicable_result_recorded else stop_of_attempts d.attempts

pub record AttemptView : Type 0 where
  pub attempt_ref : String
  pub fence : ℕ
  pub state : AttemptState
  pub started_at : ℕ
  pub lease_expires_at : ℕ
  pub end : Option AttemptEnd
  pub result_id : Option String
  pub lease_expired : Bool

-- `_summary_view`
pub record SummaryView : Type 0 where
  pub delivery_id : String
  pub state : DeliveryState
  pub contract_id : String
  pub contract_digest : String
  pub requester : String
  pub business_task_ref : Option String
  pub task_revision : Option ℕ
  pub created_at : ℕ
  pub cancel_requested : Bool

pub record View : Type 0 where
  pub summary : SummaryView
  pub viewer_is_requester : Bool
  pub recipient : String
  pub workspace_id : String
  pub authority_ref : String
  pub fence : ℕ
  pub attempts : List AttemptView
  pub cancel : Option Cancel
  pub effect : Effect
  pub result : Option Recorded
  pub events : List Event

unfoldable pub view_attempt : ℕ → Attempt → AttemptView
view_attempt now a = record {
  attempt_ref = a.attempt_ref;
  fence = a.fence;
  state = a.state;
  started_at = a.started_at;
  lease_expires_at = a.lease_expires_at;
  end = a.end;
  result_id = a.result_id;
  lease_expired = is_active_attempt a.state && leb a.lease_expires_at now;
}

unfoldable pub summary_view : Delivery → SummaryView
unfolding has_value
summary_view d = record {
  delivery_id = d.delivery_id;
  state = d.state;
  contract_id = d.contract_id;
  contract_digest = d.contract_digest;
  requester = d.requester;
  business_task_ref = d.business_task_ref;
  task_revision = d.task_revision;
  created_at = d.created_at;
  cancel_requested = has_value d.cancel;
}

unfoldable pub view_at : ℕ → Delivery → String → Effect → View
unfolding view_attempt summary_view
view_at moment d viewer effect = record {
  summary = summary_view d;
  viewer_is_requester = str_eq viewer d.requester;
  recipient = d.recipient;
  workspace_id = d.workspace_id;
  authority_ref = d.authority_ref;
  fence = d.fence;
  attempts = map (view_attempt moment) d.attempts;
  cancel = d.cancel;
  effect = effect;
  result = d.result;
  events = d.events;
}

-- the view, or the exception of a newest attempt that has ended and has no end or no effect
unfoldable pub view_with : ℕ → Delivery → String → Option Effect → Proc View
unfolding view_at
view_with moment d viewer none = raise malformed_record
view_with moment d viewer (some effect) = pure (view_at moment d viewer effect)

-- `_view`
unfoldable pub view : Env → Delivery → String → Proc View
unfolding view_with effect_of_delivery
view env d viewer = now env >>= λ moment. view_with moment d viewer (effect_of_delivery d)
