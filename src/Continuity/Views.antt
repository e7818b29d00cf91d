-- ===== src/Continuity/Views.antt =====
-- The data scope of a version-2 delivery, its view without content and the view of a former recipient:
-- task_continuity.py. The texts that never vary are left out.
use universal_agent_middlewa.Prelude.{ℕ, String, Option, none, some, List, [], map}
use universal_agent_middlewa.TaskControl.Model.{
  DeliveryState, Effect, AttemptState, EndHow, Observation, Cancel, Recorded, AttemptEnd,
}
use universal_agent_middlewa.Continuity.Model.{
  Stop, Attempt, LateStop, LateReceipt, DataScope, Delivery,
}
use universal_agent_middlewa.Continuity.Evidence.{attempt_stop_evidence}

-- What `derive_data_scope` reads of a ContractBinding; the baseline is kept as it is.
pub record Contract (B : Type 0) : Type 0 where
  pub workspace_id : String
  pub digest : String
  pub baseline : B
  pub authoritative_paths : List String
  pub allowed_change_paths : List String

-- `derive_data_scope`, where the canonical digests of the two lists of paths and of the baseline are given
unfoldable pub derive_data_scope :
    {B : Type 0}
    → (List String → List String → String)
    → (B → String)
    → Contract B
    → String
    → Option String
    → DataScope
derive_data_scope of_paths of_baseline c scope_ref region = record {
  scope_ref = scope_ref;
  declared_region = region;
  workspace_id = c.workspace_id;
  contract_digest = c.digest;
  paths_digest = of_paths c.authoritative_paths c.allowed_change_paths;
  baseline_digest = of_baseline c.baseline;
}

pub data RegionStatus : Type 0 where
  declared_not_verified not_declared : RegionStatus

-- `region_claim`
unfoldable pub region_status : Option String → RegionStatus
region_status none = not_declared
region_status (some region) = declared_not_verified

-- `_coarse`: the state and the moment
unfoldable pub coarse : Observation → Observation
coarse o = record {
  state = o.state;
  observed_at = o.observed_at;
  changed_names = [];
  unknown_names = [];
  limits = [];
  reason = none;
}

unfoldable pub on_some : {A B : Type 0} → (A → B) → Option A → Option B
on_some f none = none
on_some f (some a) = some (f a)

unfoldable pub withhold_end : AttemptEnd → AttemptEnd
withhold_end e = record e { note = ""; observation = on_some coarse e.observation }

unfoldable pub withhold_late : LateStop → LateStop
withhold_late s = record s { note = "" }

unfoldable pub withhold_attempt : Attempt → Attempt
withhold_attempt a = record a {
  end = on_some withhold_end a.end;
  late_stop_report = on_some withhold_late a.late_stop_report;
}

unfoldable pub withhold_cancel : Cancel → Cancel
withhold_cancel c = record c { effect_evidence = on_some coarse c.effect_evidence }

unfoldable pub withhold_result : Recorded → Recorded
withhold_result r = record r { review_blockers = [] }

-- The parts of a view that `withhold_content` changes.
pub record View : Type 0 where
  pub attempts : List Attempt
  pub cancel : Option Cancel
  pub result : Option Recorded

-- `withhold_content`
unfoldable pub withhold_content : View → View
withhold_content v = record {
  attempts = map withhold_attempt v.attempts;
  cancel = on_some withhold_cancel v.cancel;
  result = on_some withhold_result v.result;
}

unfoldable pub how_of : Option AttemptEnd → Option EndHow
how_of none = none
how_of (some e) = some e.how

pub record FormerView : Type 0 where
  pub delivery_id : String
  pub state : DeliveryState
  pub effect : Option Effect
  pub stop_evidence : Stop
  pub attempt_ref : String
  pub fence : ℕ
  pub attempt_state : AttemptState
  pub end_how : Option EndHow
  pub late_stop_report : Option LateStop
  pub late_receipt : Option LateReceipt

unfoldable pub former_with : Delivery → Attempt → Option Effect → Stop → FormerView
former_with d a effect stop = record {
  delivery_id = d.delivery_id;
  state = d.state;
  effect = effect;
  stop_evidence = stop;
  attempt_ref = a.attempt_ref;
  fence = a.fence;
  attempt_state = a.state;
  end_how = how_of a.end;
  late_stop_report = a.late_stop_report;
  late_receipt = a.late_receipt;
}

-- `former_view`
unfoldable pub former_view : Delivery → Attempt → Option Effect → Option FormerView
former_view d a effect = on_some (former_with d a effect) (attempt_stop_evidence a)
