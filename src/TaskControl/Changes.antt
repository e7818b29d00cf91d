-- ===== src/TaskControl/Changes.antt =====
-- What the operations of task_control.py change in a delivery record: a cancel intent, a new attempt,
-- a recorded result; and when a result belongs to an attempt.
use universal_agent_middlewa.Prelude.{
  ℕ, ◌+◌, ◌*◌, String, Bool, true, false, ◌&&◌, Option, none, some, ◌^^◌, text_from, decimal, List,
  ◌∷◌, ◌==◌, if◌then◌else◌, str_eq,
}
use universal_agent_middlewa.TaskControl.Model.{
  active, with_result, attempt_active, result_recorded, by_result, cancel_intent,
  reconciled_no_effect, attempt_started, recorded_result, Observation, Attempt, Event, Delivery,
  is_reconciliation_required,
}
use universal_agent_middlewa.TaskControl.Rules.{summary, event, has_value, write_attempt}
use universal_agent_middlewa.TaskControl.Wire.{ResultDoc}

-- `_require_result_binding`: every field of the result that binds it is this delivery's.
opt_str_eq : Option String → Option String → Bool
opt_str_eq none none = true
opt_str_eq (some a) (some b) = str_eq a b
opt_str_eq _ _ = false

opt_nat_eq : Option ℕ → Option ℕ → Bool
opt_nat_eq none none = true
opt_nat_eq (some a) (some b) = a == b
opt_nat_eq _ _ = false

unfoldable pub binds : Delivery → Attempt → String → ResultDoc → Bool
unfolding opt_str_eq opt_nat_eq
binds d a principal r =
    str_eq r.contract_id d.contract_id
    && str_eq r.contract_digest d.contract_digest
    && str_eq r.workspace_instance d.workspace_id
    && opt_str_eq r.business_task_ref d.business_task_ref
    && opt_nat_eq r.task_revision d.task_revision
    && str_eq r.attempt_ref a.attempt_ref
    && str_eq r.executor principal

-- The record of a cancel intent.
unfoldable pub cancel_intent_of : Delivery → String → String → ℕ → Delivery
unfolding event
cancel_intent_of d principal reason now = record d {
  cancel = some (record {
    requested_by = principal;
    requested_at = now;
    reason = reason;
    effect_evidence = none;
  });
  events = event now cancel_intent principal ∷ d.events;
}

-- delivery["cancel"]["effect_evidence"] = ...
unfoldable pub with_evidence : Delivery → Observation → Delivery
unfolding summary
with_evidence d o = record d {
  cancel = elim d.cancel [
    | none ↦ none
    | some c ↦ some (record c { effect_evidence = some (summary o) })
  ];
}

-- f"att-{delivery_id[4:]}.{fence}"
unfoldable pub attempt_ref_of : String → ℕ → String
attempt_ref_of delivery_id fence = "att-" ^^ text_from 4 delivery_id ^^ "." ^^ decimal fence

-- The record of a new attempt, after the conditions of `start_attempt` held.
unfoldable pub begin_attempt : Delivery → String → ℕ → ℕ → Observation → Delivery
unfolding event summary
begin_attempt d principal lease now o =
    let fence : ℕ = d.fence + 1 in
    let ref : String = attempt_ref_of d.delivery_id fence in
    let started : Event = record (event now attempt_started principal) {
      attempt_ref = some ref;
      fence = some fence;
    } in
    record d {
      attempts =
          record {
            attempt_ref = ref;
            fence = fence;
            state = active;
            started_at = now;
            lease_expires_at = now + lease * 1000000;
            baseline_at_start = summary o;
            end = none;
            result_id = none;
          }
          ∷ d.attempts;
      fence = fence;
      state = attempt_active;
      events =
          started
          ∷ (if is_reconciliation_required d.state
              then event now reconciled_no_effect principal ∷ d.events
              else d.events);
    }

-- The record of a result for the active attempt `a`, which is `attempt_ref` with this fence.
unfoldable pub record_result :
    Delivery → Attempt → String → String → ℕ → String → String → String → List String → ℕ → Delivery
unfolding event has_value
record_result d a principal ref fence result_id digest review_name blockers now =
    let after_cancel : Bool = has_value d.cancel in
    let finished : Attempt = record a {
      state = with_result;
      result_id = some result_id;
      end = some (record {
        how = by_result;
        reported_outcome = none;
        note = "";
        effect = none;
        observation = none;
        ended_at = now;
      });
    } in
    let kept : Event = record (event now recorded_result principal) {
      result_id = some result_id;
      review = some review_name;
      after_cancel_request = some after_cancel;
    } in
    record d {
      attempts = write_attempt ref finished d.attempts;
      state = result_recorded;
      result = some (record {
        result_id = result_id;
        attempt_ref = ref;
        fence = fence;
        submitted_by = principal;
        recorded_at = now;
        submission_digest = digest;
        review_state = review_name;
        review_blockers = blockers;
        after_cancel_request = after_cancel;
      });
      events = kept ∷ d.events;
    }
