-- ===== src/TaskControl/Tests.antt =====
-- Tests of the model of task_control.py on one contract, one requester, one recipient, and the
-- theorems at these inputs.
use universal_agent_middlewa.Prelude.{
  true, ◌≡◌, refl, none, some, List, [], ◌∷◌, length, ◌≤◌, decimal,
}
use universal_agent_middlewa.Prelude.Dict.{get, put}
use universal_agent_middlewa.TaskControl.Model.{Attempt, Delivery, active, not_started, cancelled}
use universal_agent_middlewa.TaskControl.Result.{ok}
use universal_agent_middlewa.TaskControl.Wire.{Review}
use universal_agent_middlewa.TaskControl.Port.{World, ◌>>=◌, save, now, observe, append_audit}
use universal_agent_middlewa.TaskControl.Requester.{DeliverArgs, authorize_and_make, cancel_locked}
use universal_agent_middlewa.TaskControl.Requester
use universal_agent_middlewa.TaskControl.Recipient.{
  claim_attempt, submit_locked, fetch_or_store, review_of,
}
use universal_agent_middlewa.TaskControl.Recipient
use universal_agent_middlewa.TaskControl.Validate
use universal_agent_middlewa.TaskControl.Authority
use universal_agent_middlewa.TaskControl.Lookup
use universal_agent_middlewa.TaskControl.Views.{view, view_at}
use universal_agent_middlewa.TaskControl.Rules.{
  find_attempt, require_open, has_expired, has_value, require_active_attempt,
}
use universal_agent_middlewa.TaskControl.Authority.{request_v1, authorize}
use universal_agent_middlewa.TaskControl.Changes.{
  attempt_ref_of, begin_attempt, cancel_intent_of, with_evidence, binds, record_result,
}
use universal_agent_middlewa.TaskControl.Proofs.Newest.{IsNewest, require_active_attempt-IsNewest}
use universal_agent_middlewa.TaskControl.Proofs.Authorized.{IsAllowed, authorize-IsAllowed}
use universal_agent_middlewa.TaskControl.Proofs.Conditions.{
  Starts, claim_attempt-Starts, Submits, submit_locked-Submits,
}
use universal_agent_middlewa.TaskControl.Proofs.Atomic.{
  IsAtomic, claim_attempt-IsAtomic, submit_locked-IsAtomic,
}
use universal_agent_middlewa.TaskControl.Proofs.Retries.{IsDelivered, deliver-IsDelivered}
use universal_agent_middlewa.TaskControl.Calls.{Call, deliver, perform, perform_all, empty_world}
use universal_agent_middlewa.TaskControl.Proofs.Spec.{IsSound, Inv}
use universal_agent_middlewa.TaskControl.Proofs.Safety.{
  perform-Inv, perform_all-Inv, empty_world-IsSound, one_delivery_per_contract, at_most_one_active,
  terminal_is_final, running,
}
use universal_agent_middlewa.TaskControl.Fixtures.{
  bound, same_as_before, test_env, test_env-OthersAreFair, order, delivery_id, attempt_ref,
  document, start, submit, stop, fresh, world_after, started,
}

started_run : get (world_after (deliver order ∷ start ∷ [])).deliveries delivery_id ≡ some started
unfolding perform_all perform Requester.deliver Requester.prepare ◌>>=◌ Validate.validate_principal
    Validate.is_principal Validate.validate_idempotency_key Validate.is_idempotency_key
    Validate.text Validate.task_binding Lookup.deliverable Lookup.read_optional get put
    Authority.authorize Authority.verdict Authority.request_v1 Authority.is_allow
    Authority.record_allow append_audit now observe save Requester.make_delivery
    Requester.create_record Lookup.claim_contract Requester.new_delivery Authority.record_done view
    Validate.validate_delivery_id Validate.is_delivery_id Lookup.load_for Recipient.start_attempt
    claim_attempt Validate.validate_lease require_open Lookup.close_expired_attempt has_expired
    Lookup.bound_contract begin_attempt
started_run = refl

-- A cancel before any attempt: the delivery is cancelled, and the workspace was looked at.
abbrev stopped : Delivery
stopped =
    record (with_evidence (cancel_intent_of fresh "alice" "no longer needed" 6) same_as_before) {
      state = cancelled;
    }

stopped_run : get (world_after (deliver order ∷ stop ∷ [])).deliveries delivery_id ≡ some stopped
unfolding perform_all perform Requester.deliver Requester.prepare ◌>>=◌ Validate.validate_principal
    Validate.is_principal Validate.validate_idempotency_key Validate.is_idempotency_key
    Validate.text Validate.task_binding Lookup.deliverable Lookup.read_optional get put
    Authority.authorize Authority.verdict Authority.request_v1 Authority.is_allow
    Authority.record_allow append_audit now observe save Requester.make_delivery
    Requester.create_record Lookup.claim_contract Requester.new_delivery Authority.record_done view
    Validate.validate_delivery_id Validate.is_delivery_id Lookup.load_for Requester.cancel has_value
    cancel_intent_of with_evidence
stopped_run = refl

world_after-IsSound : (calls : List Call) → IsSound (world_after calls)
world_after-IsSound calls =
    (perform_all-Inv test_env calls empty_world test_env-OthersAreFair empty_world-IsSound).sound

one_delivery_per_contract_example : (delivery_id ≡ delivery_id) × (started ≡ started)
one_delivery_per_contract_example =
    one_delivery_per_contract test_env (deliver order ∷ start ∷ []) delivery_id delivery_id started
      started test_env-OthersAreFair started_run started_run refl

at_most_one_active_example : length (running started.attempts) ≤ 1
at_most_one_active_example =
    at_most_one_active test_env (deliver order ∷ start ∷ []) delivery_id started
      test_env-OthersAreFair started_run

terminal_is_final_example :
    get
      (perform_all test_env (start ∷ []) (world_after (deliver order ∷ stop ∷ []))).deliveries
      delivery_id
    ≡ some stopped
terminal_is_final_example =
    terminal_is_final test_env (start ∷ []) (world_after (deliver order ∷ stop ∷ [])) delivery_id
      stopped test_env-OthersAreFair (world_after-IsSound (deliver order ∷ stop ∷ [])) stopped_run
      refl

perform-Inv_example :
    Inv
      (world_after (deliver order ∷ []))
      (perform test_env submit (world_after (deliver order ∷ [])))
perform-Inv_example =
    perform-Inv test_env submit (world_after (deliver order ∷ [])) test_env-OthersAreFair
      (world_after-IsSound (deliver order ∷ []))

-- The parts of `start_attempt` and `submit_result` under the lock.
claim_attempt_run : (claim_attempt test_env fresh "bob" 60 6 empty_world).0 ≡ ok started
unfolding claim_attempt ◌>>=◌ Lookup.bound_contract Lookup.deliverable observe Authority.authorize
    Authority.verdict Authority.request_v1 Authority.is_allow Authority.record_allow append_audit
    save begin_attempt
claim_attempt_run = refl

claim_attempt-Starts_example :
    Starts test_env fresh "bob" 60 6 started (claim_attempt test_env fresh "bob" 60 6 empty_world).1
claim_attempt-Starts_example =
    claim_attempt-Starts test_env fresh "bob" 60 6 empty_world claim_attempt_run

abbrev review : Review
review = record { state = "REVIEW_REQUIRED"; blockers = [] }

abbrev first : List Attempt → Attempt → Attempt
first [] a = a
first (a ∷ _) b = a

abbrev running_attempt : Attempt
running_attempt = record {
  attempt_ref = attempt_ref;
  fence = 1;
  state = active;
  started_at = 6;
  lease_expires_at = 60000006;
  baseline_at_start = same_as_before;
  end = none;
  result_id = none;
}

abbrev done : Delivery
done =
    record_result started running_attempt "bob" attempt_ref 1 "r-1" "digest" "REVIEW_REQUIRED" [] 9

current_run : require_active_attempt started attempt_ref 1 ≡ ok running_attempt
unfolding require_active_attempt begin_attempt find_attempt attempt_ref_of decimal
current_run = refl

submit_locked_run :
    (submit_locked test_env started "bob" attempt_ref 1 document "digest" 9 empty_world).0
    ≡ ok (done, review)
unfolding submit_locked ◌>>=◌ require_active_attempt binds Lookup.bound_contract Lookup.deliverable
    Authority.authorize Authority.verdict Authority.request_v1 Authority.is_allow
    Authority.record_allow append_audit save begin_attempt record_result get put fetch_or_store
    review_of find_attempt attempt_ref_of decimal
submit_locked_run = refl

submit_locked-Submits_example :
    Submits test_env started "bob" attempt_ref 1 document "digest" 9 done
submit_locked-Submits_example =
    submit_locked-Submits test_env started "bob" attempt_ref 1 document "digest" 9 empty_world
      submit_locked_run

require_active_attempt-IsNewest_example :
    (older : List Attempt) × IsNewest started attempt_ref 1 running_attempt older
require_active_attempt-IsNewest_example =
    require_active_attempt-IsNewest started attempt_ref 1
      ((world_after-IsSound (deliver order ∷ start ∷ [])).consistent delivery_id started
        started_run)
      current_run

authorize_run :
    (authorize test_env "deliver" "alice" "ref" none bound none none empty_world).0 ≡ ok tt
unfolding ◌>>=◌ authorize Authority.verdict Authority.request_v1 Authority.is_allow
    Authority.record_allow append_audit
authorize_run = refl

authorize-IsAllowed_example :
    IsAllowed test_env
      (request_v1 "deliver" "alice" "ref" none bound none none)
      (test_env.verify 0 (request_v1 "deliver" "alice" "ref" none bound none none))
      empty_world
      (authorize test_env "deliver" "alice" "ref" none bound none none empty_world).1
authorize-IsAllowed_example =
    authorize-IsAllowed test_env "deliver" "alice" "ref" none bound none none empty_world
      authorize_run

claim_attempt-IsAtomic_example : IsAtomic (claim_attempt test_env started "bob" 60 9)
claim_attempt-IsAtomic_example = claim_attempt-IsAtomic test_env started "bob" 60 9

submit_locked-IsAtomic_example :
    IsAtomic (submit_locked test_env fresh "bob" attempt_ref 1 document "digest" 9)
submit_locked-IsAtomic_example =
    submit_locked-IsAtomic test_env fresh "bob" attempt_ref 1 document "digest" 9

-- The answer to a retry of the call that made the delivery.
abbrev retry_answer : Requester.DeliverAnswer
retry_answer = record { delivery = view_at 7 fresh "alice" not_started; replayed = true }

abbrev retry_world : World
retry_world = (Requester.deliver test_env order (world_after (deliver order ∷ []))).1

retry_run :
    Requester.deliver test_env order (world_after (deliver order ∷ []))
    ≡ (ok retry_answer, retry_world)
unfolding perform_all perform Requester.deliver Requester.prepare ◌>>=◌ Validate.validate_principal
    Validate.is_principal Validate.validate_idempotency_key Validate.is_idempotency_key
    Validate.text Validate.task_binding Lookup.deliverable Lookup.read_optional get put
    Authority.authorize Authority.verdict Authority.request_v1 Authority.is_allow
    Authority.record_allow append_audit now observe save Requester.make_delivery
    Requester.create_record Lookup.claim_contract Requester.new_delivery Authority.record_done view
    Requester.replay
retry_run = refl

deliver-IsDelivered_example :
    IsDelivered test_env order retry_answer (world_after (deliver order ∷ [])) retry_world
deliver-IsDelivered_example =
    deliver-IsDelivered test_env order (world_after (deliver order ∷ [])) retry_run

abbrev cancel_world : World
cancel_world = (cancel_locked test_env fresh "alice" "no longer needed" 6 empty_world).1
