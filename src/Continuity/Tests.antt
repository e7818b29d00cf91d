-- ===== src/Continuity/Tests.antt =====
-- Runs of the rules of task_continuity.py on one delivery: an attempt whose lease ran out, and its late stop report.
use universal_agent_middlewa.Prelude.{List, ◌≡◌, refl, String, true, false, none, some, [], ◌∷◌}
use universal_agent_middlewa.Prelude.PyValue.{py_str}
use universal_agent_middlewa.Prelude.Sort.{sort, insert}
use universal_agent_middlewa.TaskControl.Model.{
  delivered, ended, lease_expired, reported, stopped, none_observed, AttemptEnd,
}
use universal_agent_middlewa.TaskControl.Validate.{
  is_delivery_id, validate_delivery_id, matching, is_principal, full_match, principal_head,
  principal_char, is_lower, is_digit,
}
use universal_agent_middlewa.Continuity.Model.{
  Attempt, Delivery, DataScope, self_reported, stop_not_confirmed,
}
use universal_agent_middlewa.Continuity.Evidence.{
  has, stop_of_how, stop_of_end, stop_of, attempt_stop_evidence, stop_of_attempts,
  is_unconfirmed_how, unconfirmed_how, unconfirmed_of, unconfirmed_end, blocker_of,
  stop_blockers_of, stop_blockers, when, is_last_active, is_nil, blockers_of, permission_with,
  new_effect_permission, is_confirmed, is_open_stop, or_newer, any_unconfirmed, effect_open,
  end_open, last_open, unresolved_of, is_unresolved,
}
use universal_agent_middlewa.Continuity.Validate.{
  is_label, given, validate_continues, delivery_ids, repeats, sorted_once,
}
use universal_agent_middlewa.Continuity.Binding.{
  Digests, Arguments, make_request, binding_of, unsigned, compute_binding_digest,
}
use universal_agent_middlewa.Continuity.Package.{build_context_package}
use universal_agent_middlewa.Continuity.Proofs.Permits.{IsPermitted, permission-IsPermitted}
use universal_agent_middlewa.Continuity.Proofs.Settled.{IsSettled, is_unresolved-IsSettled}
use universal_agent_middlewa.Continuity.Proofs.Identity.{SameIdentity, identity_seed-SameIdentity}
use universal_agent_middlewa.Continuity.Proofs.Requests.{
  SameTransition, make_request-SameTransition, AreAccepted, validate_continues-AreAccepted,
}
use universal_agent_middlewa.Continuity.Proofs.Blind.{
  without_content, build_context_package-without_content,
}

abbrev the_scope : DataScope
the_scope = record {
  scope_ref = "scope";
  declared_region = none;
  workspace_id = "ws";
  contract_digest = "cd";
  paths_digest = "pd";
  baseline_digest = "bd";
}

abbrev the_end : AttemptEnd
the_end = record {
  how = reported;
  reported_outcome = some stopped;
  note = "nothing was changed";
  effect = some none_observed;
  observation = none;
  ended_at = 20;
}

abbrev the_attempt : Attempt
the_attempt = record {
  attempt_ref = "att-1";
  fence = 1;
  executor = "worker";
  state = ended;
  end = some the_end;
  late_stop_report = none;
  late_receipt = none;
}

abbrev expired_attempt : Attempt
expired_attempt = record the_attempt { end = some (record the_end { how = lease_expired }) }

abbrev the_delivery : Delivery
the_delivery = record {
  delivery_id = "dlv-1";
  payload_digest = "p";
  endpoint_ref = none;
  owner_ref = "owner";
  contract_id = "c-1";
  contract_digest = "cd";
  workspace_id = "ws";
  requester = "lead";
  recipient = "worker";
  origin_requester = "lead";
  origin_recipient = "worker";
  business_task_ref = "task";
  task_revision = 1;
  authority_ref = "auth";
  data_scope = the_scope;
  continues = [];
  continuation_evidence_digest = none;
  handovers = [];
  created_at = 10;
  state = delivered;
  fence = 1;
  attempts = the_attempt ∷ [];
  cancel = none;
  result = none;
}

-- A lease that ran out blocks another attempt.
expired_blocks :
    new_effect_permission (record the_delivery { attempts = expired_attempt ∷ [] })
    ≡ some (record {
      record_permits_new_attempt = false;
      blockers = stop_not_confirmed lease_expired ∷ [];
      reconciliation_pending = false;
    })
unfolding new_effect_permission stop_blockers stop_blockers_of unconfirmed_end unconfirmed_of
    unconfirmed_how is_unconfirmed_how blocker_of permission_with blockers_of when is_nil
    is_last_active has
expired_blocks = refl

permission-IsPermitted_example : IsPermitted the_delivery
unfolding new_effect_permission stop_blockers stop_blockers_of unconfirmed_end unconfirmed_of
    unconfirmed_how is_unconfirmed_how blocker_of permission_with blockers_of when is_nil
    is_last_active has stop_of_attempts attempt_stop_evidence stop_of stop_of_end stop_of_how
permission-IsPermitted_example =
    permission-IsPermitted the_delivery {stop = self_reported}
      {p = record {
        record_permits_new_attempt = true;
        blockers = [];
        reconciliation_pending = false;
      }}
      refl refl refl

is_unresolved-IsSettled_example : IsSettled the_delivery
unfolding is_unresolved unresolved_of or_newer last_open end_open effect_open any_unconfirmed
    is_open_stop is_confirmed attempt_stop_evidence stop_of stop_of_end stop_of_how
is_unresolved-IsSettled_example = is_unresolved-IsSettled the_delivery refl refl

identity_seed-SameIdentity_example :
    SameIdentity (some "node-1") (some "node-1") "owner" "owner" "lead" "lead" "key" "key"
unfolding is_label is_principal full_match principal_head principal_char is_lower is_digit
identity_seed-SameIdentity_example =
    identity_seed-SameIdentity (some "node-1") (some "node-1") "owner" "owner" "lead" "lead" "key"
      "key" refl refl refl refl refl refl refl

abbrev the_digests : Digests
the_digests = record { of_binding = λ b. b.principal; of_evidence = λ l. "evidence" }

abbrev handover_of : List String → Arguments
handover_of ids = record {
  effect = "handover";
  authority_ref = "auth";
  principal = "lead";
  initiator = some "lead";
  role = "recipient";
  endpoint_ref = none;
  owner_ref = "owner";
  requester = "lead";
  recipient = "worker";
  from_principal = some "worker";
  to_principal = some "other";
  handover_seq = 1;
  delivery_id = "dlv-1";
  contract_id = "c-1";
  contract_digest = "cd";
  workspace_id = "ws";
  business_task_ref = "task";
  task_revision = 1;
  attempt_ref = none;
  fence = none;
  original_executor = none;
  late_after_attempt_end = none;
  data_scope = the_scope;
  continues = ids;
  pending_evidence = [];
}

-- The continued deliveries in two orders.
abbrev one_order : Arguments
one_order = handover_of ("dlv-2" ∷ "dlv-1" ∷ [])

abbrev other_order : Arguments
other_order = handover_of ("dlv-1" ∷ "dlv-2" ∷ [])

one_binding :
    binding_of the_digests (make_request the_digests one_order)
    ≡ binding_of the_digests (make_request the_digests other_order)
unfolding binding_of make_request unsigned sort insert
one_binding = refl

one_digest :
    (make_request the_digests one_order).binding_digest
    ≡ (make_request the_digests other_order).binding_digest
unfolding make_request compute_binding_digest binding_of unsigned
one_digest = refl

make_request-SameTransition_example : SameTransition the_digests one_order other_order
make_request-SameTransition_example =
    make_request-SameTransition the_digests one_order other_order (λ h. one_binding) one_digest

abbrev first_id : String
first_id = "dlv-000000000000000000000001"

abbrev second_id : String
second_id = "dlv-000000000000000000000002"

validate_continues-AreAccepted_example : AreAccepted (first_id ∷ second_id ∷ [])
unfolding validate_continues delivery_ids validate_delivery_id matching is_delivery_id sorted_once
    repeats sort insert
validate_continues-AreAccepted_example =
    validate_continues-AreAccepted (given (py_str second_id ∷ py_str first_id ∷ []))
      (first_id ∷ second_id ∷ []) refl

build_context_package-without_content_example :
    build_context_package
      (λ u. u.delivery_id)
      (without_content the_delivery)
      (some none_observed)
      "worker"
      "recipient"
      30
    ≡ build_context_package
        (λ u. u.delivery_id)
        the_delivery
        (some none_observed)
        "worker"
        "recipient"
        30
build_context_package-without_content_example =
    build_context_package-without_content (some none_observed) "worker" "recipient"
      (λ u. u.delivery_id) the_delivery 30
