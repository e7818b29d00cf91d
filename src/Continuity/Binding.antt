-- ===== src/Continuity/Binding.antt =====
-- The version-2 authority binding of task_continuity.py: which transition a request asks the authority about, and
-- the digest over it. The canonical digests of contracts.py and hashlib answer from outside (`Digests`).
use universal_agent_middlewa.Prelude.{
  ℕ, String, Bool, ◌&&◌, ◌||◌, Option, none, some, List, [], ◌∷◌, length, str_eq, ◌^^◌, text_to,
}
use universal_agent_middlewa.Prelude.Sort.{sort}
use universal_agent_middlewa.TaskControl.Model.{DeliveryState, Effect}
use universal_agent_middlewa.Continuity.Validate.{text_before}
use universal_agent_middlewa.Continuity.Model.{Stop, Delivery, DataScope}
use universal_agent_middlewa.Continuity.Evidence.{delivery_stop_evidence, is_unresolved}

-- A bounded summary of another delivery.
pub record Evidence : Type 0 where
  pub scope : String
  pub delivery_id : String
  pub payload_digest : String
  pub state : DeliveryState
  pub effect : Option Effect
  pub stop_evidence : Stop
  pub attempts_used : ℕ
  pub contract_digest : String
  pub task_revision : ℕ
  pub unresolved : Bool

unfoldable pub evidence_with :
    String → Option Effect → Delivery → Option Stop → Option Bool → Option Evidence
evidence_with scope effect d (some stop) (some unsettled) = some (record {
  scope = scope;
  delivery_id = d.delivery_id;
  payload_digest = d.payload_digest;
  state = d.state;
  effect = effect;
  stop_evidence = stop;
  attempts_used = length d.attempts;
  contract_digest = d.contract_digest;
  task_revision = d.task_revision;
  unresolved = unsettled;
})
evidence_with scope effect d _ _ = none

-- `predecessor_evidence`; `none` is the exception of its two rules
unfoldable pub predecessor_evidence : String → Option Effect → Delivery → Option Evidence
predecessor_evidence scope effect d =
    evidence_with scope effect d (delivery_stop_evidence d) (is_unresolved d)

-- A version-2 AuthorityRequest.
pub record Request : Type 0 where
  pub effect : String
  pub authority_ref : String
  pub principal : String
  pub initiator : Option String
  pub role : Option String
  pub endpoint_ref : Option String
  pub owner_ref : Option String
  pub requester : Option String
  pub recipient : Option String
  pub from_principal : Option String
  pub to_principal : Option String
  pub handover_seq : ℕ
  pub delivery_id : Option String
  pub contract_id : String
  pub contract_digest : String
  pub workspace_id : String
  pub business_task_ref : Option String
  pub task_revision : Option ℕ
  pub attempt_ref : Option String
  pub fence : Option ℕ
  pub original_executor : Option String
  pub late_after_attempt_end : Option String
  pub data_scope : Option DataScope
  pub request_version : ℕ
  pub continues : List String
  pub pending_evidence : List Evidence
  pub binding_digest : Option String

-- The canonical binding: the fields of `_BINDING_FIELDS` and what `binding_of` adds.
pub record Binding : Type 0 where
  pub effect : String
  pub authority_ref : String
  pub principal : String
  pub initiator : Option String
  pub role : Option String
  pub endpoint_ref : Option String
  pub owner_ref : Option String
  pub requester : Option String
  pub recipient : Option String
  pub from_principal : Option String
  pub to_principal : Option String
  pub handover_seq : ℕ
  pub delivery_id : Option String
  pub contract_id : String
  pub contract_digest : String
  pub workspace_id : String
  pub business_task_ref : Option String
  pub task_revision : Option ℕ
  pub attempt_ref : Option String
  pub fence : Option ℕ
  pub original_executor : Option String
  pub late_after_attempt_end : Option String
  pub data_scope : Option DataScope
  pub continues : List String
  pub pending_evidence_digest : Option String
  pub binding_version : String

-- The arguments of `make_request`.
pub record Arguments : Type 0 where
  pub effect : String
  pub authority_ref : String
  pub principal : String
  pub initiator : Option String
  pub role : String
  pub endpoint_ref : Option String
  pub owner_ref : String
  pub requester : String
  pub recipient : String
  pub from_principal : Option String
  pub to_principal : Option String
  pub handover_seq : ℕ
  pub delivery_id : String
  pub contract_id : String
  pub contract_digest : String
  pub workspace_id : String
  pub business_task_ref : String
  pub task_revision : ℕ
  pub attempt_ref : Option String
  pub fence : Option ℕ
  pub original_executor : Option String
  pub late_after_attempt_end : Option String
  pub data_scope : DataScope
  pub continues : List String
  pub pending_evidence : List Evidence

-- BINDING_VERSION
abbrev pub binding_version : String
binding_version = "uam-authority-binding-v2"

-- canonical_digest of a binding and of a list of evidence
pub record Digests : Type 0 where
  pub of_binding : Binding → String
  pub of_evidence : List Evidence → String

-- key=lambda item: (item["scope"], item["delivery_id"])
unfoldable pub evidence_before : Evidence → Evidence → Bool
evidence_before a b =
    text_before a.scope b.scope
    || (str_eq a.scope b.scope && text_before a.delivery_id b.delivery_id)

module _ (digests : Digests) where
  unfoldable pub digest_if_any : List Evidence → Option String
  digest_if_any [] = none
  digest_if_any (e ∷ l) = some (digests.of_evidence (e ∷ l))

  -- `pending_evidence_digest`
  unfoldable pub pending_evidence_digest : List Evidence → Option String
  pending_evidence_digest pending = digest_if_any (sort evidence_before pending)

  -- `binding_of`
  unfoldable pub binding_of : Request → Binding
  binding_of r = record {
    effect = r.effect;
    authority_ref = r.authority_ref;
    principal = r.principal;
    initiator = r.initiator;
    role = r.role;
    endpoint_ref = r.endpoint_ref;
    owner_ref = r.owner_ref;
    requester = r.requester;
    recipient = r.recipient;
    from_principal = r.from_principal;
    to_principal = r.to_principal;
    handover_seq = r.handover_seq;
    delivery_id = r.delivery_id;
    contract_id = r.contract_id;
    contract_digest = r.contract_digest;
    workspace_id = r.workspace_id;
    business_task_ref = r.business_task_ref;
    task_revision = r.task_revision;
    attempt_ref = r.attempt_ref;
    fence = r.fence;
    original_executor = r.original_executor;
    late_after_attempt_end = r.late_after_attempt_end;
    data_scope = r.data_scope;
    continues = sort text_before r.continues;
    pending_evidence_digest = pending_evidence_digest r.pending_evidence;
    binding_version = binding_version;
  }

  -- `compute_binding_digest`
  unfoldable pub compute_binding_digest : Request → String
  compute_binding_digest r = digests.of_binding (binding_of r)

  -- the request before its digest is filled in
  unfoldable pub unsigned : Arguments → Request
  unsigned a = record {
    effect = a.effect;
    authority_ref = a.authority_ref;
    principal = a.principal;
    initiator = a.initiator;
    role = some a.role;
    endpoint_ref = a.endpoint_ref;
    owner_ref = some a.owner_ref;
    requester = some a.requester;
    recipient = some a.recipient;
    from_principal = a.from_principal;
    to_principal = a.to_principal;
    handover_seq = a.handover_seq;
    delivery_id = some a.delivery_id;
    contract_id = a.contract_id;
    contract_digest = a.contract_digest;
    workspace_id = a.workspace_id;
    business_task_ref = some a.business_task_ref;
    task_revision = some a.task_revision;
    attempt_ref = a.attempt_ref;
    fence = a.fence;
    original_executor = a.original_executor;
    late_after_attempt_end = a.late_after_attempt_end;
    data_scope = some a.data_scope;
    request_version = 2;
    continues = sort text_before a.continues;
    pending_evidence = a.pending_evidence;
    binding_digest = none;
  }

  -- `make_request`
  unfoldable pub make_request : Arguments → Request
  make_request a = record (unsigned a) {
    binding_digest = some (compute_binding_digest (unsigned a));
  }

-- the text that identifies a delivery within its namespace; \0 is the character 0
unfoldable pub separator : String
separator = "\0"

unfoldable pub or_empty : Option String → String
or_empty none = ""
or_empty (some s) = s

unfoldable pub identity_seed : Option String → String → String → String → String
identity_seed endpoint owner principal key =
    "uam-delivery-v2"
    ^^ separator
    ^^ or_empty endpoint
    ^^ separator
    ^^ owner
    ^^ separator
    ^^ principal
    ^^ separator
    ^^ key

-- `continuity_delivery_id`, where `hexdigest` is that of SHA-256
unfoldable pub continuity_delivery_id :
    (String → String) → Option String → String → String → String → String
continuity_delivery_id hexdigest endpoint owner principal key =
    "dlv-" ^^ text_to 24 (hexdigest (identity_seed endpoint owner principal key))
