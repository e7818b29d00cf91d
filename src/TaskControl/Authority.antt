-- ===== src/TaskControl/Authority.antt =====
-- The enforcement point of task_control.py: the verifier is asked, its answer audited, and everything
-- but an explicit and audited allow is a refusal.
use universal_agent_middlewa.Prelude.{
  ℕ, ◌&&◌, String, Bool, true, false, not, Option, none, some, [], leb, ltb, if◌then◌else◌,
}
use universal_agent_middlewa.Prelude.PyValue.{PyValue, py_bool, py_int, py_str}
use universal_agent_middlewa.TaskControl.Model.{authority_denied, not_audited, Delivery}
use universal_agent_middlewa.TaskControl.Validate.{reason_code}
use universal_agent_middlewa.TaskControl.Wire.{
  Binding, AuthorityRequest, VerifierAnswer, raises, no_decision, decision, AllowDetails,
  DoneOutcome, AuditRecord, allow_record, deny_record, done_record,
}
use universal_agent_middlewa.TaskControl.Port.{
  Env, Proc, ◌>>=◌, ◌>>◌, pure, raise, ask, append_audit,
}

-- An AuthorityRequest of version 1: the other fields keep their defaults.
unfoldable pub request_v1 :
    String → String → String → Option String → Binding → Option String → Option ℕ → AuthorityRequest
request_v1 effect principal authority_ref delivery_id binding task_ref revision = record {
  authority_ref = authority_ref;
  principal = principal;
  effect = effect;
  delivery_id = delivery_id;
  contract_id = binding.contract_id;
  contract_digest = binding.digest;
  workspace_id = binding.workspace_id;
  business_task_ref = task_ref;
  task_revision = revision;
  request_version = 1;
  endpoint_ref = none;
  owner_ref = none;
  role = none;
  initiator = none;
  requester = none;
  recipient = none;
  from_principal = none;
  to_principal = none;
  handover_seq = 0;
  attempt_ref = none;
  fence = none;
  original_executor = none;
  late_after_attempt_end = none;
  continues = [];
  data_scope = none;
  pending_evidence = [];
  binding_digest = none;
}

-- The details of the ALLOW record of a request.
unfoldable pub allow_details : AuthorityRequest → PyValue → AllowDetails
allow_details r reason = record {
  effect = r.effect;
  request_version = r.request_version;
  principal = r.principal;
  role = r.role;
  requester = r.requester;
  recipient = r.recipient;
  from_principal = r.from_principal;
  to_principal = r.to_principal;
  delivery_id = r.delivery_id;
  contract_id = r.contract_id;
  contract_digest = r.contract_digest;
  business_task_ref = r.business_task_ref;
  task_revision = r.task_revision;
  endpoint_ref = r.endpoint_ref;
  owner_ref = r.owner_ref;
  attempt_ref = r.attempt_ref;
  fence = r.fence;
  binding_digest = r.binding_digest;
  reason = reason_code reason;
}

unfoldable pub allow_entry : AuthorityRequest → PyValue → AuditRecord
unfolding allow_details
allow_entry r reason = allow_record r.workspace_id (allow_details r reason)

unfoldable pub deny_entry : AuthorityRequest → PyValue → AuditRecord
deny_entry r reason =
    deny_record r.workspace_id r.effect r.delivery_id r.contract_id r.principal (reason_code reason)

-- Whether a verifier that declares `supported` is asked a request of this version.
unfoldable pub supports : Option PyValue → ℕ → Bool
supports none version = leb version 1
supports (some (py_int n)) version = leb version n
supports (some _) version = false

-- decision.allowed is True
unfoldable pub is_allow : PyValue → Bool
is_allow (py_bool b) = b
is_allow _ = false

unfoldable pub or_raise : Bool → Proc (Unit {0})
or_raise true = pure tt
or_raise false = raise not_audited

module _ (env : Env) where
  -- `_record_denial`: the exception of a failing sink is passed on
  unfoldable pub record_denial : AuthorityRequest → PyValue → Proc (Unit {0})
  unfolding or_raise
  record_denial r reason =
      if env.audit_wired then (append_audit env (deny_entry r reason) >>= or_raise) else pure tt

  -- `_record_allow`: whether the allow is on the chain
  unfoldable pub record_allow : AuthorityRequest → PyValue → Proc Bool
  record_allow r reason =
      if env.audit_wired then append_audit env (allow_entry r reason) else pure true

  -- `_record`
  unfoldable pub record_done : String → Delivery → DoneOutcome → String → Proc (Unit {0})
  unfolding or_raise
  record_done action d outcome principal =
      if env.audit_wired
      then (append_audit env (
            done_record action d.workspace_id outcome d.delivery_id d.contract_id principal d.state)
          >>= or_raise)
      else pure tt

  -- the denial after an allow that could not be audited, whose own exception is dropped
  unfoldable pub record_unavailable : AuthorityRequest → Proc (Unit {0})
  record_unavailable r =
      if env.audit_wired
      then (append_audit env (deny_entry r (py_str "AUDIT_UNAVAILABLE")) >>= λ _. pure tt)
      else pure tt

  -- what `_verdict` does with the verifier's answer: `none` is an allow, `some` a refusal's reason and
  -- whether the verifier or the log failed
  unfoldable pub judge : AuthorityRequest → VerifierAnswer → Proc (Option (PyValue × Bool))
  unfolding record_unavailable
  judge r raises =
      record_denial r (py_str "VERIFIER_ERROR") >> pure (some (py_str "VERIFIER_ERROR", true))
  judge r no_decision =
      record_denial r (py_str "INVALID_DECISION") >> pure (some (py_str "INVALID_DECISION", false))
  judge r (decision allowed reason) =
      if is_allow allowed
      then (record_allow r reason >>= λ written.
          if written
          then pure none
          else (record_unavailable r >> pure (some (py_str "AUDIT_UNAVAILABLE", true))))
      else (record_denial r reason >> pure (some (reason, false)))

  -- `_verdict`
  unfoldable pub verdict : AuthorityRequest → Proc (Option (PyValue × Bool))
  unfolding judge
  verdict r =
      if ltb 1 r.request_version && not (supports env.verifier_version r.request_version)
      then (record_denial r (py_str "AUTHORITY_PORT_VERSION")
          >> pure (some (py_str "AUTHORITY_PORT_VERSION", false)))
      else (ask (λ n. env.verify n r) >>= judge r)

  unfoldable pub refuse_unless_none : Option (PyValue × Bool) → Proc (Unit {0})
  refuse_unless_none none = pure tt
  refuse_unless_none (some _) = raise authority_denied

  -- `_decide`: the three messages of a refusal have one code
  unfoldable pub decide : AuthorityRequest → Proc (Unit {0})
  unfolding refuse_unless_none
  decide r = verdict r >>= refuse_unless_none

  -- `_authorize`
  unfoldable pub authorize :
      String
      → String
      → String
      → Option String
      → Binding
      → Option String
      → Option ℕ
      → Proc (Unit {0})
  unfolding decide
  authorize effect principal authority_ref delivery_id binding task_ref revision =
      decide (request_v1 effect principal authority_ref delivery_id binding task_ref revision)
