-- ===== src/TaskControl/Requester.antt =====
-- The operations of a requester in task_control.py: `deliver` and `cancel`.
use universal_agent_middlewa.Prelude.{
  ℕ, String, Bool, true, false, Option, none, some, List, [], ◌∷◌, ◌^^◌, text_to, if◌then◌else◌,
  str_eq,
}
use universal_agent_middlewa.Prelude.PyValue.{PyValue, py_str}
use universal_agent_middlewa.Prelude.Dict.{put}
use universal_agent_middlewa.TaskControl.Model.{
  invalid_argument, idempotency_conflict, delivered, cancelled, was_delivered, Delivery, Attempt,
  is_result_recorded, is_attempt_active,
}
use universal_agent_middlewa.TaskControl.Validate.{
  validate_principal, validate_idempotency_key, validate_delivery_id, text, task_binding,
}
use universal_agent_middlewa.TaskControl.Rules.{event, has_value}
use universal_agent_middlewa.TaskControl.Changes.{cancel_intent_of, with_evidence}
use universal_agent_middlewa.TaskControl.Wire.{
  Binding, CancelOutcome, too_late, cancel_already_recorded, intent_recorded_attempt_active,
  cancel_done, pass, cancel_answer,
}
use universal_agent_middlewa.TaskControl.Port.{
  Env, Proc, ◌>>=◌, ◌>>◌, pure, raise, lift, modify, now, observe, save,
}
use universal_agent_middlewa.TaskControl.Authority.{authorize, record_done}
use universal_agent_middlewa.TaskControl.Lookup.{
  requester, read_optional, load_for, deliverable, claim_contract, close_expired_attempt,
}
use universal_agent_middlewa.TaskControl.Views.{View, view, StopEvidence, stop_evidence}

-- The arguments of `deliver`, as they come.
pub record DeliverArgs : Type 0 where
  pub principal : PyValue
  pub contract_id : PyValue
  pub contract_digest : PyValue
  pub recipient : PyValue
  pub authority_ref : PyValue
  pub idempotency_key : PyValue
  pub business_task_ref : PyValue
  pub task_revision : PyValue

-- The arguments after they were validated, with the contract, the payload's digest and the identifier.
pub record Order : Type 0 where
  pub principal : String
  pub recipient : String
  pub authority_ref : String
  pub contract_id : String
  pub task_ref : Option String
  pub revision : Option ℕ
  pub binding : Binding
  pub payload_digest : String
  pub delivery_id : String

pub record DeliverAnswer : Type 0 where
  pub delivery : View
  pub replayed : Bool

pub record CancelAnswer : Type 0 where
  pub outcome : CancelOutcome
  pub delivery : View
  pub intent_recorded : Bool
  pub stop : StopEvidence

-- The record of a new delivery.
unfoldable pub new_delivery : Order → ℕ → Delivery
unfolding event
new_delivery o now = record {
  delivery_id = o.delivery_id;
  payload_digest = o.payload_digest;
  contract_id = o.contract_id;
  contract_digest = o.binding.digest;
  workspace_id = o.binding.workspace_id;
  requester = o.principal;
  recipient = o.recipient;
  business_task_ref = o.task_ref;
  task_revision = o.revision;
  authority_ref = o.authority_ref;
  created_at = now;
  state = delivered;
  fence = 0;
  attempts = [];
  cancel = none;
  result = none;
  events = event now was_delivered o.principal ∷ [];
}

unfoldable pub different : String → String → Proc (Unit {0})
different recipient principal =
    if str_eq recipient principal then raise invalid_argument else pure tt

unfoldable pub contract_text : PyValue → String
contract_text (py_str s) = s
contract_text _ = ""

module _ (env : Env) where
  unfoldable pub delivery_id_of : String → String → String
  delivery_id_of principal key = "dlv-" ^^ text_to 24 (env.sha256_hex (principal ^^ "\0" ^^ key))

  -- the first part of `deliver`: everything up to the identifier of the delivery
  unfoldable pub prepare : DeliverArgs → Proc Order
  unfolding different contract_text delivery_id_of
  prepare a = do
    principal ← lift (validate_principal a.principal)
    recipient ← lift (validate_principal a.recipient)
    different recipient principal
    key ← lift (validate_idempotency_key a.idempotency_key)
    authority_ref ← lift (text a.authority_ref 300 true)
    task ← lift (task_binding a.business_task_ref a.task_revision)
    binding ← deliverable env a.contract_id a.contract_digest
    let contract_id = contract_text a.contract_id
    let payload_digest = env.payload_digest (record {
      contract_id = contract_id;
      contract_digest = binding.digest;
      requester = principal;
      recipient = recipient;
      business_task_ref = task.0;
      task_revision = task.1;
      authority_ref = authority_ref;
    })
    pure (record {
      principal = principal;
      recipient = recipient;
      authority_ref = authority_ref;
      contract_id = contract_id;
      task_ref = task.0;
      revision = task.1;
      binding = binding;
      payload_digest = payload_digest;
      delivery_id = delivery_id_of principal key;
    })

  -- `_replay`
  unfoldable pub replay : Delivery → Order → Proc DeliverAnswer
  replay d o =
      if str_eq d.payload_digest o.payload_digest
      then (view env d o.principal >>= λ v. pure (record { delivery = v; replayed = true }))
      else raise idempotency_conflict

  -- the write of the new record, `statefile.write_new`
  unfoldable pub write_delivery : Delivery → Proc (Unit {0})
  write_delivery d = modify (λ w. record w { deliveries = put w.deliveries d.delivery_id d })

  -- the claim of the contract and the new record
  unfoldable pub create_record : Order → Proc Delivery
  unfolding write_delivery
  create_record o = do
    claim_contract o.contract_id o.delivery_id
    moment ← now env
    let d = new_delivery o moment
    write_delivery d
    pure d

  -- the part of `deliver` that makes a new record, and what follows the lock
  unfoldable pub make_delivery : Order → Proc DeliverAnswer
  make_delivery o = do
    d ← create_record o
    record_done env "deliver" d pass o.principal
    v ← view env d o.principal
    pure (record { delivery = v; replayed = false })

  unfoldable pub replay_or_make : Order → Option Delivery → Proc DeliverAnswer
  replay_or_make o (some d) = replay d o
  replay_or_make o none = make_delivery o

  -- the part of `deliver` behind the first look for the delivery
  unfoldable pub authorize_and_make : Order → Option Delivery → Proc DeliverAnswer
  unfolding replay_or_make
  authorize_and_make o (some d) = replay d o
  authorize_and_make o none = do
    authorize env "deliver" o.principal o.authority_ref (some o.delivery_id) o.binding o.task_ref
        o.revision
    modify (λ w. env.others w.questions w)
    existing ← read_optional o.delivery_id
    replay_or_make o existing

  -- `deliver`
  unfoldable pub deliver : DeliverArgs → Proc DeliverAnswer
  unfolding authorize_and_make
  deliver a = do
    o ← prepare a
    existing ← read_optional o.delivery_id
    authorize_and_make o existing

  unfoldable pub observe_if_never_started : Delivery → List Attempt → Proc Delivery
  observe_if_never_started d [] = observe env d >>= λ o. pure (with_evidence d o)
  observe_if_never_started d (a ∷ older) = pure d

  -- the end of a cancel that finds no active attempt
  unfoldable pub settle_cancel : Delivery → Proc (Delivery × CancelOutcome)
  unfolding observe_if_never_started
  settle_cancel d =
      if is_attempt_active d.state
      then (save env d >> pure (d, intent_recorded_attempt_active))
      else do
        seen ← observe_if_never_started d d.attempts
        let closed = record seen { state = cancelled }
        save env closed
        pure (closed, cancel_done)

  -- what `cancel` does to the delivery under the lock
  unfoldable pub cancel_locked : Delivery → String → String → ℕ → Proc (Delivery × CancelOutcome)
  unfolding settle_cancel
  cancel_locked d principal reason moment =
      if is_result_recorded d.state
      then pure (d, too_late)
      else if has_value d.cancel
      then (do
        p ← close_expired_attempt env d moment
        if p.1 then save env p.0 else pure tt
        pure (p.0, cancel_already_recorded))
      else do
        let intended = cancel_intent_of d principal reason moment
        p ←
            if is_attempt_active d.state
            then close_expired_attempt env intended moment
            else pure (intended, false)
        settle_cancel p.0

  -- `cancel`
  unfoldable pub cancel : PyValue → PyValue → PyValue → Proc CancelAnswer
  unfolding cancel_locked
  cancel principal delivery_id reason = do
    who ← lift (validate_principal principal)
    id ← lift (validate_delivery_id delivery_id)
    why ← lift (text reason 500 false)
    d ← load_for who id requester
    moment ← now env
    p ← cancel_locked d who why moment
    record_done env "cancel" p.0 (cancel_answer p.1) who
    v ← view env p.0 who
    pure (record {
      outcome = p.1;
      delivery = v;
      intent_recorded = has_value (p.0).cancel;
      stop = stop_evidence p.0;
    })
