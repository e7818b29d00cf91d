-- ===== src/TaskControl/Lookup.antt =====
-- How task_control.py finds what an operation is about: the delivery of a party, the deliverable
-- contract, a stored result, the claim on a contract.
use universal_agent_middlewa.Prelude.{
  ℕ, String, Bool, true, false, not, ◌||◌, Option, none, some, if◌then◌else◌, str_eq,
}
use universal_agent_middlewa.Prelude.PyValue.{PyValue, py_str}
use universal_agent_middlewa.Prelude.Dict.{get, put}
use universal_agent_middlewa.TaskControl.Model.{
  invalid_argument, not_found, wrong_role, contract_missing, contract_not_deliverable,
  contract_mismatch, contract_not_ready, contract_already_delivered, Delivery,
}
use universal_agent_middlewa.TaskControl.Result.{Result, ok, err}
use universal_agent_middlewa.TaskControl.Wire.{Binding}
use universal_agent_middlewa.TaskControl.Port.{
  Env, Proc, ◌>>=◌, pure, raise, lift, ask, modify, observe,
}
use universal_agent_middlewa.TaskControl.Rules.{has_expired, close_newest}

pub data Role : Type 0 where
  requester recipient participant : Role

-- the checks of `_load_for` on the record that was read
unfoldable pub party_of : String → Role → Delivery → Result Delivery
party_of principal requester d =
    if str_eq principal d.requester
    then ok d
    else if str_eq principal d.recipient
    then err wrong_role
    else err not_found
party_of principal recipient d =
    if str_eq principal d.recipient
    then ok d
    else if str_eq principal d.requester
    then err wrong_role
    else err not_found
party_of principal participant d =
    if str_eq principal d.requester || str_eq principal d.recipient then ok d else err not_found

unfoldable pub found_for : String → Role → Option Delivery → Result Delivery
unfolding party_of
found_for principal role none = err not_found
found_for principal role (some d) = party_of principal role d

-- the checks of `_deliverable` on the binding that was read
unfoldable pub deliverable_of : String → Option Binding → Result Binding
deliverable_of digest none = err contract_missing
deliverable_of digest (some b) =
    if not b.is_contract_v2
    then err contract_not_deliverable
    else if not (str_eq b.digest digest)
    then err contract_mismatch
    else if b.is_ready
    then ok b
    else err contract_not_ready

-- `_read_optional`
unfoldable pub read_optional : String → Proc (Option Delivery)
read_optional delivery_id w = (ok (get w.deliveries delivery_id), w)

-- `_load_for`
unfoldable pub load_for : String → String → Role → Proc Delivery
unfolding found_for
load_for principal delivery_id role w = (found_for principal role (get w.deliveries delivery_id), w)

-- the write of `_claim_contract`: the first claim wins, a repeat of the same delivery is accepted
unfoldable pub claim : String → String → Option String → Proc (Unit {0})
claim contract_id delivery_id none =
    modify (λ w. record w { by_contract = put w.by_contract contract_id delivery_id })
claim contract_id delivery_id (some holder) =
    if str_eq holder delivery_id then pure tt else raise contract_already_delivered

-- `_claim_contract`
unfoldable pub claim_contract : String → String → Proc (Unit {0})
unfolding claim
claim_contract contract_id delivery_id w =
    claim contract_id delivery_id (get w.by_contract contract_id) w

module _ (env : Env) where
  -- `_deliverable`
  unfoldable pub deliverable : PyValue → PyValue → Proc Binding
  unfolding deliverable_of
  deliverable (py_str contract_id) (py_str digest) =
      ask (λ n. env.contract_binding n contract_id) >>= λ b. lift (deliverable_of digest b)
  deliverable _ _ = raise invalid_argument

  -- `_bound_contract`
  unfoldable pub bound_contract : Delivery → Proc Binding
  unfolding deliverable
  bound_contract d = deliverable (py_str d.contract_id) (py_str d.contract_digest)

  -- `_close_expired_attempt`: the delivery, and whether its attempt was closed. The workspace is
  -- observed only when the lease has run out.
  unfoldable pub close_expired_attempt : Delivery → ℕ → Proc (Delivery × Bool)
  close_expired_attempt d now =
      if has_expired d.attempts now
      then (observe env d >>= λ o. pure (close_newest d d.attempts o now, true))
      else pure (d, false)
