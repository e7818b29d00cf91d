-- ===== src/TaskControl/Recipient.antt =====
-- The operations of a recipient in task_control.py (`start_attempt`, `submit_result`,
-- `end_attempt`).
use universal_agent_middlewa.Prelude.{
  ℕ, String, Bool, true, false, Option, none, some, if◌then◌else◌, str_eq, leb, length,
}
use universal_agent_middlewa.Prelude.PyValue.{PyValue}
use universal_agent_middlewa.Prelude.Dict
use universal_agent_middlewa.TaskControl.Model.{
  unchanged, changed, unobservable, BaselineState, invalid_argument, already_active, attempt_limit,
  baseline_changed, baseline_unobservable, result_already_recorded, result_invalid,
  result_id_conflict, result_binding_mismatch, contract_error, malformed_record, Attempt, Delivery,
  Recorded, is_attempt_active, is_result_recorded, max_attempts, Effect, reported, Outcome,
}
use universal_agent_middlewa.TaskControl.Result.{Result, ok, err}
use universal_agent_middlewa.TaskControl.Validate.{
  validate_principal, validate_delivery_id, validate_attempt_ref, validate_fence, validate_lease,
  validate_outcome, text,
}
use universal_agent_middlewa.TaskControl.Rules.{
  close_attempt, write_attempt, require_active_attempt, require_open, effect_of,
}
use universal_agent_middlewa.TaskControl.Changes.{binds, begin_attempt, record_result}
use universal_agent_middlewa.TaskControl.Wire.{
  ResultDoc, StoredResult, Review, pass, review_state, effect_seen,
}
use universal_agent_middlewa.TaskControl.Port.{
  Env, Proc, ◌>>=◌, ◌>>◌, pure, raise, lift, ask, modify, now, observe, save,
}
use universal_agent_middlewa.TaskControl.Authority.{authorize, record_done}
use universal_agent_middlewa.TaskControl.Lookup.{
  recipient, load_for, bound_contract, close_expired_attempt,
}
use universal_agent_middlewa.TaskControl.Views.{View, view}

unfoldable pub require_no_attempt : Delivery → Result (Unit {0})
require_no_attempt d =
    if is_attempt_active d.state
    then err already_active
    else if leb max_attempts (length d.attempts)
    then err attempt_limit
    else ok tt

unfoldable pub require_unchanged : BaselineState → Result (Unit {0})
require_unchanged unchanged = ok tt
require_unchanged changed = err baseline_changed
require_unchanged unobservable = err baseline_unobservable

-- review["state"], and the digest of the result that was stored earlier
unfoldable pub same_digest : StoredResult → String → Result StoredResult
same_digest s digest = if str_eq s.submission_digest digest then ok s else err result_id_conflict

unfoldable pub or_invalid : Option String → Result String
or_invalid none = err result_invalid
or_invalid (some digest) = ok digest

unfoldable pub document : Option ResultDoc → Result ResultDoc
document none = err invalid_argument
document (some r) = ok r

unfoldable pub same_result : String → Recorded → Result (Unit {0})
same_result digest r =
    if str_eq r.submission_digest digest then ok tt else err result_already_recorded

pub record ResultAnswer : Type 0 where
  pub delivery : View
  pub result_record : StoredResult × Review
  pub replayed : Bool

module _ (env : Env) where
  -- what `start_attempt` does once the lease of an earlier attempt has been looked at
  unfoldable pub claim_attempt : Delivery → String → ℕ → ℕ → Proc Delivery
  unfolding require_no_attempt require_unchanged
  claim_attempt d who lease moment = do
    lift (require_no_attempt d)
    binding ← bound_contract env d
    seen ← observe env d
    lift (require_unchanged seen.state)
    authorize env "attempt_start" who d.authority_ref (some d.delivery_id) binding
        d.business_task_ref d.task_revision
    let begun = begin_attempt d who lease moment seen
    save env begun
    pure begun

  -- what `start_attempt` does under the lock
  unfoldable pub start_locked : Delivery → String → ℕ → ℕ → Proc Delivery
  start_locked d who lease moment = do
    lift (require_open d)
    p ← close_expired_attempt env d moment
    if p.1 then save env p.0 else pure tt
    claim_attempt p.0 who lease moment

  -- `start_attempt`
  unfoldable pub start_attempt : PyValue → PyValue → PyValue → Proc View
  unfolding start_locked
  start_attempt principal delivery_id lease_seconds = do
    who ← lift (validate_principal principal)
    id ← lift (validate_delivery_id delivery_id)
    lease ← lift (validate_lease lease_seconds)
    d ← load_for who id recipient
    moment ← now env
    begun ← start_locked d who lease moment
    record_done env "start_attempt" begun pass who
    view env begun who

  -- `get` and `_stored_result` of a result: the record and its review
  unfoldable pub stored_result : String → Proc (Option StoredResult)
  stored_result id w = (ok (Dict.get w.results id), w)

  unfoldable pub review_of : StoredResult → Proc Review
  review_of s = ask (λ n. env.review n s)

  -- ResultV2Store.put, for an identifier that is new
  unfoldable pub put_new : ResultDoc → String → Proc StoredResult
  put_new r digest = ask (λ n. env.admits n r) >>= λ admitted.
      if admitted
      then (let s : StoredResult = record { doc = r; submission_digest = digest } in
          modify (λ w. record w { results = Dict.put w.results r.result_id s }) >> pure s)
      else raise result_invalid

  unfoldable pub store_or_reuse : ResultDoc → String → Option StoredResult → Proc StoredResult
  unfolding put_new same_digest
  store_or_reuse r digest none = put_new r digest
  store_or_reuse r digest (some s) = lift (same_digest s digest)

  -- the result that is stored for this submission: that of an earlier call that was cut off, or a new one
  unfoldable pub fetch_or_store : ResultDoc → String → Proc StoredResult
  unfolding store_or_reuse stored_result
  fetch_or_store r digest = stored_result r.result_id >>= λ earlier. store_or_reuse r digest earlier

  -- what `submit_result` does for a delivery that has no result yet
  unfoldable pub submit_locked :
      Delivery → String → String → ℕ → ResultDoc → String → ℕ → Proc (Delivery × Review)
  unfolding fetch_or_store review_of
  submit_locked d who ref fence r digest moment = do
    a ← lift (require_active_attempt d ref fence)
    if binds d a who r then pure tt else raise result_binding_mismatch
    binding ← bound_contract env d
    authorize env "result_submit" who d.authority_ref (some d.delivery_id) binding
        d.business_task_ref d.task_revision
    s ← fetch_or_store r digest
    review ← review_of s
    let kept =
        record_result d a who ref fence r.result_id digest review.state review.blockers moment
    save env kept
    pure (kept, review)

  unfoldable pub or_missing_record : Option StoredResult → Proc StoredResult
  or_missing_record none = raise contract_error
  or_missing_record (some s) = pure s

  unfoldable pub answer_recorded : Delivery → String → Bool → Option Recorded → Proc ResultAnswer
  unfolding or_missing_record review_of
  answer_recorded d who replayed none = raise malformed_record
  answer_recorded d who replayed (some r) = do
    v ← view env d who
    found ← stored_result r.result_id
    s ← or_missing_record found
    review ← review_of s
    pure (record { delivery = v; result_record = (s, review); replayed = replayed })

  -- `_answer_result`
  unfoldable pub answer_result : Delivery → String → Bool → Proc ResultAnswer
  unfolding answer_recorded
  answer_result d who replayed = answer_recorded d who replayed d.result

  unfoldable pub check_replay : Delivery → String → Option Recorded → Proc (Unit {0})
  unfolding same_result
  check_replay d digest none = raise malformed_record
  check_replay d digest (some r) = lift (same_result digest r)

  unfoldable pub submit_new :
      Delivery → String → String → ℕ → ResultDoc → String → ℕ → Proc ResultAnswer
  unfolding submit_locked
  submit_new d who ref fence r digest moment = do
    p ← submit_locked d who ref fence r digest moment
    record_done env "submit_result" p.0 (review_state (p.1).state) who
    answer_result p.0 who false

  -- `submit_result`
  unfoldable pub submit_result :
      PyValue → PyValue → PyValue → PyValue → Option ResultDoc → Proc ResultAnswer
  unfolding check_replay submit_new or_invalid document
  submit_result principal delivery_id attempt_ref fence result = do
    who ← lift (validate_principal principal)
    id ← lift (validate_delivery_id delivery_id)
    ref ← lift (validate_attempt_ref attempt_ref)
    f ← lift (validate_fence fence)
    r ← lift (document result)
    digest ← lift (or_invalid (env.submission_digest r))
    d ← load_for who id recipient
    moment ← now env
    if is_result_recorded d.state
        then (check_replay d digest d.result >> answer_result d who true)
        else submit_new d who ref f r digest moment

  -- what `end_attempt` does under the lock
  unfoldable pub end_locked : Delivery → String → ℕ → Outcome → String → Proc (Delivery × Effect)
  end_locked d ref fence outcome note = do
    a ← lift (require_active_attempt d ref fence)
    moment ← now env
    seen ← observe env d
    let put_back = λ (closed : Attempt). write_attempt ref closed d.attempts
    let closed = close_attempt d a put_back seen moment reported (some outcome) note
    save env closed
    pure (closed, effect_of seen.state)

  -- `end_attempt`
  unfoldable pub end_attempt : PyValue → PyValue → PyValue → PyValue → PyValue → PyValue → Proc View
  unfolding end_locked
  end_attempt principal delivery_id attempt_ref fence outcome note = do
    who ← lift (validate_principal principal)
    id ← lift (validate_delivery_id delivery_id)
    ref ← lift (validate_attempt_ref attempt_ref)
    f ← lift (validate_fence fence)
    said ← lift (validate_outcome outcome)
    remark ← lift (text note 500 false)
    d ← load_for who id recipient
    p ← end_locked d ref f said remark
    record_done env "end_attempt" p.0 (effect_seen p.1) who
    view env p.0 who
