-- ===== src/TaskControl/Proofs/Writes.antt =====
-- `submit_result` and `deliver` of task_control.py, whatever they are called with and however they end,
-- keep the store sound and lose nothing.
use universal_agent_middlewa.Prelude.{ℕ, ◌≡◌, refl, String, Bool, true, false, Option, none, some}
use universal_agent_middlewa.Prelude.PyValue.{PyValue}
use universal_agent_middlewa.Prelude.Dict.{Dict, get}
use universal_agent_middlewa.TaskControl.Model.{Delivery, Recorded, is_result_recorded}
use universal_agent_middlewa.TaskControl.Wire.{ResultDoc, StoredResult}
use universal_agent_middlewa.TaskControl.Port.{World, Env, modify}
use universal_agent_middlewa.TaskControl.Lookup.{recipient, read_optional}
use universal_agent_middlewa.TaskControl.Requester.{
  DeliverArgs, Order, prepare, replay, make_delivery, replay_or_make, authorize_and_make, deliver,
}
use universal_agent_middlewa.TaskControl.Recipient.{
  submit_result, answer_result, answer_recorded, check_replay, submit_new, review_of,
  or_missing_record, stored_result,
}
use universal_agent_middlewa.TaskControl.Proofs.Spec.{
  IsSound, Grows, Grows-trans, Spec, Spec-bind, Spec-lift, Spec-pure, Spec-if,
}
use universal_agent_middlewa.TaskControl.Proofs.Store.{IsQuiet, Spec-quiet}
use universal_agent_middlewa.TaskControl.Proofs.Combine.{Spec-after, Spec-weaken}
use universal_agent_middlewa.TaskControl.Proofs.Quiet.{
  IsQuiet-pure, IsQuiet-raise, IsQuiet-lift, IsQuiet-bind, IsQuiet-if, IsQuiet-ask, now-IsQuiet,
  view-IsQuiet, record_done-IsQuiet, deliverable-IsQuiet, authorize-IsQuiet,
}
use universal_agent_middlewa.TaskControl.Proofs.History.{same}
use universal_agent_middlewa.TaskControl.Proofs.Submit.{submit_locked-Spec}
use universal_agent_middlewa.TaskControl.Proofs.Deliver.{create_record-Spec}
use universal_agent_middlewa.TaskControl.Proofs.Operations.{Anything, load_for-Spec}

module _ (env : Env) where
  review_of-IsQuiet : (s : StoredResult) → IsQuiet (review_of env s)
  unfolding review_of
  review_of-IsQuiet s = IsQuiet-ask _

  or_missing_record-IsQuiet : (o : Option StoredResult) → IsQuiet (or_missing_record env o)
  unfolding or_missing_record
  or_missing_record-IsQuiet none = IsQuiet-raise _
  or_missing_record-IsQuiet (some s) = IsQuiet-pure s

  stored_result-IsQuiet : (id : String) → IsQuiet (stored_result env id)
  unfolding stored_result
  stored_result-IsQuiet id = record {
    deliveries = λ w. refl;
    by_contract = λ w. refl;
    results_kept = λ w k s h. h;
    log_kept = λ w. same;
  }

  answer_recorded-IsQuiet :
      (d : Delivery) (who : String) (again : Bool) (o : Option Recorded)
      → IsQuiet (answer_recorded env d who again o)
  unfolding answer_recorded
  answer_recorded-IsQuiet d who again none = IsQuiet-raise _
  answer_recorded-IsQuiet d who again (some r) = IsQuiet-bind _ _ (view-IsQuiet env d who) λ v.
      IsQuiet-bind _ _ (stored_result-IsQuiet r.result_id) λ found.
        IsQuiet-bind _ _ (or_missing_record-IsQuiet found)
          λ s. IsQuiet-bind _ _ (review_of-IsQuiet s) λ review. IsQuiet-pure _

  answer_result-IsQuiet :
      (d : Delivery) (who : String) (again : Bool) → IsQuiet (answer_result env d who again)
  unfolding answer_result
  answer_result-IsQuiet d who again = answer_recorded-IsQuiet d who again d.result

  check_replay-IsQuiet :
      (d : Delivery) (digest : String) (o : Option Recorded) → IsQuiet (check_replay env d digest o)
  unfolding check_replay
  check_replay-IsQuiet d digest none = IsQuiet-raise _
  check_replay-IsQuiet d digest (some r) = IsQuiet-lift _

  replay-IsQuiet : (d : Delivery) (o : Order) → IsQuiet (replay env d o)
  unfolding replay
  replay-IsQuiet d o =
      IsQuiet-if _ _ _ (IsQuiet-bind _ _ (view-IsQuiet env d o.principal) (λ v. IsQuiet-pure _))
        (IsQuiet-raise _)

  prepare-IsQuiet : (a : DeliverArgs) → IsQuiet (prepare env a)
  unfolding prepare
  prepare-IsQuiet a = IsQuiet-bind _ _ (IsQuiet-lift _) λ principal.
      IsQuiet-bind _ _ (IsQuiet-lift _) λ recipient.
        IsQuiet-bind _ _ (IsQuiet-if _ _ _ (IsQuiet-raise _) (IsQuiet-pure tt)) λ u.
          IsQuiet-bind _ _ (IsQuiet-lift _) λ key.
            IsQuiet-bind _ _ (IsQuiet-lift _) λ authority_ref.
              IsQuiet-bind _ _ (IsQuiet-lift _) λ task.
                IsQuiet-bind _ _ (deliverable-IsQuiet env a.contract_id a.contract_digest)
                  λ binding. IsQuiet-pure _

module _ (env : Env) {v : World} where
  pub submit_result-Spec :
      (principal id ref fence : PyValue) (result : Option ResultDoc)
      → Spec v Anything (submit_result env principal id ref fence result) (λ _. Anything)
  unfolding submit_result
  submit_result-Spec principal id ref fence result = Spec-lift _ _ _ _ λ who _.
      Spec-lift _ _ _ _ λ key _. Spec-lift _ _ _ _ λ name _. Spec-lift _ _ _ _ λ number _.
        Spec-lift _ _ _ _ λ doc _. Spec-lift _ _ _ _ λ digest _.
          Spec-bind _ _ _ _ _ (load_for-Spec v who key recipient) λ d.
            Spec-after _ _ _ _ (now-IsQuiet env) λ moment.
              Spec-if _ (is_result_recorded d.state) _
                (submit_new env d who name number doc digest moment) _
                (λ _.
                  Spec-weaken _ Anything _ _ (λ ds q. tt)
                    (Spec-after _ _ _ _ (check_replay-IsQuiet env d digest d.result)
                      λ u. Spec-quiet _ _ _ (answer_result-IsQuiet env d who true)))
                (λ _.
                  Spec-bind _ _ _ _ _ (submit_locked-Spec env who name number doc digest moment d)
                    λ p.
                      Spec-weaken _ Anything _ _ (λ ds q. tt)
                        (Spec-after _ _ _ _ (record_done-IsQuiet env _ _ _ _)
                          λ u. Spec-quiet _ _ _ (answer_result-IsQuiet env p.0 who false)))

-- What other processes do before this one gets the lock is assumed to be sound too.
pub record OthersAreFair (env : Env) : Type 0 where
  pub sound : (n : ℕ) (w : World) → IsSound w → IsSound (env.others n w)
  pub grown : (n : ℕ) (w : World) → IsSound w → Grows w (env.others n w)

-- `_read_optional` tells whether the identifier is free.
abbrev IsRead : String → Option Delivery → Dict Delivery → Type 0
IsRead id o ds = get ds id ≡ o

module _ (env : Env) (fair : OthersAreFair env) {v : World} where
  others-Spec : Spec v Anything (modify (λ w. env.others w.questions w)) (λ _. Anything)
  unfolding modify
  others-Spec = record {
    at = λ w i p. (
      record {
        sound = fair.sound w.questions w i.sound;
        grown =
            Grows-trans v w (env.others w.questions w) i.grown (fair.grown w.questions w i.sound);
      },
      tt,
    );
  }

  read_optional-Spec : (id : String) → Spec v Anything (read_optional id) (IsRead id)
  unfolding read_optional
  read_optional-Spec id = record { at = λ w i p. (i, refl) }

  replay_or_make-Spec :
      (o : Order) (existing : Option Delivery)
      → Spec v (IsRead o.delivery_id existing) (replay_or_make env o existing) (λ _. Anything)
  unfolding replay_or_make make_delivery
  replay_or_make-Spec o (some d) =
      Spec-weaken _ Anything _ _ (λ ds q. tt) (Spec-quiet _ _ _ (replay-IsQuiet env d o))
  replay_or_make-Spec o none = Spec-bind _ _ _ _ _ (create_record-Spec env v o) λ d.
      Spec-weaken _ Anything _ _ (λ ds q. tt)
        (Spec-after _ _ _ _ (record_done-IsQuiet env _ _ _ _)
          λ u. Spec-after _ _ _ _ (view-IsQuiet env _ _) λ seen. Spec-pure _ _ _ (λ ds q. tt))

  authorize_and_make-Spec :
      (o : Order) (existing : Option Delivery)
      → Spec v Anything (authorize_and_make env o existing) (λ _. Anything)
  unfolding authorize_and_make
  authorize_and_make-Spec o (some d) = Spec-quiet _ _ _ (replay-IsQuiet env d o)
  authorize_and_make-Spec o none = Spec-after _ _ _ _ (authorize-IsQuiet env _ _ _ _ _ _ _) λ u.
      Spec-bind _ _ _ _ _ others-Spec λ u.
        Spec-bind _ _ _ _ _ (read_optional-Spec o.delivery_id)
          λ existing. replay_or_make-Spec o existing

  pub deliver-Spec : (a : DeliverArgs) → Spec v Anything (deliver env a) (λ _. Anything)
  unfolding deliver
  deliver-Spec a = Spec-after _ _ _ _ (prepare-IsQuiet env a) λ o.
      Spec-bind _ _ _ _ _ (read_optional-Spec o.delivery_id)
        λ existing. Spec-weaken _ Anything _ _ (λ ds q. tt) (authorize_and_make-Spec o existing)
