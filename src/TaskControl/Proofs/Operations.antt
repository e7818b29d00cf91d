-- ===== src/TaskControl/Proofs/Operations.antt =====
-- Every operation of task_control.py, whatever it is called with and however it ends, keeps the store
-- sound and loses nothing.
use universal_agent_middlewa.Prelude.{
  ◌≡◌, refl, String, some, ap, ◌∙◌, Option-cases, inl, inr, arith,
}
use universal_agent_middlewa.Prelude.PyValue.{PyValue}
use universal_agent_middlewa.Prelude.Dict.{Dict, get}
use universal_agent_middlewa.TaskControl.Model.{Delivery}
use universal_agent_middlewa.TaskControl.Result.{Result, ok, err}
use universal_agent_middlewa.TaskControl.Port.{World, Env}
use universal_agent_middlewa.TaskControl.Lookup.{
  Role, requester, recipient, participant, party_of, load_for,
}
use universal_agent_middlewa.TaskControl.Requester.{cancel}
use universal_agent_middlewa.TaskControl.Recipient.{start_attempt, end_attempt}
use universal_agent_middlewa.TaskControl.Proofs.Spec.{
  Inv, Post, Spec, Spec-bind, Spec-lift, Spec-pure, IsStored,
}
use universal_agent_middlewa.TaskControl.Proofs.Store.{Spec-quiet}
use universal_agent_middlewa.TaskControl.Proofs.Combine.{Spec-after, Spec-weaken}
use universal_agent_middlewa.TaskControl.Proofs.Quiet.{
  now-IsQuiet, view-IsQuiet, record_done-IsQuiet,
}
use universal_agent_middlewa.TaskControl.Proofs.Start.{start_locked-Spec}
use universal_agent_middlewa.TaskControl.Proofs.Cancel.{cancel_locked-Spec}
use universal_agent_middlewa.TaskControl.Proofs.Finish.{end_locked-Spec}

abbrev pub Anything : Dict Delivery → Type 0
Anything ds = Unit

-- The delivery that `_load_for` returns is the one that is stored.
party_of-eq :
    (who : String) (role : Role) (d : Delivery) {e : Delivery} → party_of who role d ≡ ok e → e ≡ d
unfolding party_of
party_of-eq who requester d h = ground arith
party_of-eq who recipient d h = ground arith
party_of-eq who participant d h = ground arith

pub load_for-Spec :
    (v : World) (who id : String) (role : Role) → Spec v Anything (load_for who id role) IsStored
unfolding load_for
load_for-Spec v who id role = record {
  at = λ w i p. elim (Option-cases (get w.deliveries id)) [
    | inl missing ↦ rw missing i
    | inr (d, found) ↦ rw found (loaded w i d found (party_of who role d) refl)
  ];
}
  where
    loaded :
        (w : World)
        → Inv v w
        → (d : Delivery) → get w.deliveries id ≡ some d
        → (r : Result Delivery) → party_of who role d ≡ r
        → Post v IsStored r w
    loaded w i d found (ok e) h = (
      i,
      rw (party_of-eq who role d h)
          (ap (λ k. get w.deliveries k) (i.sound.keyed id d found) ∙ found),
    )
    loaded w i d found (err c) h = i

-- The end of each operation: a record is written to the log, and the caller is shown the delivery.
module _ (env : Env) {v : World} where
  pub start_attempt-Spec :
      (principal id lease : PyValue)
      → Spec v Anything (start_attempt env principal id lease) (λ _. Anything)
  unfolding start_attempt
  start_attempt-Spec principal id lease = Spec-lift _ _ _ _ λ who _. Spec-lift _ _ _ _ λ key _.
      Spec-lift _ _ _ _ λ seconds _. Spec-bind _ _ _ _ _ (load_for-Spec v who key recipient) λ d.
        Spec-after _ _ _ _ (now-IsQuiet env) λ moment.
          Spec-bind _ _ _ _ _ (start_locked-Spec env who seconds moment d) λ e.
            Spec-weaken _ Anything _ _ (λ ds p. tt)
              (Spec-after _ _ _ _ (record_done-IsQuiet env _ _ _ _)
                λ u. Spec-quiet _ _ _ (view-IsQuiet env e who))

  pub cancel-Spec :
      (principal id reason : PyValue)
      → Spec v Anything (cancel env principal id reason) (λ _. Anything)
  unfolding cancel
  cancel-Spec principal id reason = Spec-lift _ _ _ _ λ who _. Spec-lift _ _ _ _ λ key _.
      Spec-lift _ _ _ _ λ why _. Spec-bind _ _ _ _ _ (load_for-Spec v who key requester) λ d.
        Spec-after _ _ _ _ (now-IsQuiet env) λ moment.
          Spec-bind _ _ _ _ _ (cancel_locked-Spec env who why moment d) λ p.
            Spec-weaken _ Anything _ _ (λ ds q. tt)
              (Spec-after _ _ _ _ (record_done-IsQuiet env _ _ _ _)
                λ u. Spec-after _ _ _ _ (view-IsQuiet env _ _) λ seen. Spec-pure _ _ _ (λ ds q. tt))

  pub end_attempt-Spec :
      (principal id ref fence outcome note : PyValue)
      → Spec v Anything (end_attempt env principal id ref fence outcome note) (λ _. Anything)
  unfolding end_attempt
  end_attempt-Spec principal id ref fence outcome note = Spec-lift _ _ _ _ λ who _.
      Spec-lift _ _ _ _ λ key _. Spec-lift _ _ _ _ λ name _. Spec-lift _ _ _ _ λ number _.
        Spec-lift _ _ _ _ λ said _. Spec-lift _ _ _ _ λ remark _.
          Spec-bind _ _ _ _ _ (load_for-Spec v who key recipient) λ d.
            Spec-bind _ _ _ _ _ (end_locked-Spec env name number said remark d) λ p.
              Spec-weaken _ Anything _ _ (λ ds q. tt)
                (Spec-after _ _ _ _ (record_done-IsQuiet env _ _ _ _)
                  λ u. Spec-quiet _ _ _ (view-IsQuiet env _ _))
