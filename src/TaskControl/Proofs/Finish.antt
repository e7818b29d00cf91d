-- ===== src/TaskControl/Proofs/Finish.antt =====
-- `end_attempt` of task_control.py keeps the store sound and loses nothing.
use universal_agent_middlewa.Prelude.{ℕ, String, some, fun_ext}
use universal_agent_middlewa.TaskControl.Model.{Delivery, Outcome, reported}
use universal_agent_middlewa.TaskControl.Rules.{require_active_attempt}
use universal_agent_middlewa.TaskControl.Port.{World, Env}
use universal_agent_middlewa.TaskControl.Recipient.{end_locked}
use universal_agent_middlewa.TaskControl.Proofs.Invariant.{close_attempt-IsConsistent}
use universal_agent_middlewa.TaskControl.Proofs.Newest.{require_active_attempt-IsNewest}
use universal_agent_middlewa.TaskControl.Proofs.History.{close_attempt-Continues}
use universal_agent_middlewa.TaskControl.Proofs.Spec.{Spec, Spec-lift, Spec-pure, IsStored}
use universal_agent_middlewa.TaskControl.Proofs.Combine.{Spec-after, Spec-consistent, Spec-store}
use universal_agent_middlewa.TaskControl.Proofs.Quiet.{now-IsQuiet, observe-IsQuiet}
use universal_agent_middlewa.TaskControl.Proofs.Submit.{newest_going}

module _ (env : Env) {v : World} (ref : String) (fence : ℕ) (outcome : Outcome)
    (note : String) where
  pub end_locked-Spec :
      (d : Delivery)
      → Spec v (IsStored d) (end_locked env d ref fence outcome note) (λ p. IsStored p.0)
  unfolding end_locked
  end_locked-Spec d = Spec-consistent d _ _ λ h.
      Spec-lift _ (require_active_attempt d ref fence) _ _ λ a running.
        let (older, newest) = require_active_attempt-IsNewest d ref fence h running in
        Spec-after _ _ _ _ (now-IsQuiet env) λ moment.
          Spec-after _ _ _ _ (observe-IsQuiet env d) λ seen. rw (fun_ext newest.written) (
            Spec-store env d _ _ _
              (close_attempt-IsConsistent d a older seen moment reported (some outcome) note h
                newest.attempts newest.is_active)
              (close_attempt-Continues d a older seen moment reported (some outcome) note
                newest.attempts newest.is_active (newest_going d ref fence a older h newest))
              (Spec-pure _ _ _ (λ ds p. p)))
