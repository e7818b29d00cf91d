-- ===== src/TaskControl/Proofs/Start.antt =====
-- `start_attempt` of task_control.py keeps the store sound and loses nothing.
use universal_agent_middlewa.Prelude.{
  ℕ, ◌<◌, ◌≡◌, refl, String, true, false, List, [], ◌∷◌, arith, length,
}
use universal_agent_middlewa.TaskControl.Model.{
  Delivery, Attempt, Observation, is_attempt_active, is_result_recorded, is_terminal, max_attempts,
}
use universal_agent_middlewa.TaskControl.Result.{ok}
use universal_agent_middlewa.TaskControl.Rules.{require_open, has_value, has_expired, close_newest}
use universal_agent_middlewa.TaskControl.Changes.{begin_attempt}
use universal_agent_middlewa.TaskControl.Port.{World, Env, observe}
use universal_agent_middlewa.TaskControl.Lookup.{bound_contract}
use universal_agent_middlewa.TaskControl.Recipient.{
  require_no_attempt, require_unchanged, claim_attempt, start_locked,
}
use universal_agent_middlewa.TaskControl.Proofs.Invariant.{IsConsistent}
use universal_agent_middlewa.TaskControl.Proofs.Changes.{
  begin_attempt-IsConsistent, close_newest-IsConsistent,
}
use universal_agent_middlewa.TaskControl.Proofs.History.{
  begin_attempt-Continues, close_newest-Continues,
}
use universal_agent_middlewa.TaskControl.Proofs.Spec.{Spec, Spec-lift, Spec-pure, IsStored}
use universal_agent_middlewa.TaskControl.Proofs.Combine.{
  Spec-after, Spec-consistent, Spec-close, Spec-store,
}
use universal_agent_middlewa.TaskControl.Proofs.Quiet.{
  IsQuiet-pure, observe-IsQuiet, bound_contract-IsQuiet, authorize-IsQuiet,
}

-- What the passed tests of `start_attempt` say of the record.
begin_conditions :
    (d : Delivery)
    → IsConsistent d
    → has_value d.cancel ≡ false
    → is_result_recorded d.state ≡ false
    → require_no_attempt d ≡ ok tt
    → (is_attempt_active d.state ≡ false)
      × (length d.attempts < max_attempts)
      × (is_terminal d.state ≡ false)
unfolding require_no_attempt has_value
begin_conditions d h c r e = ground arith

open_conditions :
    (d : Delivery)
    → IsConsistent d
    → require_open d ≡ ok tt
    → (has_value d.cancel ≡ false)
      × (is_result_recorded d.state ≡ false)
      × (is_terminal d.state ≡ false)
unfolding require_open has_value
open_conditions d h e = ground arith

closed_conditions :
    (d : Delivery) (l : List Attempt) (o : Observation) (now : ℕ)
    → has_value d.cancel ≡ false
    → has_expired l now ≡ true
    → (has_value (close_newest d l o now).cancel ≡ false)
      × (is_result_recorded (close_newest d l o now).state ≡ false)
unfolding close_newest has_value has_expired
closed_conditions d [] o now c x = cc
closed_conditions d (a ∷ older) o now c x = ground arith

module _ (env : Env) {v : World} (who : String) (lease moment : ℕ) where
  claim_attempt-Spec :
      (d : Delivery)
      → IsConsistent d
      → has_value d.cancel ≡ false
      → is_result_recorded d.state ≡ false
      → Spec v (IsStored d) (claim_attempt env d who lease moment) IsStored
  unfolding claim_attempt
  claim_attempt-Spec d h c r = Spec-lift _ (require_no_attempt d) _ _ λ u free.
      Spec-after _ (bound_contract env d) _ _ (bound_contract-IsQuiet env d) λ binding.
        Spec-after _ (observe env d) _ _ (observe-IsQuiet env d) λ seen.
          Spec-lift _ (require_unchanged seen.state) _ _ λ u same.
            Spec-after _ _ _ _ (authorize-IsQuiet env _ _ _ _ _ _ _) λ u.
              let (idle, room, going) = begin_conditions d h c r free in
              Spec-store env d (begin_attempt d who lease moment seen) _ _
                (begin_attempt-IsConsistent d who lease moment seen h idle r c room)
                (begin_attempt-Continues d who lease moment seen going)
                (Spec-pure _ _ _ (λ ds p. p))

  pub start_locked-Spec :
      (d : Delivery) → Spec v (IsStored d) (start_locked env d who lease moment) IsStored
  unfolding start_locked
  start_locked-Spec d = Spec-consistent d _ _ λ h. Spec-lift _ (require_open d) _ _ λ u opened.
      let (wanted, unrecorded, going) = open_conditions d h opened in
      Spec-close env d moment _ _ _
        (Spec-after _ _ _ _ (IsQuiet-pure tt) (λ u. claim_attempt-Spec d h wanted unrecorded))
        (λ o x.
          let (wanted', unrecorded') = closed_conditions d d.attempts o moment wanted x in
          let h' = close_newest-IsConsistent d d.attempts o moment refl x h in
          Spec-store env d (close_newest d d.attempts o moment) _ _ h'
            (close_newest-Continues d d.attempts o moment refl x going)
            (claim_attempt-Spec (close_newest d d.attempts o moment) h' wanted' unrecorded'))
