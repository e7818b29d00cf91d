-- ===== src/TaskControl/Proofs/Submit.antt =====
-- `submit_result` of task_control.py keeps the store sound and loses nothing: a stored result is never
-- overwritten, and only the newest attempt, while it runs, gets a result.
use universal_agent_middlewa.Prelude.{ℕ, ◌≡◌, String, false, List, arith, str_eq_iff}
use universal_agent_middlewa.Prelude.Dict.{get-put}
use universal_agent_middlewa.TaskControl.Model.{Delivery, Attempt, is_terminal}
use universal_agent_middlewa.TaskControl.Rules.{require_active_attempt, has_value}
use universal_agent_middlewa.TaskControl.Changes.{binds}
use universal_agent_middlewa.TaskControl.Wire.{ResultDoc, StoredResult}
use universal_agent_middlewa.TaskControl.Port.{World, Env, ◌>>=◌}
use universal_agent_middlewa.TaskControl.Recipient.{fetch_or_store, review_of, submit_locked}
use universal_agent_middlewa.TaskControl.Proofs.Invariant.{IsConsistent}
use universal_agent_middlewa.TaskControl.Proofs.Newest.{IsNewest, require_active_attempt-IsNewest}
use universal_agent_middlewa.TaskControl.Proofs.Changes.{record_result-IsConsistent}
use universal_agent_middlewa.TaskControl.Proofs.History.{same, record_result-Continues}
use universal_agent_middlewa.TaskControl.Proofs.Spec.{Spec, Spec-lift, Spec-pure, IsStored}
use universal_agent_middlewa.TaskControl.Proofs.Store.{IsQuiet}
use universal_agent_middlewa.TaskControl.Proofs.Combine.{Spec-after, Spec-consistent, Spec-store}
use universal_agent_middlewa.TaskControl.Proofs.Quiet.{
  IsQuiet-pure, IsQuiet-raise, IsQuiet-if, IsQuiet-ask, bound_contract-IsQuiet, authorize-IsQuiet,
}

-- A delivery whose newest attempt runs is not over.
pub newest_going :
    (d : Delivery) (ref : String) (fence : ℕ) (a : Attempt) (older : List Attempt)
    → IsConsistent d
    → IsNewest d ref fence a older
    → is_terminal d.state ≡ false
unfolding has_value
newest_going d ref fence a older h n = ground (arith, n.attempts, n.is_active)

module _ (env : Env) where
  pub fetch_or_store-IsQuiet :
      (r : ResultDoc) (digest : String) → IsQuiet (fetch_or_store env r digest)
  unfolding fetch_or_store ◌>>=◌
  fetch_or_store-IsQuiet r digest = record {
    deliveries = λ w. ground arith;
    by_contract = λ w. ground arith;
    results_kept = λ w id s h. ground (
      arith,
      get-put w.results r.result_id id (record { doc = r; submission_digest = digest }),
      str_eq_iff r.result_id id,
    );
    log_kept = λ w. grind (arith, same);
  }

  pub review_of-IsQuiet : (s : StoredResult) → IsQuiet (review_of env s)
  unfolding review_of
  review_of-IsQuiet s = IsQuiet-ask _

module _ (env : Env) {v : World} (who ref : String) (fence : ℕ) (r : ResultDoc) (digest : String)
    (moment : ℕ) where
  pub submit_locked-Spec :
      (d : Delivery)
      → Spec v (IsStored d) (submit_locked env d who ref fence r digest moment) (λ p. IsStored p.0)
  unfolding submit_locked
  submit_locked-Spec d = Spec-consistent d _ _ λ h.
      Spec-lift _ (require_active_attempt d ref fence) _ _ λ a running.
        let (older, newest) = require_active_attempt-IsNewest d ref fence h running in
        Spec-after _ _ _ _ (IsQuiet-if (binds d a who r) _ _ (IsQuiet-pure _) (IsQuiet-raise _))
          λ u. Spec-after _ _ _ _ (bound_contract-IsQuiet env d) λ binding.
            Spec-after _ _ _ _ (authorize-IsQuiet env _ _ _ _ _ _ _) λ u.
              Spec-after _ _ _ _ (fetch_or_store-IsQuiet env r digest) λ s.
                Spec-after _ _ _ _ (review_of-IsQuiet env s) λ review.
                  Spec-store env d _ _ _
                    (record_result-IsConsistent d a who ref fence r.result_id digest review.state
                      review.blockers moment older h newest)
                    (record_result-Continues d a who ref fence r.result_id digest review.state
                      review.blockers moment older newest
                      (newest_going d ref fence a older h newest))
                    (Spec-pure _ _ _ (λ ds p. p))
