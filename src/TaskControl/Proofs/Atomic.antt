-- ===== src/TaskControl/Proofs/Atomic.antt =====
-- Which parts of task_control.py leave the deliveries as they were when they raise.
use universal_agent_middlewa.Prelude.{ℕ, ◌≡◌, refl, String, Bool, true, false, ◌∙◌, if◌then◌else◌}
use universal_agent_middlewa.TaskControl.Model.{Code, Delivery, Outcome}
use universal_agent_middlewa.TaskControl.Result.{Result, ok, err}
use universal_agent_middlewa.TaskControl.Rules.{require_active_attempt}
use universal_agent_middlewa.TaskControl.Changes.{binds}
use universal_agent_middlewa.TaskControl.Wire.{ResultDoc}
use universal_agent_middlewa.TaskControl.Port.{World, Env, Proc, ◌>>=◌, ◌>>◌, continue, pure, save}
use universal_agent_middlewa.TaskControl.Recipient.{claim_attempt, submit_locked, end_locked}
use universal_agent_middlewa.TaskControl.Proofs.Store.{IsQuiet}
use universal_agent_middlewa.TaskControl.Proofs.Quiet.{
  IsQuiet-pure, IsQuiet-raise, IsQuiet-lift, IsQuiet-if, observe-IsQuiet, now-IsQuiet,
  bound_contract-IsQuiet, authorize-IsQuiet,
}
use universal_agent_middlewa.TaskControl.Proofs.Submit.{fetch_or_store-IsQuiet, review_of-IsQuiet}

-- If the method raises, it has changed no delivery.
pub record IsAtomic {A : Type 0} (m : Proc A) : Type 0 where
  pub unchanged : (w : World) (c : Code) → (m w).0 ≡ err c → (m w).1.deliveries ≡ w.deliveries

module _ {A B : Type 0} where
  continue-atomic :
      (r : Result A) (u : World) (f : A → Proc B)
      → ((a : A) → IsAtomic (f a))
      → (c : Code) → (continue r u f).0 ≡ err c
      → (continue r u f).1.deliveries ≡ u.deliveries
  continue-atomic (ok a) u f k c h = (k a).unchanged u c h
  continue-atomic (err e) u f k c h = refl

  -- A quiet method before an atomic one.
  pub IsAtomic-after :
      (m : Proc A) (f : A → Proc B) → IsQuiet m → ((a : A) → IsAtomic (f a)) → IsAtomic (m >>= f)
  unfolding ◌>>=◌
  IsAtomic-after m f q k = record {
    unchanged = λ w c h. continue-atomic (m w).0 (m w).1 f k c h ∙ q.deliveries w;
  }

module _ {A : Type 0} where
  pub IsAtomic-if :
      (b : Bool) (m n : Proc A) → IsAtomic m → IsAtomic n → IsAtomic (if b then m else n)
  IsAtomic-if true m n p q = p
  IsAtomic-if false m n p q = q

  pub IsAtomic-pure : (a : A) → IsAtomic (pure a)
  unfolding pure
  IsAtomic-pure a = record { unchanged = λ w c h. cc }

  -- A save that is followed by an answer does not raise.
  pub IsAtomic-save : (env : Env) (d : Delivery) (a : A) → IsAtomic (save env d >> pure a)
  unfolding save ◌>>=◌
  IsAtomic-save env d a = record { unchanged = λ w c h. cc }

module _ (env : Env) where
  -- If `start_attempt` raises before its attempt is recorded, and after it has looked at an attempt
  -- whose lease may have run out, the deliveries are as they were.
  pub claim_attempt-IsAtomic :
      (d : Delivery) (who : String) (lease moment : ℕ)
      → IsAtomic (claim_attempt env d who lease moment)
  unfolding claim_attempt
  claim_attempt-IsAtomic d who lease moment = IsAtomic-after _ _ (IsQuiet-lift _) λ u.
      IsAtomic-after _ _ (bound_contract-IsQuiet env d) λ binding.
        IsAtomic-after _ _ (observe-IsQuiet env d) λ seen.
          IsAtomic-after _ _ (IsQuiet-lift _)
            λ u. IsAtomic-after _ _ (authorize-IsQuiet env _ _ _ _ _ _ _) λ u. IsAtomic-save env _ _

  -- If `submit_result` raises before its result is recorded, the deliveries are as they were.
  pub submit_locked-IsAtomic :
      (d : Delivery) (who ref : String) (fence : ℕ) (r : ResultDoc) (digest : String) (moment : ℕ)
      → IsAtomic (submit_locked env d who ref fence r digest moment)
  unfolding submit_locked
  submit_locked-IsAtomic d who ref fence r digest moment =
      IsAtomic-after _ _ (IsQuiet-lift (require_active_attempt d ref fence)) λ a.
        IsAtomic-after _ _ (IsQuiet-if (binds d a who r) _ _ (IsQuiet-pure _) (IsQuiet-raise _))
          λ u. IsAtomic-after _ _ (bound_contract-IsQuiet env d) λ binding.
            IsAtomic-after _ _ (authorize-IsQuiet env _ _ _ _ _ _ _) λ u.
              IsAtomic-after _ _ (fetch_or_store-IsQuiet env r digest)
                λ s. IsAtomic-after _ _ (review_of-IsQuiet env s) λ review. IsAtomic-save env _ _

  pub end_locked-IsAtomic :
      (d : Delivery) (ref : String) (fence : ℕ) (outcome : Outcome) (note : String)
      → IsAtomic (end_locked env d ref fence outcome note)
  unfolding end_locked
  end_locked-IsAtomic d ref fence outcome note =
      IsAtomic-after _ _ (IsQuiet-lift (require_active_attempt d ref fence)) λ a.
        IsAtomic-after _ _ (now-IsQuiet env)
          λ moment. IsAtomic-after _ _ (observe-IsQuiet env d) λ seen. IsAtomic-save env _ _
