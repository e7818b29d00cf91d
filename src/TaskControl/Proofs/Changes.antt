-- ===== src/TaskControl/Proofs/Changes.antt =====
-- Each change that an operation of task_control.py makes keeps a delivery record consistent.
use universal_agent_middlewa.Prelude.{
  ℕ, ◌<◌, ◌≤◌, ◌≡◌, String, true, false, none, List, [], ◌∷◌, length, arith,
}
use universal_agent_middlewa.TaskControl.Model.{
  Observation, Attempt, Delivery, cancelled, is_attempt_active, is_result_recorded, max_attempts,
}
use universal_agent_middlewa.TaskControl.Rules.{close_newest, has_expired, has_value}
use universal_agent_middlewa.TaskControl.Changes.{
  begin_attempt, record_result, cancel_intent_of, with_evidence,
}
use universal_agent_middlewa.TaskControl.Requester.{Order, new_delivery}
use universal_agent_middlewa.TaskControl.Proofs.Invariant.{IsConsistent, Numbered, OlderEnded, fits}
use universal_agent_middlewa.TaskControl.Proofs.Newest.{IsNewest}

pub new_delivery-IsConsistent : (o : Order) (now : ℕ) → IsConsistent (new_delivery o now)
unfolding new_delivery has_value
new_delivery-IsConsistent o now = ground arith

pub begin_attempt-IsConsistent :
    (d : Delivery) (who : String) (lease now : ℕ) (o : Observation)
    → IsConsistent d
    → is_attempt_active d.state ≡ false
    → is_result_recorded d.state ≡ false
    → has_value d.cancel ≡ false
    → length d.attempts < max_attempts
    → IsConsistent (begin_attempt d who lease now o)
unfolding begin_attempt has_value
begin_attempt-IsConsistent d who lease now o h a r c l = ground arith

pub record_result-IsConsistent :
    (d : Delivery) (a : Attempt) (who ref : String) (fence : ℕ) (id digest name : String)
    (blockers : List String) (now : ℕ) (older : List Attempt)
    → IsConsistent d
    → IsNewest d ref fence a older
    → IsConsistent (record_result d a who ref fence id digest name blockers now)
unfolding record_result has_value
record_result-IsConsistent d a who ref fence id digest name blockers now older h n =
    rw n.written (ground arith)

-- A delivery whose cancel intent was just written, and whose state is not settled yet.
pub record IsPending (d : Delivery) : Type 0 where
  pub fence_counts : d.fence ≡ length d.attempts
  pub numbered : Numbered d.attempts
  pub within : length d.attempts ≤ max_attempts
  pub older_ended : OlderEnded d.attempts
  pub state_fits : fits d.state d.attempts ≡ true
  pub no_result : d.result ≡ none
  pub open_state : is_result_recorded d.state ≡ false
  pub intended : has_value d.cancel ≡ true

pub cancel_intent_of-IsPending :
    (d : Delivery) (who reason : String) (now : ℕ)
    → IsConsistent d
    → is_result_recorded d.state ≡ false
    → IsPending (cancel_intent_of d who reason now)
unfolding cancel_intent_of has_value
cancel_intent_of-IsPending d who reason now h r = ground arith

pub close_newest-IsPending :
    (d : Delivery) (l : List Attempt) (o : Observation) (now : ℕ)
    → d.attempts ≡ l
    → has_expired l now ≡ true
    → IsPending d
    → IsPending (close_newest d l o now)
unfolding close_newest has_expired has_value
close_newest-IsPending d [] o now e x h = cc
close_newest-IsPending d (a ∷ older) o now e x h = ground arith

pub with_evidence-IsPending :
    (d : Delivery) (o : Observation) → IsPending d → IsPending (with_evidence d o)
unfolding with_evidence has_value
with_evidence-IsPending d o h = ground arith

-- An active delivery with its intent written is consistent, and any other once it is cancelled.
pub IsPending-IsConsistent :
    (d : Delivery) → IsPending d → is_attempt_active d.state ≡ true → IsConsistent d
unfolding has_value
IsPending-IsConsistent d h a = ground arith

pub cancelled-IsConsistent :
    (d : Delivery)
    → IsPending d
    → is_attempt_active d.state ≡ false
    → IsConsistent (record d { state = cancelled })
unfolding has_value
cancelled-IsConsistent d h a = ground arith

pub close_newest-IsConsistent :
    (d : Delivery) (l : List Attempt) (o : Observation) (now : ℕ)
    → d.attempts ≡ l
    → has_expired l now ≡ true
    → IsConsistent d
    → IsConsistent (close_newest d l o now)
unfolding close_newest has_expired has_value
close_newest-IsConsistent d [] o now e x h = cc
close_newest-IsConsistent d (a ∷ older) o now e x h = ground arith
