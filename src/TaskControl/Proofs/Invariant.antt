-- ===== src/TaskControl/Proofs/Invariant.antt =====
-- When a delivery record of task_control.py is consistent, and that each change of a record keeps it so.
use universal_agent_middlewa.Prelude.{
  ℕ, suc, ◌≤◌, ◌≡◌, String, Bool, true, false, ◌&&◌, Option, none, some, List, [], ◌∷◌, length,
  arith,
}
use universal_agent_middlewa.TaskControl.Model.{
  DeliveryState, delivered, attempt_active, reconciliation_required, result_recorded, cancelled,
  none_observed, partial, unknown, AttemptState, ended, with_result, Outcome, EndHow, Observation,
  AttemptEnd, Attempt, Recorded, Delivery, is_active_attempt, is_result_recorded, max_attempts,
}
use universal_agent_middlewa.TaskControl.Rules.{close_attempt, has_value}

abbrev pub is_ended : AttemptState → Bool
is_ended ended = true
is_ended _ = false

abbrev pub is_with_result : AttemptState → Bool
is_with_result with_result = true
is_with_result _ = false

abbrev pub nothing_observed : Option AttemptEnd → Bool
nothing_observed none = false
nothing_observed (some e) = elim e.effect [
  | none ↦ false
  | some f ↦ elim f [ none_observed ↦ true | _ ↦ false ]
]

abbrev pub something_open : Option AttemptEnd → Bool
something_open none = false
something_open (some e) = elim e.effect [
  | none ↦ false
  | some f ↦ elim f [ partial ↦ true | unknown ↦ true | _ ↦ false ]
]

-- The fences of the attempts are 1, 2, ... in the order in which the attempts started.
abbrev pub Numbered : List Attempt → Type 0
Numbered [] = Unit
Numbered (a ∷ older) = (a.fence ≡ suc (length older)) × Numbered older

abbrev pub AllEnded : List Attempt → Type 0
AllEnded [] = Unit
AllEnded (a ∷ older) = (is_ended a.state ≡ true) × AllEnded older

-- Every attempt but the newest has ended, without a result.
abbrev pub OlderEnded : List Attempt → Type 0
OlderEnded [] = Unit
OlderEnded (a ∷ older) = AllEnded older

-- The state of a delivery says of its newest attempt what that attempt says.
abbrev pub fits : DeliveryState → List Attempt → Bool
fits delivered [] = true
fits delivered (a ∷ older) = is_ended a.state && nothing_observed a.end
fits attempt_active [] = false
fits attempt_active (a ∷ older) = is_active_attempt a.state
fits reconciliation_required [] = false
fits reconciliation_required (a ∷ older) = is_ended a.state && something_open a.end
fits result_recorded [] = false
fits result_recorded (a ∷ older) = is_with_result a.state
fits cancelled [] = true
fits cancelled (a ∷ older) = is_ended a.state

-- A delivery with a cancel intent is running, done or cancelled.
abbrev pub after_cancel : DeliveryState → Bool
after_cancel attempt_active = true
after_cancel result_recorded = true
after_cancel cancelled = true
after_cancel _ = false

-- A recorded result is that of the newest attempt.
abbrev pub ResultMatches : Option Recorded → List Attempt → Type 0
ResultMatches none attempts = Unit
ResultMatches (some r) [] = ⊥
ResultMatches (some r) (a ∷ older) =
    (a.fence ≡ r.fence) × (a.attempt_ref ≡ r.attempt_ref) × (a.result_id ≡ some r.result_id)

pub record IsConsistent (d : Delivery) : Type 0 where
  pub fence_counts : d.fence ≡ length d.attempts
  pub numbered : Numbered d.attempts
  pub within : length d.attempts ≤ max_attempts
  pub older_ended : OlderEnded d.attempts
  pub state_fits : fits d.state d.attempts ≡ true
  pub result_matches : ResultMatches d.result d.attempts
  pub result_iff : has_value d.result ≡ is_result_recorded d.state
  pub cancel_state : has_value d.cancel ≡ true → after_cancel d.state ≡ true
  pub cancelled_cause : d.state ≡ cancelled → has_value d.cancel ≡ true

-- An attempt at the head of the list that is active is closed.
pub close_attempt-IsConsistent :
    (d : Delivery) (a : Attempt) (older : List Attempt) (o : Observation) (now : ℕ) (how : EndHow)
    (outcome : Option Outcome) (note : String)
    → IsConsistent d
    → d.attempts ≡ a ∷ older
    → is_active_attempt a.state ≡ true
    → IsConsistent (close_attempt d a (λ c. c ∷ older) o now how outcome note)
unfolding close_attempt has_value
close_attempt-IsConsistent d a older o now how outcome note h e act = ground arith
