-- ===== src/TaskControl/Rules.antt =====
-- The rules of task_control.py on one delivery record, with what was observed as an argument: the
-- effect of an observation, events, the active attempt, and how an attempt is closed.
use universal_agent_middlewa.Prelude.{
  ℕ, String, Bool, true, false, ◌&&◌, ◌||◌, not, Option, none, some, List, [], ◌∷◌, leb, ◌==◌,
  if◌then◌else◌, str_eq, take,
}
use universal_agent_middlewa.TaskControl.Model.{
  DeliveryState, delivered, reconciliation_required, cancelled, Effect, not_started, none_observed,
  partial, unknown, recorded, ended, Outcome, EndHow, lease_expired, reported, BaselineState,
  unchanged, changed, unobservable, not_found, result_already_recorded, cancelled_delivery,
  fence_mismatch, attempt_not_active, Observation, Attempt, Cancel, EventType, attempt_ended, Event,
  Delivery, is_active_attempt, is_result_recorded, is_cancelled,
}
use universal_agent_middlewa.TaskControl.Result.{Result, ok, err}

-- `_effect_of`
unfoldable pub effect_of : BaselineState → Effect
effect_of unchanged = none_observed
effect_of changed = partial
effect_of unobservable = unknown

-- `_summary`
unfoldable pub summary : Observation → Observation
summary o = record o {
  changed_names = take 20 o.changed_names;
  unknown_names = take 20 o.unknown_names;
}

-- What `_observe` answers when the contract cannot be read.
unfoldable pub contract_missing_observation : Observation
contract_missing_observation = record {
  state = unobservable;
  observed_at = none;
  changed_names = [];
  unknown_names = [];
  limits = [];
  reason = some "contract_missing";
}

-- An event with no details.
unfoldable pub event : ℕ → EventType → String → Event
event now kind principal = record {
  at = now;
  kind = kind;
  principal = principal;
  attempt_ref = none;
  fence = none;
  how = none;
  reported_outcome = none;
  effect = none;
  result_id = none;
  review = none;
  after_cancel_request = none;
}

-- The active attempt of a list, newest first: its head, if that is active.
unfoldable pub active_of : List Attempt → Option Attempt
active_of [] = none
active_of (a ∷ older) = if is_active_attempt a.state then some a else none

-- `_active`
unfoldable pub active_attempt_of : Delivery → Option Attempt
unfolding active_of
active_attempt_of d = active_of d.attempts

-- `_closer_of`
unfoldable pub closer_of : Delivery → EndHow → String
closer_of d reported = d.recipient
closer_of d _ = "uam"

-- The state after an attempt ended: a cancelled delivery is cancelled, one with no effect observed is
-- offered again, any other has to be reconciled.
unfoldable pub state_after : Option Cancel → Effect → DeliveryState
state_after (some _) effect = cancelled
state_after none none_observed = delivered
state_after none _ = reconciliation_required

-- `_close_attempt`, with the observation that it makes. `put_back` is the list of attempts with the
-- changed one in its place.
unfoldable pub close_attempt :
    Delivery
    → Attempt
    → (Attempt → List Attempt)
    → Observation
    → ℕ
    → EndHow
    → Option Outcome
    → String
    → Delivery
unfolding effect_of summary event closer_of state_after
close_attempt d a put_back observation now how outcome note =
    let effect : Effect = effect_of observation.state in
    let closed : Attempt = record a {
      state = ended;
      end = some (record {
        how = how;
        reported_outcome = outcome;
        note = note;
        effect = some effect;
        observation = some (summary observation);
        ended_at = now;
      });
    } in
    record d {
      attempts = put_back closed;
      state = state_after d.cancel effect;
      events =
          record (event now attempt_ended (closer_of d how)) {
            attempt_ref = some a.attempt_ref;
            how = some how;
            reported_outcome = outcome;
            effect = some effect;
          }
          ∷ d.events;
    }

-- The test of `_close_expired_attempt`: an active attempt whose lease has run out.
unfoldable pub has_expired : List Attempt → ℕ → Bool
has_expired [] now = false
has_expired (a ∷ older) now = is_active_attempt a.state && leb a.lease_expires_at now

-- `attempt` is `delivery["attempts"][-1]`, so the changed one is put back at the head.
unfoldable pub close_newest : Delivery → List Attempt → Observation → ℕ → Delivery
unfolding close_attempt
close_newest d [] observation now = d
close_newest d (a ∷ older) observation now =
    close_attempt d a (λ closed. closed ∷ older) observation now lease_expired none ""

-- next((item for item in attempts if item["attempt_ref"] == attempt_ref), None): the oldest match
unfoldable pub find_attempt : String → List Attempt → Option Attempt
find_attempt ref [] = none
find_attempt ref (a ∷ older) = elim (find_attempt ref older) [
  | some b ↦ some b
  | none ↦ if str_eq a.attempt_ref ref then some a else none
]

-- The list after the attempt that `find_attempt` found was changed in place.
unfoldable pub write_attempt : String → Attempt → List Attempt → List Attempt
unfolding find_attempt
write_attempt ref changed_attempt [] = []
write_attempt ref changed_attempt (a ∷ older) = elim (find_attempt ref older) [
  | some _ ↦ a ∷ write_attempt ref changed_attempt older
  | none ↦ if str_eq a.attempt_ref ref then changed_attempt ∷ older else a ∷ older
]

-- the checks of `_active_attempt` on the attempt that was found
check_attempt : ℕ → ℕ → Option Attempt → Result Attempt
check_attempt delivery_fence fence none = err not_found
check_attempt delivery_fence fence (some a) =
    if not (a.fence == fence) || not (delivery_fence == fence)
    then err fence_mismatch
    else if is_active_attempt a.state
    then ok a
    else err attempt_not_active

-- `_active_attempt`
unfoldable pub require_active_attempt : Delivery → String → ℕ → Result Attempt
unfolding check_attempt
require_active_attempt d ref fence = check_attempt d.fence fence (find_attempt ref d.attempts)

unfoldable pub has_value : {A : Type 0} → Option A → Bool
has_value none = false
has_value (some _) = true

-- `_require_open`
unfoldable pub require_open : Delivery → Result (Unit {0})
unfolding has_value
require_open d =
    if is_result_recorded d.state
    then err result_already_recorded
    else if has_value d.cancel || is_cancelled d.state
    then err cancelled_delivery
    else ok tt

-- What UAM says of the effect of a delivery: `_effect_of_delivery`; `none` is an exception.
effect_of_attempt : Attempt → Option Effect
effect_of_attempt a =
    if is_active_attempt a.state
    then some unknown
    else elim a.end [ some e ↦ e.effect | none ↦ none ]

effect_of_attempts : List Attempt → Option Effect
unfolding effect_of_attempt
effect_of_attempts [] = some not_started
effect_of_attempts (a ∷ older) = effect_of_attempt a

unfoldable pub effect_of_delivery : Delivery → Option Effect
unfolding effect_of_attempts has_value
effect_of_delivery d = if has_value d.result then some recorded else effect_of_attempts d.attempts
