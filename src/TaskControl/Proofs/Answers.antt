-- ===== src/TaskControl/Proofs/Answers.antt =====
-- What the outcome of `cancel` in task_control.py says of the delivery and of the store that it leaves.
use universal_agent_middlewa.Prelude.{ℕ, ◌≡◌, Bool, true, false, some, ◌⊎◌}
use universal_agent_middlewa.Prelude.Dict.{get}
use universal_agent_middlewa.TaskControl.Model.{
  Delivery, cancelled, is_attempt_active, is_result_recorded,
}
use universal_agent_middlewa.TaskControl.Rules.{has_value, has_expired}
use universal_agent_middlewa.TaskControl.Wire.{
  CancelOutcome, too_late, cancel_already_recorded, intent_recorded_attempt_active, cancel_done,
}
use universal_agent_middlewa.TaskControl.Port.{World, Env}

-- The store of `v` holds `e` as the delivery that `d` was before.
abbrev pub IsStored : Delivery → Delivery → World → Type 0
IsStored d e v = get v.deliveries d.delivery_id ≡ some e

-- What each outcome of a `cancel` of `d` at `moment` says of the delivery `e` and of the world `v` that it leaves.
abbrev pub Says : Delivery → ℕ → CancelOutcome → Delivery → World → Type 0
Says d moment too_late e v = (is_result_recorded d.state ≡ true) × (e ≡ d)
Says d moment cancel_already_recorded e v =
    (has_value d.cancel ≡ true)
    × (has_value e.cancel ≡ true)
    × ((e ≡ d) ⊎ ((has_expired d.attempts moment ≡ true) × IsStored d e v))
Says d moment intent_recorded_attempt_active e v =
    (has_value e.cancel ≡ true) × (is_attempt_active e.state ≡ true) × IsStored d e v
Says d moment cancel_done e v =
    (has_value e.cancel ≡ true)
    × (e.state ≡ cancelled)
    × IsStored d e v
    × ((is_attempt_active d.state ≡ false) ⊎ (has_expired d.attempts moment ≡ true))

-- `e` is the delivery `d` with the same identifier and, if `d` had one, an intent to cancel.
abbrev Follows : Delivery → Delivery → Type 0
Follows d e = (e.delivery_id ≡ d.delivery_id) × (has_value e.cancel ≡ has_value d.cancel)

module _ (env : Env) where
  -- The expired attempt was closed, or nothing was changed.
  abbrev Closes : Delivery → ℕ → Delivery × Bool → Type 0
  Closes d moment p =
      Follows d p.0 × ((p ≡ (d, false)) ⊎ ((p.1 ≡ true) × (has_expired d.attempts moment ≡ true)))

module _ (env : Env) (d : Delivery) (moment : ℕ) where
  -- no attempt of the delivery is active, or the lease of the active one has run out
  abbrev IsIdle : Type 0
  IsIdle = (is_attempt_active d.state ≡ false) ⊎ (has_expired d.attempts moment ≡ true)

  -- the delivery that a cancel settles
  abbrev IsIntended : Delivery → Type 0
  IsIntended x =
      (x.delivery_id ≡ d.delivery_id)
      × (has_value x.cancel ≡ true)
      × (is_attempt_active x.state ≡ false → IsIdle)
