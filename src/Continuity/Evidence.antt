-- ===== src/Continuity/Evidence.antt =====
-- Stop evidence, and what the record of a delivery alone permits: the rules of task_continuity.py. `none` is the
-- exception that an attempt raises whose record lacks the end that the code reads.
use universal_agent_middlewa.Prelude.{
  ℕ, String, Bool, true, false, not, ◌&&◌, ◌||◌, Option, none, some, List, [], ◌∷◌, ◌++◌, leb,
  length, if◌then◌else◌,
}
use universal_agent_middlewa.TaskControl.Model.{
  Outcome, AttemptState, active, ended, with_result, EndHow, lease_expired, handed_over, reported,
  Effect, none_observed, AttemptEnd, is_result_recorded, is_cancelled, is_reconciliation_required,
  is_active_attempt, max_attempts,
}
use universal_agent_middlewa.Continuity.Model.{
  Stop, active_not_confirmed, self_reported, self_reported_late, not_confirmed_lease_expired,
  not_confirmed_handed_over, result_is_recorded, no_attempt, Attempt, LateStop, LateReceipt,
  Delivery, Blocker, blocked_by_result, blocked_by_cancel, blocked_by_active, stop_not_confirmed,
  blocked_by_limit,
}

unfoldable pub has : {A : Type 0} → Option A → Bool
has none = false
has (some a) = true

-- STOP_NOT_CONFIRMED
unfoldable pub not_confirmed : EndHow → Option Stop
not_confirmed lease_expired = some not_confirmed_lease_expired
not_confirmed handed_over = some not_confirmed_handed_over
not_confirmed _ = none

-- the closure of an attempt that ended
unfoldable pub stop_of_how : EndHow → Bool → Option Stop
stop_of_how reported late = some self_reported
stop_of_how how true = some self_reported_late
stop_of_how how false = not_confirmed how

unfoldable pub stop_of_end : Option AttemptEnd → Bool → Option Stop
stop_of_end none late = none
stop_of_end (some e) late = stop_of_how e.how late

unfoldable pub stop_of : AttemptState → Option AttemptEnd → Bool → Option Stop
stop_of active e late = some active_not_confirmed
stop_of with_result e late = some result_is_recorded
stop_of ended e late = stop_of_end e late

-- `attempt_stop_evidence`
unfoldable pub attempt_stop_evidence : Attempt → Option Stop
attempt_stop_evidence a = stop_of a.state a.end (has a.late_stop_report)

unfoldable pub stop_of_attempts : List Attempt → Option Stop
stop_of_attempts [] = some no_attempt
stop_of_attempts (a ∷ attempts) = attempt_stop_evidence a

-- `delivery_stop_evidence`
unfoldable pub delivery_stop_evidence : Delivery → Option Stop
delivery_stop_evidence d =
    if has d.result then some result_is_recorded else stop_of_attempts d.attempts

-- how in UNCONFIRMED_ENDS
unfoldable pub is_unconfirmed_how : EndHow → Bool
is_unconfirmed_how lease_expired = true
is_unconfirmed_how handed_over = true
is_unconfirmed_how _ = false

unfoldable pub unconfirmed_how : Option AttemptEnd → Bool → Option (Option EndHow)
unconfirmed_how none late = none
unconfirmed_how (some e) late =
    some (if is_unconfirmed_how e.how && not late then some e.how else none)

unfoldable pub unconfirmed_of : AttemptState → Option AttemptEnd → Bool → Option (Option EndHow)
unconfirmed_of ended e late = unconfirmed_how e late
unconfirmed_of _ e late = some none

-- `unconfirmed_end`: `some none` is None
unfoldable pub unconfirmed_end : Attempt → Option (Option EndHow)
unconfirmed_end a = unconfirmed_of a.state a.end (has a.late_stop_report)

unfoldable pub blocker_of : Option (Option EndHow) → Option (List Blocker)
blocker_of none = none
blocker_of (some none) = some []
blocker_of (some (some how)) = some (stop_not_confirmed how ∷ [])

unfoldable pub stop_blockers_of : List Attempt → Option (List Blocker)
stop_blockers_of [] = some []
stop_blockers_of (a ∷ attempts) = blocker_of (unconfirmed_end a)

-- `stop_blockers`
unfoldable pub stop_blockers : Delivery → Option (List Blocker)
stop_blockers d = stop_blockers_of d.attempts

unfoldable pub when : Bool → Blocker → List Blocker
when true b = b ∷ []
when false b = []

unfoldable pub is_last_active : List Attempt → Bool
is_last_active [] = false
is_last_active (a ∷ attempts) = is_active_attempt a.state

-- What `new_effect_permission` says that varies.
pub record Permission : Type 0 where
  pub record_permits_new_attempt : Bool
  pub blockers : List Blocker
  pub reconciliation_pending : Bool

unfoldable pub is_nil : {A : Type 0} → List A → Bool
is_nil [] = true
is_nil (x ∷ l) = false

-- the blockers in their order
unfoldable pub blockers_of : Delivery → List Blocker → List Blocker
blockers_of d stops =
    when (has d.result || is_result_recorded d.state) blocked_by_result
    ++ when (has d.cancel || is_cancelled d.state) blocked_by_cancel
    ++ when (is_last_active d.attempts) blocked_by_active
    ++ stops
    ++ when (leb max_attempts (length d.attempts)) blocked_by_limit

unfoldable pub permission_with : Delivery → Option (List Blocker) → Option Permission
permission_with d none = none
permission_with d (some stops) = some (record {
  record_permits_new_attempt = is_nil (blockers_of d stops);
  blockers = blockers_of d stops;
  reconciliation_pending = is_reconciliation_required d.state;
})

-- `new_effect_permission`
unfoldable pub new_effect_permission : Delivery → Option Permission
new_effect_permission d = permission_with d (stop_blockers d)

-- What `evidence_ingestion` lists.
pub data Ingested : Type 0 where
  -- attempt_ref, executor
  a_late_receipt : String → String → LateReceipt → Ingested
  a_late_stop_report : String → String → Outcome → ℕ → Ingested

unfoldable pub receipt_log : Attempt → Option LateReceipt → List Ingested
receipt_log a none = []
receipt_log a (some r) = a_late_receipt a.attempt_ref a.executor r ∷ []

unfoldable pub stop_log : Attempt → Option LateStop → List Ingested
stop_log a none = []
stop_log a (some s) = a_late_stop_report a.attempt_ref a.executor s.outcome s.reported_at ∷ []

-- `evidence_ingestion`, newest first as the attempts are
unfoldable pub ingested_of : List Attempt → List Ingested
ingested_of [] = []
ingested_of (a ∷ attempts) =
    stop_log a a.late_stop_report ++ receipt_log a a.late_receipt ++ ingested_of attempts

unfoldable pub evidence_ingestion : Delivery → List Ingested
evidence_ingestion d = ingested_of d.attempts

-- in _CONFIRMED_STOPS
unfoldable pub is_confirmed : Stop → Bool
is_confirmed self_reported = true
is_confirmed self_reported_late = true
is_confirmed result_is_recorded = true
is_confirmed _ = false

unfoldable pub is_open_stop : Option Stop → Option Bool
is_open_stop none = none
is_open_stop (some s) = some (not (is_confirmed s))

-- an older attempt that is open or cannot be read ends the search
unfoldable pub or_newer : Option Bool → Option Bool → Option Bool
or_newer none newer = none
or_newer (some true) newer = some true
or_newer (some false) newer = newer

-- any(attempt_stop_evidence(attempt) not in _CONFIRMED_STOPS ...), the oldest first
unfoldable pub any_unconfirmed : List Attempt → Option Bool
any_unconfirmed [] = some false
any_unconfirmed (a ∷ attempts) =
    or_newer (any_unconfirmed attempts) (is_open_stop (attempt_stop_evidence a))

unfoldable pub effect_open : Option Effect → Option Bool
effect_open none = none
effect_open (some none_observed) = some false
effect_open (some _) = some true

unfoldable pub end_open : Option AttemptEnd → Option Bool
end_open none = none
end_open (some e) = effect_open e.effect

-- last["state"] != ATTEMPT_ENDED or last["end"]["effect"] != EFFECT_NONE_OBSERVED
unfoldable pub last_open : AttemptState → Option AttemptEnd → Option Bool
last_open ended e = end_open e
last_open _ e = some true

unfoldable pub unresolved_of : List Attempt → Option Bool
unresolved_of [] = some false
unresolved_of (a ∷ attempts) = or_newer (last_open a.state a.end) (any_unconfirmed (a ∷ attempts))

-- `is_unresolved`
unfoldable pub is_unresolved : Delivery → Option Bool
is_unresolved d = if is_result_recorded d.state then some false else unresolved_of d.attempts
