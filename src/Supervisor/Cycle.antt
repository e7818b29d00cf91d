-- ===== src/Supervisor/Cycle.antt =====
-- supervisor.py: the budget of restarts, the classes of failures and one recovery cycle. What the release
-- check, the policy file, the credential check, the Doctor, launchctl and the incident files answer in a
-- cycle is a parameter. An instant is a number of microseconds.
use universal_agent_middlewa.Prelude.{
  ℕ, suc, ◌+◌, String, Bool, true, false, not, ◌||◌, Option, none, some, List, [], ◌∷◌, ◌++◌, any,
  keep, length, ltb, leb, str_eq, if◌then◌else◌,
}
use universal_agent_middlewa.Prelude.Dict.{Dict, get}

pub data Action : Type 0 where
  freeze log_only restart_tunnel : Action

pub record Policy : Type 0 where
  pub action : Action
  pub max_attempts : ℕ
  pub window : ℕ

-- budget.json: not there, not what it should be, or the times of the restarts, in their order.
pub data Budget : Type 0 where
  absent invalid : Budget
  restarts_at : List ℕ → Budget

pub data Overall : Type 0 where
  ready degraded failed frozen unknown : Overall

-- One entry of the Doctor's `checks`.
pub record Check : Type 0 where
  pub status : String
  pub uncertain : Bool
  pub failure_class : Option String

pub record Report : Type 0 where
  pub overall : Overall
  pub checks : Dict Check
  pub failure_class : Option String

-- What launchctl does: the code that it returns is 0 or another one, it does not return in time, or it raises.
pub data Launch : Type 0 where
  accepted refused timed_out launch_raised : Launch

-- What the outside answers during one cycle.
pub record Answers : Type 0 where
  pub now : ℕ
  pub release_valid : Bool
  -- `load_policies`; `none` is an exception
  pub policies : Option (Dict Policy)
  -- `check_credential`: whether its status is PASS; `none` is an exception
  pub credential_passes : Option Bool
  -- `doctor_process`; `none` is an exception
  pub report : Option Report
  pub launched : Launch
  -- whether `_incident` returns
  pub incident_written : Bool

-- The files of the recovery root, and the restarts that were requested.
pub record Recovery : Type 0 where
  pub latch : Option String
  pub budget : Budget
  pub requested : ℕ
  pub status : Overall

-- P0_FAILURES
unfoldable pub is_p0 : String → Bool
is_p0 f = any (str_eq f) (
    "audit_integrity_failure" ∷ "credential_security_failure" ∷ "release_manifest_failure"
    ∷ "runtime_path_failure" ∷ "restart_storm" ∷ "recovery_state_failure" ∷ [])

abbrev pub default_policy : Policy
default_policy = record { action = log_only; max_attempts = 0; window = 0 }

-- `policy_for`: load_policies has seen to it that a P0 class is in the file, with the action freeze
unfoldable pub policy_for : Dict Policy → String → Policy
policy_for policies f = elim (get policies f) [ none ↦ default_policy | some p ↦ p ]

-- sum(t > now - window for t in entries)
unfoldable pub within : ℕ → ℕ → List ℕ → ℕ
within now window entries = length (keep (λ t. ltb now (t + window)) entries)

-- `consume_budget`: `none` is an exception
unfoldable pub consume_entries : List ℕ → Policy → ℕ → Option (Bool × Budget)
unfolding within
consume_entries entries p now =
    if any (λ t. ltb now t) entries
    then none
    else if leb p.max_attempts (within now p.window entries)
    then some (false, restarts_at entries)
    else some (true, restarts_at (entries ++ (now ∷ [])))

unfoldable pub consume_budget : Budget → Policy → ℕ → Option (Bool × Budget)
unfolding consume_entries
consume_budget invalid p now = none
consume_budget absent p now = elim (consume_entries [] p now) [
  | none ↦ none
  | some r ↦ if r.0 then some r else some (false, absent)
]
consume_budget (restarts_at entries) p now = consume_entries entries p now

-- the status of a check, and whether there is one
unfoldable pub status_is : Dict Check → String → String → Bool
status_is checks key s = elim (get checks key) [ none ↦ false | some c ↦ str_eq c.status s ]

unfoldable pub is_uncertain : Dict Check → String → Bool
is_uncertain checks key = elim (get checks key) [ none ↦ false | some c ↦ c.uncertain ]

-- key in checks and checks[key].get("status") != "PASS"
unfoldable pub is_present_and_bad : Dict Check → String → Bool
is_present_and_bad checks key = elim (get checks key) [
  | none ↦ false
  | some c ↦ not (str_eq c.status "PASS")
]

-- the loop over the four checks whose failure is a P0
unfoldable pub p0_of : Dict Check → Option String
unfolding is_present_and_bad
p0_of checks =
    if is_present_and_bad checks "audit_chain"
    then some "audit_integrity_failure"
    else if is_present_and_bad checks "runtime_paths"
    then some "runtime_path_failure"
    else if is_present_and_bad checks "release"
    then some "release_manifest_failure"
    else if is_present_and_bad checks "credential"
    then some "credential_security_failure"
    else none

-- failure_class in _COMPONENT_MAP
unfoldable pub is_known_class : String → Bool
unfolding is_p0
is_known_class f =
    is_p0 f
    || any (str_eq f) (
        "supervisor_cycle_timeout" ∷ "doctor_timeout" ∷ "doctor_output_invalid"
        ∷ "core_semantic_failure" ∷ "tunnel_unavailable" ∷ "tunnel_probe_uncertain"
        ∷ "reality_index_stale" ∷ "reality_index_missing" ∷ "reality_index_policy_mismatch"
        ∷ "reality_index_locked" ∷ "reality_index_integrity_failure"
        ∷ "reality_index_schema_incompatible" ∷ "workspace_degraded" ∷ [])

unfoldable pub index_class : Dict Check → String
unfolding is_known_class
index_class checks = elim (get checks "reality_index") [
  | none ↦ "reality_index_stale"
  | some c ↦ elim c.failure_class [
    | none ↦ "reality_index_stale"
    | some f ↦ if is_known_class f then f else "reality_index_stale"
  ]
]

-- `_classify`
unfoldable pub classify : Dict Check → String
unfolding status_is is_uncertain index_class
classify checks =
    if not (status_is checks "core" "PASS") || not (status_is checks "mcp" "PASS")
    then "core_semantic_failure"
    else if status_is checks "tunnel" "FAIL"
    then "tunnel_unavailable"
    else if is_uncertain checks "tunnel"
    then "tunnel_probe_uncertain"
    else if status_is checks "reality_index" "DEGRADED" || status_is checks "reality_index" "FAIL"
    then index_class checks
    else "workspace_degraded"

-- `_freeze`: the latch first; a failing incident receipt changes nothing else
unfoldable pub freeze_with : String → Recovery → Recovery
freeze_with failure r = record r { latch = some failure; status = frozen }

-- a step that ends with `_incident`, whose exception the cycle turns into a freeze
unfoldable pub log_incident : Answers → Overall → Recovery → Recovery
unfolding freeze_with
log_incident a overall r =
    if a.incident_written
    then record r { status = overall }
    else freeze_with "recovery_state_failure" r

-- `_restart_tunnel`; `requested` counts the calls of launchctl, which a timeout or an exception may have reached
unfoldable pub launch : Answers → Launch → Recovery → Recovery
unfolding log_incident freeze_with
launch a accepted r = log_incident a degraded r
launch a refused r = log_incident a failed r
launch a timed_out r = log_incident a failed r
launch a launch_raised r = freeze_with "recovery_state_failure" r

unfoldable pub restart : Answers → Recovery → Recovery
unfolding launch
restart a r = launch a a.launched (record r { requested = suc r.requested })

unfoldable pub spend : Answers → Recovery → Option (Bool × Budget) → Recovery
unfolding restart freeze_with
spend a r none = freeze_with "recovery_state_failure" r
spend a r (some (granted, left)) =
    if granted then restart a (record r { budget = left }) else freeze_with "restart_storm" r

unfoldable pub act_on : Answers → Report → Policy → Action → Recovery → Recovery
unfolding spend consume_budget log_incident
act_on a d p restart_tunnel r = spend a r (consume_budget r.budget p a.now)
act_on a d p freeze r = log_incident a d.overall r
act_on a d p log_only r = log_incident a d.overall r

unfoldable pub act : Answers → Report → Policy → Recovery → Recovery
unfolding act_on
act a d p r = act_on a d p p.action r

-- a failure class that is not empty
unfoldable pub has_class : Option String → Bool
has_class none = false
has_class (some f) = not (str_eq f "")

unfoldable pub on_overall : Answers → Dict Policy → Report → Overall → Recovery → Recovery
unfolding act freeze_with classify policy_for log_incident has_class
on_overall a policies d frozen r = freeze_with "runtime_path_failure" r
on_overall a policies d overall r =
    if has_class d.failure_class then log_incident a d.overall r else elim overall [
      | ready ↦ record r { status = ready }
      | _ ↦ act a d (policy_for policies (classify d.checks)) r
    ]

unfoldable pub on_p0 : Answers → Dict Policy → Report → Option String → Recovery → Recovery
unfolding on_overall
on_p0 a policies d (some failure) r = freeze_with failure r
on_p0 a policies d none r = on_overall a policies d d.overall r

-- what the cycle does with the Doctor's report, if there is one
unfoldable pub diagnose : Answers → Dict Policy → Option Report → Recovery → Recovery
unfolding on_p0 p0_of
diagnose a policies none r = freeze_with "recovery_state_failure" r
diagnose a policies (some d) r = on_p0 a policies d (p0_of d.checks) r

unfoldable pub on_credential : Answers → Dict Policy → Option Bool → Recovery → Recovery
unfolding diagnose
on_credential a policies none r = freeze_with "recovery_state_failure" r
on_credential a policies (some passes) r =
    if passes then diagnose a policies a.report r else freeze_with "credential_security_failure" r

unfoldable pub on_policies : Answers → Option (Dict Policy) → Recovery → Recovery
unfolding on_credential
on_policies a none r = freeze_with "recovery_state_failure" r
on_policies a (some policies) r = on_credential a policies a.credential_passes r

unfoldable pub on_latch : Answers → Option String → Recovery → Recovery
unfolding on_policies
on_latch a (some failure) r = record r { status = frozen }
on_latch a none r =
    if not a.release_valid
    then freeze_with "release_manifest_failure" r
    else on_policies a a.policies r

-- `run_cycle`
unfoldable pub run_cycle : Answers → Recovery → Recovery
unfolding on_latch
run_cycle a r = on_latch a r.latch r

unfoldable pub run_cycles : List Answers → Recovery → Recovery
run_cycles [] r = r
run_cycles (a ∷ later) r = run_cycles later (run_cycle a r)
