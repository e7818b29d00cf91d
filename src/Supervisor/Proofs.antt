-- ===== src/Supervisor/Proofs.antt =====
-- What supervisor.py's cycle may do: the latch holds, restarts are bounded, and their conditions.
use universal_agent_middlewa.Prelude.{
  ℕ, suc, ◌≤◌, ◌<◌, ◌≡◌, refl, sym, ap, ◌∙◌, String, Bool, true, false, not, Option, none, some,
  List, [], ◌∷◌, ◌++◌, if◌then◌else◌, arith,
}
use universal_agent_middlewa.Prelude.Dict.{Dict}
use universal_agent_middlewa.Supervisor.Cycle.{
  Policy, Action, restart_tunnel, freeze, log_only, Budget, absent, invalid, restarts_at, Overall,
  ready, degraded, failed, frozen, unknown, Answers, Report, Recovery, within, consume_entries,
  consume_budget, p0_of, classify, policy_for, freeze_with, log_incident, spend, act_on, act,
  has_class, on_overall, on_p0, diagnose, on_credential, on_policies, on_latch, run_cycle,
  run_cycles,
}

-- What a frozen recovery root keeps.
pub record StaysFrozen (f : String) (r s : Recovery) : Type 0 where
  pub latch : s.latch ≡ some f
  pub budget : s.budget ≡ r.budget
  pub requested : s.requested ≡ r.requested

latched_cycle :
    (a : Answers) (r : Recovery) (f : String)
    → r.latch ≡ some f
    → run_cycle a r ≡ record r { status = frozen }
unfolding run_cycle on_latch
latched_cycle a r f h = ap (λ o. on_latch a o r) h

-- Once the latch is set, no sequence of cycles removes it, requests a restart or spends the budget,
-- whatever the Doctor and the other checks answer.
pub run_cycles-StaysFrozen :
    (later : List Answers) (r : Recovery) (f : String)
    → r.latch ≡ some f
    → StaysFrozen f r (run_cycles later r)
unfolding run_cycles
run_cycles-StaysFrozen [] r f h = record { latch = h; budget = refl; requested = refl }
run_cycles-StaysFrozen (a ∷ later) r f h =
    let e = latched_cycle a r f h in
    let rest = run_cycles-StaysFrozen later (run_cycle a r) f (ap (λ x. x.latch) e ∙ h) in
    record {
      latch = rest.latch;
      budget = rest.budget ∙ ap (λ x. x.budget) e;
      requested = rest.requested ∙ ap (λ x. x.requested) e;
    }

within-append :
    (now window : ℕ) (l : List ℕ) → within now window (l ++ (now ∷ [])) ≤ suc (within now window l)
unfolding within
within-append now window [] = ground arith
within-append now window (t ∷ l) = ground (arith, within-append now window l)

granted_entries :
    (l : List ℕ) (p : Policy) (now : ℕ) {m : List ℕ}
    → consume_entries l p now ≡ some (true, restarts_at m)
    → (m ≡ l ++ (now ∷ [])) × (within now p.window l < p.max_attempts)
unfolding consume_entries
granted_entries l p now h = ground arith

bounded :
    (l : List ℕ) (p : Policy) (now : ℕ) {m : List ℕ}
    → consume_entries l p now ≡ some (true, restarts_at m)
    → within now p.window m ≤ p.max_attempts
bounded l p now h =
    let (grown, room) = granted_entries l p now h in
    rw grown (omega (arith, within-append now p.window l))

-- When the budget grants a restart, the restarts that it then has on record within the window that ends
-- at that instant are at most the allowed ones.
pub consume_budget-within :
    (b : Budget) (p : Policy) (now : ℕ) {m : List ℕ}
    → consume_budget b p now ≡ some (true, restarts_at m)
    → within now p.window m ≤ p.max_attempts
unfolding consume_budget
consume_budget-within invalid p now h = cc
consume_budget-within (restarts_at l) p now h = bounded l p now h
consume_budget-within absent p now h = bounded [] p now (ground arith)

-- What held in a cycle that requested a restart.
pub record MayRestart (a : Answers) (r : Recovery) : Type 0 where
  pub unlatched : r.latch ≡ none
  pub release : a.release_valid ≡ true
  pub credential : a.credential_passes ≡ some true
  pub report : Report
  pub reported : a.report ≡ some report
  pub no_p0 : p0_of report.checks ≡ none
  pub diagnosed : has_class report.failure_class ≡ false
  pub policies : Dict Policy
  pub read : a.policies ≡ some policies
  pub asked : (policy_for policies (classify report.checks)).action ≡ restart_tunnel
  pub left : Budget
  pub granted :
      consume_budget r.budget (policy_for policies (classify report.checks)) a.now
      ≡ some (true, left)

next_differs : {n : ℕ} → n ≡ suc n → ⊥
next_differs h = omega arith

-- Of two ways to go on, the one that requests no restart was not taken.
took_second :
    (b : Bool) (x y : Recovery) (n : ℕ)
    → x.requested ≡ n
    → (if b then x else y).requested ≡ suc n
    → (b ≡ false) × (y.requested ≡ suc n)
took_second true x y n e h = absurd (next_differs (sym e ∙ h))
took_second false x y n e h = (refl, h)

took_first :
    (b : Bool) (x y : Recovery) (n : ℕ)
    → y.requested ≡ n
    → (if b then x else y).requested ≡ suc n
    → (b ≡ true) × (x.requested ≡ suc n)
took_first true x y n e h = (refl, h)
took_first false x y n e h = absurd (next_differs (sym e ∙ h))

spent :
    (a : Answers) (r : Recovery) (o : Option (Bool × Budget))
    → (spend a r o).requested ≡ suc r.requested
    → (left : Budget) × (o ≡ some (true, left))
unfolding spend freeze_with
spent a r none h = absurd (next_differs h)
spent a r (some (true, left)) h = (left, refl)
spent a r (some (false, left)) h = absurd (next_differs h)

log_requested :
    (a : Answers) (o : Overall) (r : Recovery) → (log_incident a o r).requested ≡ r.requested
unfolding log_incident freeze_with
log_requested a o r = ground arith

freeze_requested : (f : String) (r : Recovery) → (freeze_with f r).requested ≡ r.requested
unfolding freeze_with
freeze_requested f r = refl

acted :
    (a : Answers) (d : Report) (p : Policy) (x : Action) (r : Recovery)
    → (act_on a d p x r).requested ≡ suc r.requested
    → (x ≡ restart_tunnel) × (left : Budget) × (consume_budget r.budget p a.now ≡ some (true, left))
unfolding act_on
acted a d p restart_tunnel r h =
    let (left, granted) = spent a r (consume_budget r.budget p a.now) h in (refl, left, granted)
acted a d p freeze r h = absurd (next_differs (sym (log_requested a d.overall r) ∙ h))
acted a d p log_only r h = absurd (next_differs (sym (log_requested a d.overall r) ∙ h))

-- The part of `MayRestart` that follows the Doctor's report.
record Decided (a : Answers) (policies : Dict Policy) (d : Report) (r : Recovery) : Type 0 where
  diagnosed : has_class d.failure_class ≡ false
  asked : (policy_for policies (classify d.checks)).action ≡ restart_tunnel
  left : Budget
  granted :
      consume_budget r.budget (policy_for policies (classify d.checks)) a.now ≡ some (true, left)

decided :
    (a : Answers) (policies : Dict Policy) (d : Report) (r : Recovery)
    → (if has_class d.failure_class
        then log_incident a d.overall r
        else act a d (policy_for policies (classify d.checks)) r).requested
      ≡ suc r.requested
    → Decided a policies d r
unfolding act
decided a policies d r h =
    let p = policy_for policies (classify d.checks) in
    let (diagnosed, h1) =
      took_second (has_class d.failure_class) (log_incident a d.overall r) (act a d p r) r.requested
        (log_requested a d.overall r) h in
    let (asked, left, granted) = acted a d p p.action r h1 in
    record { diagnosed = diagnosed; asked = asked; left = left; granted = granted }

overall-Decided :
    (a : Answers) (policies : Dict Policy) (d : Report) (o : Overall) (r : Recovery)
    → (on_overall a policies d o r).requested ≡ suc r.requested
    → Decided a policies d r
unfolding on_overall
overall-Decided a policies d frozen r h =
    absurd (next_differs (sym (freeze_requested "runtime_path_failure" r) ∙ h))
overall-Decided a policies d ready r h =
    let (diagnosed, h1) =
      took_second (has_class d.failure_class) (log_incident a d.overall r)
        (record r { status = ready }) r.requested (log_requested a d.overall r) h in
    absurd (next_differs h1)
overall-Decided a policies d degraded r h = decided a policies d r h
overall-Decided a policies d failed r h = decided a policies d r h
overall-Decided a policies d unknown r h = decided a policies d r h

p0-Decided :
    (a : Answers) (policies : Dict Policy) (d : Report) (o : Option String) (r : Recovery)
    → (on_p0 a policies d o r).requested ≡ suc r.requested
    → (o ≡ none) × Decided a policies d r
unfolding on_p0
p0-Decided a policies d none r h = (refl, overall-Decided a policies d d.overall r h)
p0-Decided a policies d (some f) r h = absurd (next_differs (sym (freeze_requested f r) ∙ h))

diagnosed-MayRestart :
    (a : Answers) (policies : Dict Policy) (o : Option Report) (r : Recovery)
    → r.latch ≡ none
    → a.release_valid ≡ true
    → a.policies ≡ some policies
    → a.credential_passes ≡ some true
    → a.report ≡ o
    → (diagnose a policies o r).requested ≡ suc r.requested
    → MayRestart a r
unfolding diagnose
diagnosed-MayRestart a policies none r l v e c i h =
    absurd (next_differs (sym (freeze_requested "recovery_state_failure" r) ∙ h))
diagnosed-MayRestart a policies (some d) r l v e c i h =
    let (no_p0, x) = p0-Decided a policies d (p0_of d.checks) r h in
    record {
      unlatched = l;
      release = v;
      credential = c;
      report = d;
      reported = i;
      no_p0 = no_p0;
      diagnosed = x.diagnosed;
      policies = policies;
      read = e;
      asked = x.asked;
      left = x.left;
      granted = x.granted;
    }

credential-MayRestart :
    (a : Answers) (policies : Dict Policy) (o : Option Bool) (r : Recovery)
    → r.latch ≡ none
    → a.release_valid ≡ true
    → a.policies ≡ some policies
    → a.credential_passes ≡ o
    → (on_credential a policies o r).requested ≡ suc r.requested
    → MayRestart a r
unfolding on_credential
credential-MayRestart a policies none r l v e c h =
    absurd (next_differs (sym (freeze_requested "recovery_state_failure" r) ∙ h))
credential-MayRestart a policies (some passes) r l v e c h =
    let (passed, h1) =
      took_first passes (diagnose a policies a.report r)
        (freeze_with "credential_security_failure" r) r.requested
        (freeze_requested "credential_security_failure" r) h in
    diagnosed-MayRestart a policies a.report r l v e (c ∙ ap some passed) refl h1

policies-MayRestart :
    (a : Answers) (o : Option (Dict Policy)) (r : Recovery)
    → r.latch ≡ none
    → a.release_valid ≡ true
    → a.policies ≡ o
    → (on_policies a o r).requested ≡ suc r.requested
    → MayRestart a r
unfolding on_policies
policies-MayRestart a none r l v e h =
    absurd (next_differs (sym (freeze_requested "recovery_state_failure" r) ∙ h))
policies-MayRestart a (some policies) r l v e h =
    credential-MayRestart a policies a.credential_passes r l v e refl h

negated : (b : Bool) → not b ≡ false → b ≡ true
negated true h = refl
negated false h = sym h

latch-MayRestart :
    (a : Answers) (o : Option String) (r : Recovery)
    → r.latch ≡ o
    → (on_latch a o r).requested ≡ suc r.requested
    → MayRestart a r
unfolding on_latch
latch-MayRestart a (some f) r e h = absurd (next_differs h)
latch-MayRestart a none r e h =
    let (valid, h1) =
      took_second (not a.release_valid) (freeze_with "release_manifest_failure" r)
        (on_policies a a.policies r) r.requested (freeze_requested "release_manifest_failure" r)
        h in
    policies-MayRestart a a.policies r e (negated a.release_valid valid) refl h1

-- A cycle requests a restart only without a latch, with a valid release, a credential that passes, no P0
-- check that fails and no failure of the Doctor itself, when the policy of the class that was found asks for
-- it and the budget grants it.
pub run_cycle-MayRestart :
    (a : Answers) (r : Recovery) → (run_cycle a r).requested ≡ suc r.requested → MayRestart a r
unfolding run_cycle
run_cycle-MayRestart a r h = latch-MayRestart a r.latch r refl h
