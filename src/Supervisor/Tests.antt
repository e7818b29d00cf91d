-- ===== src/Supervisor/Tests.antt =====
-- Runs of the model of supervisor.py: a tunnel that is down, with a budget of two restarts.
use universal_agent_middlewa.Prelude.{◌≡◌, ◌≤◌, refl, String, true, false, none, some, [], ◌∷◌}
use universal_agent_middlewa.Prelude.Dict.{get}
use universal_agent_middlewa.Supervisor.Cycle.{
  Policy, restart_tunnel, restarts_at, failed, accepted, ready, Answers, Recovery, Check, within,
  consume_budget, classify, run_cycle, run_cycles,
}
use universal_agent_middlewa.Supervisor.Proofs.{
  StaysFrozen, run_cycles-StaysFrozen, consume_budget-within, MayRestart, run_cycle-MayRestart,
}

abbrev check : String → Check
check status = record { status = status; uncertain = false; failure_class = none }

abbrev policy : Policy
policy = record { action = restart_tunnel; max_attempts = 2; window = 100 }

abbrev answers : Answers
answers = record {
  now = 50;
  release_valid = true;
  policies = some (("tunnel_unavailable", policy) ∷ []);
  credential_passes = some true;
  report = some (record {
    overall = failed;
    checks = ("core", check "PASS") ∷ ("mcp", check "PASS") ∷ ("tunnel", check "FAIL") ∷ [];
    failure_class = none;
  });
  launched = accepted;
  incident_written = true;
}

abbrev running : Recovery
running = record { latch = none; budget = restarts_at (10 ∷ []); requested = 1; status = ready }

abbrev latched : Recovery
latched = record running { latch = some "restart_storm" }

run_cycles-StaysFrozen_example :
    StaysFrozen "restart_storm" latched (run_cycles (answers ∷ answers ∷ []) latched)
run_cycles-StaysFrozen_example =
    run_cycles-StaysFrozen (answers ∷ answers ∷ []) latched "restart_storm" refl

granted : consume_budget (restarts_at (10 ∷ [])) policy 50 ≡ some (true, restarts_at (10 ∷ 50 ∷ []))
unfolding consume_budget
granted = refl

consume_budget-within_example : within 50 100 (10 ∷ 50 ∷ []) ≤ 2
consume_budget-within_example = consume_budget-within (restarts_at (10 ∷ [])) policy 50 granted

requested : (run_cycle answers running).requested ≡ 2
unfolding run_cycle classify get
requested = refl

run_cycle-MayRestart_example : MayRestart answers running
run_cycle-MayRestart_example = run_cycle-MayRestart answers running requested
