-- ===== src/Consumer/Fixtures.antt =====
-- One policy, one contract and one delivery, for the runs of the consumer of consumer.py.
use universal_agent_middlewa.Prelude.{true, false, none, some, [], ◌∷◌}
use universal_agent_middlewa.Consumer.Journal.{attempt_intent}
use universal_agent_middlewa.Consumer.Rules.{Rule, Item}
use universal_agent_middlewa.Consumer.Port.{
  World, Env, absent, present, Contract, AttemptView, View, Outcome, started, answered,
  plain_record,
}

abbrev pub the_rule : Rule
the_rule = record {
  adapter = "local";
  cwd = some "/work";
  worker = none;
  session = none;
  lease_seconds = 600;
  max_micros = 60_000_000;
  verification_allowlist = "make test" ∷ [];
  owner_ref = some "owner";
  business_task_ref = none;
  business_task_ref_prefix = none;
  contract_id = none;
}

abbrev pub the_contract : Contract
the_contract = record {
  contract_id = "c-1";
  contract_digest = "d-1";
  workspace_id = "ws";
  objective = "write";
  expected_changes = "notes.md" ∷ [];
  authoritative_paths = [];
  allowed_change_paths = "notes.md" ∷ [];
  verification_commands = "make test" ∷ [];
  baseline_kind = "file-digests";
  baseline_files = ("notes.md", absent) ∷ [];
}

abbrev pub the_view : View
the_view = record {
  content_withheld = false;
  contract = some the_contract;
  attempts = [];
  owner_ref = some "owner";
  business_task_ref = some "task";
  contract_id = some "c-1";
  task_revision = 1;
}

abbrev pub the_attempt : AttemptView
the_attempt = record { attempt_ref = "att-1"; fence = 1; executor = "agent"; is_active = true }

abbrev pub the_outcome : Outcome
the_outcome = record { is_done = true; before_effect = false; note = ""; unresolved_risks = [] }

abbrev pub the_env : Env
the_env = record {
  principal = "agent";
  clock = λ n. n;
  backoff = 10;
  view_of = λ n id. some the_view;
  start = λ n id lease. started the_attempt;
  end_attempt = λ n c. answered;
  submit = λ n c. answered;
  policy = λ n. the_rule ∷ [];
  adapters = λ name. some (record { needs_session = false; known_worker = none });
  preflight = λ n name. none;
  is_absolute = λ path. true;
  resolve = λ path. path;
  root_of = λ n workspace. some "/work";
  target_locks = λ n workspace paths. true;
  run = λ n id attempt. record { announced = none; returned = some (true, none) };
  group_alive = λ n pgid. false;
  still_running = λ n l. some [];
  outcome_file = λ n dir. some the_outcome;
  job_file = λ n dir. true;
  job_dir = λ id ref. ref;
  prepared = λ n dir. none;
  live_state = λ n workspace path. some (present "abc" 3);
  run_command = λ n cwd command. record { command = command; exit_code = 0; evidence = "exit 0" };
  result_id = λ id fence. id;
  error_of = λ n. ("ValueError", "");
  journal_appends = λ n. true;
  plain = λ s. s;
}

abbrev pub the_item : Item
the_item = record {
  delivery_id = "dlv-1";
  is_continuity = true;
  is_attempt_active = false;
  owner_ref = some "owner";
  business_task_ref = some "task";
  contract_id = some "c-1";
}

abbrev pub first_world : World
first_world = record {
  questions = 0;
  journal = [];
  calls = [];
  commands = [];
  strikes = [];
  not_before = [];
  errors = [];
}

abbrev pub intended_world : World
intended_world = record first_world { journal = plain_record "dlv-1" attempt_intent ∷ [] }
