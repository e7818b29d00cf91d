-- ===== src/Consumer/Settle.antt =====
-- Settling an attempt from files and process state: `_end`, `_submit`, `_verify` and `_finalize` of consumer.py.
use universal_agent_middlewa.Prelude.{
  ℕ, suc, String, Bool, true, false, Option, none, some, List, [], ◌∷◌, any, str_eq, if◌then◌else◌,
  ◌^^◌,
}
use universal_agent_middlewa.Consumer.Journal.{
  Phase, blocked, waiting_old_executor, attempt_left_open, attempt_ended, result_prepared,
  result_submitted, Handle, Record, Ledger, ledger,
}
use universal_agent_middlewa.Consumer.Rules.{Rule, Item, match_rule}
use universal_agent_middlewa.Consumer.Port.{
  Env, Proc, ◌>>=◌, ◌>>◌, pure, fail, ask, append, or_fail, plain_record, back_off, done, FileState,
  Contract, View, Outcome, Receipt, Payload, ResultKind, no_change, document_artifact, CallAnswer,
  answered, call_refused, call_raised, UamCall, called_end, called_submit,
}
use universal_agent_middlewa.Consumer.Compare.{
  declares_no_change, compared_paths, changed_artifacts, baseline_differences,
}
use universal_agent_middlewa.Consumer.Stop.{note, is_stop_reconciled}

unfoldable pub ref_of : Record → String
ref_of r = elim r.attempt_ref [ none ↦ "" | some s ↦ s ]

unfoldable pub rule_allowlist : Option (ℕ × Rule) → List String
rule_allowlist none = []
rule_allowlist (some (n, r)) = r.verification_allowlist

unfoldable pub item_of : String → View → Item
item_of id v = record {
  delivery_id = id;
  is_continuity = true;
  is_attempt_active = true;
  owner_ref = v.owner_ref;
  business_task_ref = v.business_task_ref;
  contract_id = v.contract_id;
}

module _ (env : Env) where
  -- the journal as it is now
  unfoldable pub ledger_of : String → Proc Ledger
  ledger_of id w = (done (ledger id w.journal), w)

  unfoldable pub note_now : String → Phase → String → Proc (Unit {0})
  note_now id phase code = ledger_of id >>= λ l. note id phase code l

  -- `end_attempt` and `submit_result` of the control object
  unfoldable pub call : (ℕ → UamCall → CallAnswer) → UamCall → Proc CallAnswer
  call answer c w =
      (done (answer w.questions c), record w { questions = suc w.questions; calls = c ∷ w.calls })

  unfoldable pub after_call : String → String → Record → CallAnswer → Proc (Unit {0})
  after_call id prefix r answered = append r
  after_call id prefix r (call_refused code) =
      note_now id blocked (prefix ^^ code) >> back_off env id
  after_call id prefix r call_raised = fail

  -- `_end`
  unfoldable pub end : String → Record → String → String → Proc (Unit {0})
  end id live reported remark = do
    answer ← call env.end_attempt (called_end id (ref_of live) live.fence reported remark)
    after_call id "END_REFUSED_"
        (record (plain_record id attempt_ended) {
          attempt_ref = live.attempt_ref;
          fence = live.fence;
          code = remark;
        })
        answer

  unfoldable pub run_one : String → List String → String → Proc Receipt
  run_one cwd allowed command w =
      if any (str_eq command) allowed
      then (
        done (env.run_command w.questions cwd command),
        record w { questions = suc w.questions; commands = command ∷ w.commands },
      )
      else (
        done
            (record { command = command; exit_code = 126; evidence = "not allow-listed; not run" }),
        w,
      )

  -- `_verify`
  unfoldable pub verify : String → List String → List String → Proc (List Receipt)
  verify cwd allowed [] = pure []
  verify cwd allowed (command ∷ commands) = run_one cwd allowed command >>= λ receipt.
      verify cwd allowed commands >>= λ rest. pure (receipt ∷ rest)

  -- the submission and what follows it
  unfoldable pub send : String → Record → Payload → Proc (Unit {0})
  send id live payload = do
    answer ← call env.submit (called_submit id (ref_of live) live.fence payload)
    after_call id "SUBMIT_REFUSED_"
        (record (plain_record id result_submitted) {
          attempt_ref = live.attempt_ref;
          fence = live.fence;
        })
        answer

  -- a payload that was not prepared before: the commands are run, the payload written down and journalled
  unfoldable pub prepare :
      String → Record → View → Contract → Outcome → ResultKind → Proc (Unit {0})
  prepare id live view contract outcome kind = do
    rules ← ask env.policy
    answer ← ask (λ n. env.root_of n contract.workspace_id)
    root ← or_fail answer
    receipts ←
        verify root (rule_allowlist (match_rule rules (item_of id view)))
          contract.verification_commands
    let payload : Payload = record {
      result_id = env.result_id id live.fence;
      attempt_ref = ref_of live;
      contract_id = contract.contract_id;
      contract_digest = contract.contract_digest;
      workspace_instance = contract.workspace_id;
      executor = env.principal;
      receipts = receipts;
      unresolved_risks = outcome.unresolved_risks;
      kind = kind;
    }
    append (record (plain_record id result_prepared) { attempt_ref = live.attempt_ref })
    send id live payload

  unfoldable pub read_only_task :
      String → Record → View → Contract → Outcome → Option (List String) → Proc (Unit {0})
  read_only_task id live view contract outcome none = note_now id blocked "READBACK_FAILED"
  read_only_task id live view contract outcome (some []) =
      prepare id live view contract outcome no_change
  read_only_task id live view contract outcome (some (path ∷ paths)) =
      end id live "FAILED" "READ_ONLY_TASK_CHANGED_FILES"

  unfoldable pub change_task :
      String
      → Record
      → View
      → Contract
      → Outcome
      → Option (List (String × FileState))
      → Proc (Unit {0})
  change_task id live view contract outcome none = note_now id blocked "READBACK_FAILED"
  change_task id live view contract outcome (some []) =
      end id live "FAILED" "NO_ALLOWED_PATH_CHANGED"
  change_task id live view contract outcome (some (a ∷ artifacts)) =
      prepare id live view contract outcome (document_artifact (a ∷ artifacts))

  unfoldable pub submit_unprepared : String → Record → View → Contract → Outcome → Proc (Unit {0})
  submit_unprepared id live view contract outcome =
      if declares_no_change env.plain contract.expected_changes
      then (baseline_differences env contract.workspace_id contract.baseline_files
            (compared_paths contract.baseline_files contract.allowed_change_paths)
          >>= λ differing. read_only_task id live view contract outcome differing)
      else (changed_artifacts env contract.workspace_id contract.baseline_files
            contract.allowed_change_paths
          >>= λ artifacts. change_task id live view contract outcome artifacts)

  unfoldable pub send_or_prepare :
      String → Record → View → Contract → Outcome → Option Payload → Proc (Unit {0})
  send_or_prepare id live view contract outcome none =
      submit_unprepared id live view contract outcome
  send_or_prepare id live view contract outcome (some payload) = send id live payload

  unfoldable pub submit_for : String → Record → Outcome → View → Option Contract → Proc (Unit {0})
  submit_for id live outcome view none = note_now id blocked "CONTRACT_UNREADABLE"
  submit_for id live outcome view (some contract) =
      ask (λ n. env.prepared n live.job_dir) >>= λ payload.
      send_or_prepare id live view contract outcome payload

  -- `_submit`
  unfoldable pub submit : String → Record → Outcome → Proc (Unit {0})
  submit id live outcome = do
    answer ← ask (λ n. env.view_of n id)
    view ← or_fail answer
    submit_for id live outcome view view.contract

  -- handle is not None and group_alive(int(handle["pgid"]))
  unfoldable pub still_there : Option Handle → Proc Bool
  still_there none = pure false
  still_there (some h) = or_fail h.pgid >>= λ pgid. ask (λ n. env.group_alive n pgid)

  unfoldable pub failure_note : String → String
  failure_note remark = if str_eq remark "" then "WORKER_REPORTED_FAILURE" else remark

  -- no outcome file: what is known of the executor decides
  unfoldable pub settle_without_outcome :
      String → Record → Ledger → Option Handle → Bool → Proc (Unit {0})
  settle_without_outcome id live l (some h) job = end id live "STOPPED" "EXECUTOR_GONE_NO_OUTCOME"
  settle_without_outcome id live l none job =
      if job
      then note id attempt_left_open "EXECUTOR_UNKNOWN" l
      else end id live "FAILED_BEFORE_EFFECT" "NO_EXECUTOR_WAS_STARTED"

  -- the branches of `_finalize` once the executor is not known to run
  unfoldable pub settle : String → Record → Ledger → Option Outcome → Bool → Proc (Unit {0})
  settle id live l none job = settle_without_outcome id live l l.handle job
  settle id live l (some outcome) job =
      if outcome.is_done
      then submit id live outcome
      else end id live (if outcome.before_effect then "FAILED_BEFORE_EFFECT" else "FAILED")
          (failure_note outcome.note)

  -- `_finalize`, for a ledger with the live attempt `live`
  unfoldable pub finalize : String → Record → Ledger → Proc (Unit {0})
  finalize id live l = do
    outcome ← ask (λ n. env.outcome_file n live.job_dir)
    running ← still_there l.handle
    if running
        then note id waiting_old_executor "EXECUTOR_STILL_RUNNING" l
        else (is_stop_reconciled env id live l >>= λ proven.
            if proven
            then (ask (λ n. env.job_file n live.job_dir) >>= λ job. settle id live l outcome job)
            else pure tt)
