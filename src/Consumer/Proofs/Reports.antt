-- ===== src/Consumer/Proofs/Reports.antt =====
-- Settling an attempt: what `_finalize` of consumer.py reports to the control object, and which commands it runs.
use universal_agent_middlewa.Prelude.{
  ℕ, ◌≡◌, refl, String, Bool, true, false, Option, none, some, List, [], ◌∷◌, any, str_eq,
}
use universal_agent_middlewa.Consumer.Journal.{Record, Phase, Ledger, Handle, blocked}
use universal_agent_middlewa.Consumer.Rules.{match_rule}
use universal_agent_middlewa.Consumer.Port.{
  Env, Proc, View, Contract, Outcome, Payload, ResultKind, FileState, UamCall, called_end,
  called_submit, no_change, document_artifact,
}
use universal_agent_middlewa.Consumer.Compare.{declares_no_change, compared_paths}
use universal_agent_middlewa.Consumer.Settle.{
  ref_of, rule_allowlist, item_of, end, send, prepare, read_only_task, change_task,
  submit_unprepared, send_or_prepare, submit_for, submit, still_there, failure_note,
  settle_without_outcome, settle, settle_without_outcome, finalize, note_now,
}
use universal_agent_middlewa.Consumer.Proofs.Steps.{
  Stays, Quiet-Stays, Stays-bind, Stays-bind_done, Stays-if, Stays-ask, Stays-test, pure-Quiet,
  ask-Quiet, append-Quiet, or_fail-Quiet, note-Quiet,
}
use universal_agent_middlewa.Consumer.Proofs.Quiet.{
  is_stop_reconciled-Quiet, note_now-Quiet, changed_artifacts-Quiet, baseline_differences-Quiet,
}
use universal_agent_middlewa.Consumer.Proofs.Admitted.{or_fail-Gives}
use universal_agent_middlewa.Consumer.Proofs.Calls.{end-Stays, send-Stays, verify-Stays}

-- The payload was written down before for this job, or it is made now for this attempt and contract.
pub data IsResultOf (env : Env) (live : Record) : Payload → Type 0 where
  replayed : {p : Payload} (n : ℕ) → env.prepared n live.job_dir ≡ some p → IsResultOf env live p
  made :
      {p : Payload}
      → p.attempt_ref ≡ ref_of live
      → p.executor ≡ env.principal
      → IsResultOf env live p

-- A report on the attempt of `live`: an end with its reference and fence, or a result of it, of a worker that is done.
pub data IsReport (env : Env) (id : String) (live : Record) : UamCall → Type 0 where
  is_end :
      (reported remark : String)
      → IsReport env id live (called_end id (ref_of live) live.fence reported remark)
  is_result :
      {p : Payload} (n : ℕ) (o : Outcome)
      → env.outcome_file n live.job_dir ≡ some o
      → o.is_done ≡ true
      → IsResultOf env live p
      → IsReport env id live (called_submit id (ref_of live) live.fence p)

-- A command that the policy's rule for the delivery allows.
pub data IsAllowed (env : Env) (id : String) (command : String) : Type 0 where
  listed :
      (m n : ℕ) (view : View)
      → env.view_of m id ≡ some view
      → any (str_eq command) (rule_allowlist (match_rule (env.policy n) (item_of id view))) ≡ true
      → IsAllowed env id command

module _ (env : Env) (id : String) (live : Record) where
  abbrev Q : UamCall → Type 0
  Q = IsReport env id live

  abbrev S : String → Type 0
  S = IsAllowed env id

  abbrev Finishes : {A : Type 0} → Proc A → Type 0
  Finishes m = Stays Q S m

  -- the outcome that was read says that the worker is done
  record IsDone (o : Outcome) : Type 0 where
    question : ℕ
    is_read : env.outcome_file question live.job_dir ≡ some o
    is_done : o.is_done ≡ true

  -- the view was the answer about this delivery
  record IsSeen (view : View) : Type 0 where
    at : ℕ
    answer : env.view_of at id ≡ some view

  send-Finishes :
      (o : Outcome) (p : Payload) → IsDone o → IsResultOf env live p → Finishes (send env id live p)
  send-Finishes o p d r = send-Stays env id live p (is_result d.question o d.is_read d.is_done r)

  end-Finishes : (reported remark : String) → Finishes (end env id live reported remark)
  end-Finishes reported remark = end-Stays env id live reported remark (is_end reported remark)

  prepare-Finishes :
      (view : View) (c : Contract) (o : Outcome) (kind : ResultKind)
      → IsSeen view
      → IsDone o
      → Finishes (prepare env id live view c o kind)
  unfolding prepare
  prepare-Finishes view c o kind s d = Stays-ask env.policy _ (λ n.
      Stays-bind _ (Quiet-Stays (ask-Quiet _)) (λ answer.
        Stays-bind _ (Quiet-Stays (or_fail-Quiet answer)) (λ root.
          Stays-bind _
            (verify-Stays env root _ c.verification_commands
              (λ command h. listed s.at n view s.answer h))
            (λ receipts.
              Stays-bind _ (Quiet-Stays (append-Quiet _))
                (λ a. send-Finishes o _ d (made refl refl))))))

  note_now-Finishes : (phase : Phase) (code : String) → Finishes (note_now env id phase code)
  note_now-Finishes phase code = Quiet-Stays (note_now-Quiet env id phase code)

  read_only_task-Finishes :
      (view : View) (c : Contract) (o : Outcome) (l : Option (List String))
      → IsSeen view
      → IsDone o
      → Finishes (read_only_task env id live view c o l)
  unfolding read_only_task
  read_only_task-Finishes view c o none s d = note_now-Finishes blocked _
  read_only_task-Finishes view c o (some []) s d = prepare-Finishes view c o no_change s d
  read_only_task-Finishes view c o (some (path ∷ paths)) s d = end-Finishes "FAILED" _

  change_task-Finishes :
      (view : View) (c : Contract) (o : Outcome) (l : Option (List (String × FileState)))
      → IsSeen view
      → IsDone o
      → Finishes (change_task env id live view c o l)
  unfolding change_task
  change_task-Finishes view c o none s d = note_now-Finishes blocked _
  change_task-Finishes view c o (some []) s d = end-Finishes "FAILED" _
  change_task-Finishes view c o (some (a ∷ l)) s d =
      prepare-Finishes view c o (document_artifact (a ∷ l)) s d

  submit_unprepared-Finishes :
      (view : View) (c : Contract) (o : Outcome)
      → IsSeen view
      → IsDone o
      → Finishes (submit_unprepared env id live view c o)
  unfolding submit_unprepared
  submit_unprepared-Finishes view c o s d =
      Stays-if (declares_no_change env.plain c.expected_changes)
        (Stays-bind _
          (Quiet-Stays (
            baseline_differences-Quiet env c.workspace_id c.baseline_files
              (compared_paths c.baseline_files c.allowed_change_paths)))
          (λ differing. read_only_task-Finishes view c o differing s d))
        (Stays-bind _
          (Quiet-Stays
            (changed_artifacts-Quiet env c.workspace_id c.baseline_files c.allowed_change_paths))
          (λ artifacts. change_task-Finishes view c o artifacts s d))

  send_or_prepare-Finishes :
      (view : View) (c : Contract) (o : Outcome) (p : Option Payload)
      → ((q : Payload) → p ≡ some q → IsResultOf env live q)
      → IsSeen view
      → IsDone o
      → Finishes (send_or_prepare env id live view c o p)
  unfolding send_or_prepare
  send_or_prepare-Finishes view c o none r s d = submit_unprepared-Finishes view c o s d
  send_or_prepare-Finishes view c o (some p) r s d = send-Finishes o p d (r p refl)

  submit_for-Finishes :
      (view : View) (o : Outcome) (c : Option Contract)
      → IsSeen view
      → IsDone o
      → Finishes (submit_for env id live o view c)
  unfolding submit_for
  submit_for-Finishes view o none s d = note_now-Finishes blocked _
  submit_for-Finishes view o (some c) s d =
      Stays-ask (λ n. env.prepared n live.job_dir) _
        (λ n.
          send_or_prepare-Finishes view c o (env.prepared n live.job_dir) (λ q e. replayed n e) s d)

  submit-Finishes : (o : Outcome) → IsDone o → Finishes (submit env id live o)
  unfolding submit
  submit-Finishes o d =
      Stays-ask (λ n. env.view_of n id) _
        (λ n. Stays-bind_done _ (Quiet-Stays (or_fail-Quiet (env.view_of n id))) (λ w view seen.
          submit_for-Finishes view o view.contract
            (record { at = n; answer = (or_fail-Gives (env.view_of n id)).given w view seen }) d))

  still_there-Finishes : (h : Option Handle) → Finishes (still_there env h)
  unfolding still_there
  still_there-Finishes none = Quiet-Stays (pure-Quiet false)
  still_there-Finishes (some h) =
      Stays-bind _ (Quiet-Stays (or_fail-Quiet h.pgid)) (λ pgid. Quiet-Stays (ask-Quiet _))

  settle_without_outcome-Finishes :
      (l : Ledger) (h : Option Handle) (job : Bool)
      → Finishes (settle_without_outcome env id live l h job)
  unfolding settle_without_outcome
  settle_without_outcome-Finishes l (some h) job = end-Finishes "STOPPED" _
  settle_without_outcome-Finishes l none job =
      Stays-if job (Quiet-Stays (note-Quiet id _ _ l)) (end-Finishes "FAILED_BEFORE_EFFECT" _)

  settle-Finishes :
      (l : Ledger) (o : Option Outcome) (job : Bool) (n : ℕ)
      → env.outcome_file n live.job_dir ≡ o
      → Finishes (settle env id live l o job)
  unfolding settle
  settle-Finishes l none job n e = settle_without_outcome-Finishes l l.handle job
  settle-Finishes l (some o) job n e =
      Stays-test o.is_done
        (λ d. submit-Finishes o (record { question = n; is_read = e; is_done = d }))
        (λ d. end-Finishes _ (failure_note env o.note))

  pub finalize-Stays : (l : Ledger) → Stays Q S (finalize env id live l)
  unfolding finalize
  finalize-Stays l =
      Stays-ask (λ n. env.outcome_file n live.job_dir) _
        (λ n. Stays-bind _ (still_there-Finishes l.handle) (λ running.
          Stays-if running (Quiet-Stays (note-Quiet id _ _ l)) (
            Stays-bind _ (Quiet-Stays (is_stop_reconciled-Quiet env id live l)) (λ proven.
              Stays-if proven
                (Stays-bind _ (Quiet-Stays (ask-Quiet _))
                  (λ job. settle-Finishes l (env.outcome_file n live.job_dir) job n refl))
                (Quiet-Stays (pure-Quiet tt))))))
