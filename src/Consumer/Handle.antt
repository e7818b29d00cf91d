-- ===== src/Consumer/Handle.antt =====
-- Handling one delivery: `_handle`, `_start`, `_run_attempt`, `_adopt_or_clear`, `_record_refusal` and `_guarded` of
-- consumer.py.
use universal_agent_middlewa.Prelude.{
  ℕ, suc, String, Bool, true, false, not, ◌&&◌, Option, none, some, List, [], ◌∷◌, str_eq,
  if◌then◌else◌,
}
use universal_agent_middlewa.Consumer.Journal.{
  blocked, attempt_left_open, attempt_intent, intent_cleared, attempt_started, executor_started,
  executor_ended, Handle, StopReport, Record, Ledger,
}
use universal_agent_middlewa.Consumer.Rules.{Item}
use universal_agent_middlewa.Consumer.Port.{
  Env, Proc, Ran, done, refused, raised, ◌>>=◌, ◌>>◌, pure, refuse, fail, ask, append, or_fail,
  plain_record, back_off, defer, Refusal, AttemptView, StartAnswer, started, start_refused,
  start_raised, called_start,
}
use universal_agent_middlewa.Consumer.Admit.{Admission, refusal, admit}
use universal_agent_middlewa.Consumer.Stop.{note}
use universal_agent_middlewa.Consumer.Settle.{ledger_of, finalize}

unfoldable pub last_of : List AttemptView → Option AttemptView
last_of [] = none
last_of (a ∷ []) = some a
last_of (a ∷ b ∷ l) = last_of (b ∷ l)

-- what was returned, or UNKNOWN and not stopped after an exception
unfoldable pub is_stopped_answer : Option (Bool × Option StopReport) → Bool
is_stopped_answer none = false
is_stopped_answer (some p) = p.0

unfoldable pub report_answer : Option (Bool × Option StopReport) → Option StopReport
report_answer none = none
report_answer (some p) = p.1

module _ (env : Env) where
  -- `_record_refusal`
  unfoldable pub later : String → Option ℕ → Proc (Unit {0})
  later id none = back_off env id
  later id (some micros) = defer env id micros

  unfoldable pub record_refusal : String → Ledger → Refusal → Proc (Unit {0})
  record_refusal id l r = note id r.phase r.code l >> later id r.retry

  -- except Refusal
  unfoldable pub caught_by : String → Ledger → Ran (Unit {0}) → Proc (Unit {0})
  caught_by id l (done a) = pure a
  caught_by id l (refused r) = record_refusal id l r
  caught_by id l raised = fail

  unfoldable pub catch : String → Ledger → Proc (Unit {0}) → Proc (Unit {0})
  catch id l m w = let r = m w in caught_by id l r.0 r.1

  unfoldable pub finalize_live : String → Ledger → Option Record → Proc (Unit {0})
  finalize_live id l none = fail
  finalize_live id l (some live) = finalize env id live l

  -- self._finalize(delivery_id, self.journal.ledger(delivery_id))
  unfoldable pub finalize_now : String → Proc (Unit {0})
  finalize_now id = ledger_of env id >>= λ l. finalize_live id l l.live

  -- the announcement of an executor
  unfoldable pub announce : String → AttemptView → Option Handle → Proc (Unit {0})
  announce id attempt none = pure tt
  announce id attempt (some h) = append (record (plain_record id executor_started) {
    attempt_ref = some attempt.attempt_ref;
    handle = some h;
  })

  abbrev pub start_record : String → AttemptView → Record
  start_record id attempt = record (plain_record id attempt_started) {
    attempt_ref = some attempt.attempt_ref;
    fence = attempt.fence;
    job_dir = env.job_dir id attempt.attempt_ref;
  }

  -- `_run_attempt`
  unfoldable pub run_attempt : String → AttemptView → Proc (Unit {0})
  run_attempt id attempt = do
    append (start_record id attempt)
    answer ← ask (λ n. env.run n id attempt)
    announce id attempt answer.announced
    append (record (plain_record id executor_ended) {
      attempt_ref = some attempt.attempt_ref;
      stopped = some (is_stopped_answer answer.returned);
      stop_report = report_answer answer.returned;
    })
    finalize_now id

  -- `start_attempt` of the control object
  unfoldable pub ask_start : String → ℕ → Proc StartAnswer
  ask_start id lease w = (
    done (env.start w.questions id lease),
    record w { questions = suc w.questions; calls = called_start id lease ∷ w.calls },
  )

  unfoldable pub retry_of : String → Option ℕ
  retry_of code = if str_eq code "ATTEMPT_ACTIVE" then some 5_000_000 else none

  unfoldable pub after_start : String → StartAnswer → Proc (Unit {0})
  after_start id (started attempt) = run_attempt id attempt
  after_start id (start_refused code) =
      append (record (plain_record id intent_cleared) { code = code })
      >> refuse (record { code = code; phase = blocked; retry = retry_of code })
  after_start id start_raised = fail

  -- what follows the admission: the locks, the intent, and only then the start
  unfoldable pub with_locks : String → Admission → Bool → Proc (Unit {0})
  with_locks id admission false =
      refuse (record { code = "TARGET_BUSY"; phase = blocked; retry = some 0 })
  with_locks id admission true =
      append (plain_record id attempt_intent)
      >> (ask_start id (admission.rule).lease_seconds >>= λ answer. after_start id answer)

  unfoldable pub try_start : Item → Proc (Unit {0})
  try_start item = do
    answer ← ask (λ n. env.view_of n item.delivery_id)
    view ← or_fail answer
    admission ← admit env item view
    locked ← ask (λ n.
        env.target_locks n (admission.contract).workspace_id
          (admission.contract).allowed_change_paths)
    with_locks item.delivery_id admission locked

  -- `_start`
  unfoldable pub start : Item → Ledger → Proc (Unit {0})
  start item l = catch item.delivery_id l (try_start item)

  -- `_adopt_or_clear`
  unfoldable pub adopt : String → AttemptView → Proc (Unit {0})
  adopt id attempt = append (start_record id attempt) >> finalize_now id

  unfoldable pub is_ours : AttemptView → Bool
  is_ours attempt = str_eq attempt.executor env.principal && attempt.is_active

  unfoldable pub place : String → Ledger → Option AttemptView → Proc (Unit {0})
  place id l none =
      append (record (plain_record id intent_cleared) { code = "NO_ATTEMPT_WAS_STARTED" })
  place id l (some attempt) =
      if is_ours attempt then adopt id attempt else note id attempt_left_open "INTENT_UNRESOLVED" l

  unfoldable pub adopt_or_clear : String → Ledger → Proc (Unit {0})
  adopt_or_clear id l = do
    answer ← ask (λ n. env.view_of n id)
    view ← or_fail answer
    place id l (last_of view.attempts)

  -- the branches of `_handle`
  unfoldable pub handle_idle : Item → Ledger → Proc (Unit {0})
  handle_idle item l =
      if not item.is_continuity
      then record_refusal item.delivery_id l (refusal "NOT_CONTINUITY_V2")
      else if item.is_attempt_active
      then pure tt
      else start item l

  unfoldable pub handle_with : Item → Ledger → Option Record → Option Record → Proc (Unit {0})
  handle_with item l (some live) intent = finalize env item.delivery_id live l
  handle_with item l none (some intent) = adopt_or_clear item.delivery_id l
  handle_with item l none none = handle_idle item l

  -- `_handle`
  unfoldable pub handle : Item → Proc (Unit {0})
  handle item = ledger_of env item.delivery_id >>= λ l. handle_with item l l.live l.intent
