-- ===== src/Consumer/Stop.antt =====
-- Whether an executor that nothing has shown stopped is proven gone: `_stop_state` and `_stop_reconciled` of
-- consumer.py, and the advisory records.
use universal_agent_middlewa.Prelude.{
  ℕ, String, Bool, true, false, not, ◌&&◌, ◌||◌, Option, none, some, List, [], ◌∷◌, any, str_eq,
  if◌then◌else◌,
}
use universal_agent_middlewa.Consumer.Journal.{
  Phase, waiting_old_executor, attempt_left_open, denied, held, blocked, stop_reconciled, Handle,
  StopReport, Identity, Record, Ledger,
}
use universal_agent_middlewa.Consumer.Port.{
  Env, Proc, ◌>>=◌, ◌>>◌, pure, ask, append, plain_record, back_off,
}

pub data StopState : Type 0 where
  alive identity_changed readback_unavailable observation_failed exited_before_observation :
      StopState
  end_not_recorded unprovable gone : StopState

-- _NOT_PROVEN_STOPPED; `gone` is not in it
unfoldable pub not_proven : StopState → Option (Phase × String)
not_proven alive = some (waiting_old_executor, "EXECUTOR_NOT_CONFIRMED_STOPPED")
not_proven identity_changed = some (waiting_old_executor, "EXECUTOR_PID_IDENTITY_CHANGED")
not_proven readback_unavailable = some (attempt_left_open, "EXECUTOR_STOP_READBACK_UNAVAILABLE")
not_proven observation_failed = some (attempt_left_open, "EXECUTOR_STOP_OBSERVATION_FAILED")
not_proven exited_before_observation =
    some (attempt_left_open, "EXECUTOR_EXITED_BEFORE_OBSERVATION")
not_proven end_not_recorded = some (attempt_left_open, "EXECUTOR_END_NOT_RECORDED")
not_proven unprovable = some (attempt_left_open, "EXECUTOR_STOP_UNPROVABLE")
not_proven gone = none

unfoldable pub is_text : Option String → String → Bool
is_text none s = false
is_text (some t) s = str_eq t s

-- handle.get("kind") == "process-group"
unfoldable pub is_process_group : Option Handle → Bool
unfolding is_text
is_process_group none = false
is_process_group (some h) = is_text h.kind "process-group"

unfoldable pub pgid_of : Option Handle → Option ℕ
pgid_of none = none
pgid_of (some h) = h.pgid

unfoldable pub identities_of : Option StopReport → List Identity
identities_of none = []
identities_of (some r) = r.processes_seen

unfoldable pub says : (StopReport → Option String) → String → Option StopReport → Bool
unfolding is_text
says field s none = false
says field s (some r) = is_text (field r) s

-- ended is None
unfoldable pub without_end : Option Handle → Option StopState
unfolding is_process_group
without_end none = none
without_end (some h) = if is_process_group (some h) then none else some end_not_recorded

-- the end of `_stop_state`, once the process table was read
unfoldable pub judge_running : Bool → Bool → Bool → Option (List (ℕ × Bool)) → StopState
judge_running group whole recorded none = readback_unavailable
judge_running group whole recorded (some running) =
    if any (λ (p : ℕ × Bool). not p.1) running || group
    then alive
    else if any (λ (p : ℕ × Bool). p.1) running
    then identity_changed
    else if recorded || whole
    then gone
    else unprovable

unfoldable pub has_any : List Identity → Bool
has_any [] = false
has_any (i ∷ l) = true

-- ended.get("stopped") is not False
unfoldable pub says_stopped : Option Bool → Bool
says_stopped (some false) = false
says_stopped _ = true

-- `_note`: an advisory that is not the last one of the delivery
unfoldable pub same_phase : Phase → Phase → Bool
same_phase denied denied = true
same_phase held held = true
same_phase blocked blocked = true
same_phase waiting_old_executor waiting_old_executor = true
same_phase attempt_left_open attempt_left_open = true
same_phase _ _ = false

unfoldable pub is_last_advisory : Option (Phase × String) → Phase → String → Bool
unfolding same_phase
is_last_advisory none phase code = false
is_last_advisory (some (p, c)) phase code = same_phase p phase && str_eq c code

unfoldable pub note : String → Phase → String → Ledger → Proc (Unit {0})
note id phase code l =
    if is_last_advisory l.advisory phase code
    then pure tt
    else append (record (plain_record id phase) { code = code })

module _ (env : Env) where
  unfoldable pub group_is_alive : Option ℕ → Proc Bool
  group_is_alive none = pure false
  group_is_alive (some pgid) = ask (λ n. env.group_alive n pgid)

  -- the process table is read only for recorded processes
  unfoldable pub read_back : List Identity → Proc (Option (List (ℕ × Bool)))
  read_back [] = pure (some [])
  read_back (i ∷ l) = ask (λ n. env.still_running n (i ∷ l))

  unfoldable pub of_report : Option Handle → Option StopReport → Proc (Option StopState)
  of_report handle report =
      if says (λ r. r.observation) "UNAVAILABLE" report
      then pure (some observation_failed)
      else if says (λ r. r.coverage) "UNCOVERED" report
      then pure (some exited_before_observation)
      else do
        running ← read_back (identities_of report)
        group ← group_is_alive (pgid_of handle)
        pure (
            some (
              judge_running group (is_process_group handle) (has_any (identities_of report))
                running))

  unfoldable pub with_end : Option Handle → Record → Proc (Option StopState)
  with_end handle ended =
      if says_stopped ended.stopped then pure none else of_report handle ended.stop_report

  unfoldable pub stop_state_of : Option Handle → Option Record → Proc (Option StopState)
  stop_state_of handle none = pure (without_end handle)
  stop_state_of handle (some ended) = with_end handle ended

  -- `_stop_state`
  unfoldable pub stop_state : Ledger → Proc (Option StopState)
  stop_state l = stop_state_of l.handle l.ended

  unfoldable pub reconcile : String → Record → Bool → Proc Bool
  reconcile id live true = pure true
  reconcile id live false =
      append (record (plain_record id stop_reconciled) { attempt_ref = live.attempt_ref })
      >> pure true

  unfoldable pub unless_proven : String → Record → Ledger → Option (Phase × String) → Proc Bool
  unless_proven id live l none = reconcile id live l.reconciled
  unless_proven id live l (some (phase, code)) =
      note id phase code l >> back_off env id >> pure false

  unfoldable pub of_state : String → Record → Ledger → Option StopState → Proc Bool
  of_state id live l none = pure true
  of_state id live l (some state) = unless_proven id live l (not_proven state)

  -- `_stop_reconciled`
  unfoldable pub is_stop_reconciled : String → Record → Ledger → Proc Bool
  is_stop_reconciled id live l = stop_state l >>= λ known. of_state id live l known
