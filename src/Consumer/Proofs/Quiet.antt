-- ===== src/Consumer/Proofs/Quiet.antt =====
-- The methods of consumer.py that only look: the stop state of an executor, the admission of a delivery and the
-- comparison with the baseline.
use universal_agent_middlewa.Prelude.{
  ℕ, refl, String, Bool, true, false, Option, none, some, List, [], ◌∷◌,
}
use universal_agent_middlewa.Prelude.Dict.{Dict, get}
use universal_agent_middlewa.Consumer.Journal.{Record, Phase, Ledger, Handle, StopReport, Identity}
use universal_agent_middlewa.Consumer.Rules.{Rule, Item, match_rule}
use universal_agent_middlewa.Consumer.Port.{Env, Proc, View, Contract, Adapter, FileState}
use universal_agent_middlewa.Consumer.Admit.{
  knows_worker, check_rule_against, checked_cwd, not_held, admit,
}
use universal_agent_middlewa.Consumer.Compare.{
  then_rest, add_artifact, add_difference, changed_artifacts, baseline_differences,
}
use universal_agent_middlewa.Consumer.Stop.{
  StopState, not_proven, says, identities_of, group_is_alive, read_back, of_report, with_end,
  says_stopped, stop_state_of, stop_state, reconcile, unless_proven, of_state, is_stop_reconciled,
  pgid_of,
}
use universal_agent_middlewa.Consumer.Settle.{ledger_of, note_now}
use universal_agent_middlewa.Consumer.Proofs.Steps.{
  Quiet, Quiet-bind, Quiet-if, pure-Quiet, refuse-Quiet, ask-Quiet, append-Quiet, or_refuse-Quiet,
  require-Quiet, note-Quiet, back_off-Quiet,
}

module _ (env : Env) where
  group_is_alive-Quiet : (pgid : Option ℕ) → Quiet (group_is_alive env pgid)
  unfolding group_is_alive
  group_is_alive-Quiet none = pure-Quiet false
  group_is_alive-Quiet (some pgid) = ask-Quiet _

  read_back-Quiet : (l : List Identity) → Quiet (read_back env l)
  unfolding read_back
  read_back-Quiet [] = pure-Quiet _
  read_back-Quiet (i ∷ l) = ask-Quiet _

  of_report-Quiet :
      (handle : Option Handle) (report : Option StopReport) → Quiet (of_report env handle report)
  unfolding of_report
  of_report-Quiet handle report =
      Quiet-if (says (λ r. r.observation) "UNAVAILABLE" report) (pure-Quiet _) (
        Quiet-if (says (λ r. r.coverage) "UNCOVERED" report) (pure-Quiet _) (
          Quiet-bind _ (read_back-Quiet (identities_of report)) (λ running.
            Quiet-bind _ (group_is_alive-Quiet (pgid_of handle)) (λ group. pure-Quiet _))))

  stop_state_of-Quiet :
      (handle : Option Handle) (ended : Option Record) → Quiet (stop_state_of env handle ended)
  unfolding stop_state_of with_end
  stop_state_of-Quiet handle none = pure-Quiet _
  stop_state_of-Quiet handle (some ended) =
      Quiet-if (says_stopped ended.stopped) (pure-Quiet _)
        (of_report-Quiet handle ended.stop_report)

  reconcile-Quiet : (id : String) (live : Record) (b : Bool) → Quiet (reconcile env id live b)
  unfolding reconcile
  reconcile-Quiet id live true = pure-Quiet true
  reconcile-Quiet id live false = Quiet-bind _ (append-Quiet _) (λ a. pure-Quiet true)

  unless_proven-Quiet :
      (id : String) (live : Record) (l : Ledger) (o : Option (Phase × String))
      → Quiet (unless_proven env id live l o)
  unfolding unless_proven
  unless_proven-Quiet id live l none = reconcile-Quiet id live l.reconciled
  unless_proven-Quiet id live l (some (phase, code)) =
      Quiet-bind _ (Quiet-bind _ (note-Quiet id phase code l) (λ a. back_off-Quiet env id))
        (λ a. pure-Quiet false)

  of_state-Quiet :
      (id : String) (live : Record) (l : Ledger) (o : Option StopState)
      → Quiet (of_state env id live l o)
  unfolding of_state
  of_state-Quiet id live l none = pure-Quiet true
  of_state-Quiet id live l (some state) = unless_proven-Quiet id live l (not_proven state)

  pub is_stop_reconciled-Quiet :
      (id : String) (live : Record) (l : Ledger) → Quiet (is_stop_reconciled env id live l)
  unfolding is_stop_reconciled stop_state
  is_stop_reconciled-Quiet id live l =
      Quiet-bind _ (stop_state_of-Quiet l.handle l.ended) (λ known. of_state-Quiet id live l known)

  pub ledger_of-Quiet : (id : String) → Quiet (ledger_of env id)
  unfolding ledger_of
  ledger_of-Quiet id = record { same_calls = λ v. refl; same_commands = λ v. refl }

  pub note_now-Quiet :
      (id : String) (phase : Phase) (code : String) → Quiet (note_now env id phase code)
  unfolding note_now
  note_now-Quiet id phase code = Quiet-bind _ (ledger_of-Quiet id) (λ l. note-Quiet id phase code l)

  knows_worker-Quiet :
      (known : Option (String → Bool)) (worker : Option String) → Quiet (knows_worker known worker)
  unfolding knows_worker
  knows_worker-Quiet none worker = pure-Quiet tt
  knows_worker-Quiet (some known) worker = Quiet-bind _ (require-Quiet _ _) (λ a. require-Quiet _ _)

  check_rule_against-Quiet :
      (r : Rule) (a : Adapter) (c : Contract) → Quiet (check_rule_against r a c)
  unfolding check_rule_against
  check_rule_against-Quiet r a c = Quiet-bind _ (require-Quiet _ _) (λ x.
      Quiet-bind _ (knows_worker-Quiet a.known_worker r.worker) (λ x.
        Quiet-bind _ (require-Quiet _ _)
          (λ x. Quiet-bind _ (require-Quiet _ _) (λ x. require-Quiet _ _))))

  checked_cwd-Quiet : (r : Rule) (c : Contract) → Quiet (checked_cwd env r c)
  unfolding checked_cwd
  checked_cwd-Quiet r c = Quiet-bind _ (require-Quiet _ _) (λ x.
      Quiet-bind _ (ask-Quiet _) (λ answer.
        Quiet-bind _ (or_refuse-Quiet answer _)
          (λ root. Quiet-bind _ (require-Quiet _ _) (λ x. pure-Quiet root))))

  not_held-Quiet : (o : Option String) → Quiet (not_held env o)
  unfolding not_held
  not_held-Quiet none = pure-Quiet tt
  not_held-Quiet (some code) = refuse-Quiet _

  pub admit-Quiet : (item : Item) (view : View) → Quiet (admit env item view)
  unfolding admit
  admit-Quiet item view = Quiet-bind _ (require-Quiet _ _) (λ x.
      Quiet-bind _ (or_refuse-Quiet view.contract _) (λ contract.
        Quiet-bind _ (require-Quiet _ _) (λ x. Quiet-bind _ (ask-Quiet _) (λ rules.
          Quiet-bind _ (or_refuse-Quiet (match_rule rules item) _) (λ matched.
            Quiet-bind _ (or_refuse-Quiet (env.adapters (matched.1).adapter) _) (λ adapter.
              Quiet-bind _ (checked_cwd-Quiet matched.1 contract) (λ cwd.
                Quiet-bind _ (check_rule_against-Quiet matched.1 adapter contract) (λ x.
                  Quiet-bind _ (ask-Quiet _)
                    (λ answer. Quiet-bind _ (not_held-Quiet answer) (λ x. pure-Quiet _))))))))))

  then_rest-Quiet :
      {A : Type 0} (o : Option FileState) (join : FileState → Option A → Option A)
      {rest : Proc (Option A)}
      → Quiet rest
      → Quiet (then_rest env o join rest)
  unfolding then_rest
  then_rest-Quiet none join h = pure-Quiet none
  then_rest-Quiet (some s) join h = Quiet-bind _ h (λ found. pure-Quiet _)

  pub changed_artifacts-Quiet :
      (workspace : String) (baseline : Dict FileState) (allowed : List String)
      → Quiet (changed_artifacts env workspace baseline allowed)
  unfolding changed_artifacts
  changed_artifacts-Quiet workspace baseline [] = pure-Quiet _
  changed_artifacts-Quiet workspace baseline (path ∷ allowed) = Quiet-bind _ (ask-Quiet _) (λ found.
      then_rest-Quiet found (add_artifact env (get baseline path) path)
        (changed_artifacts-Quiet workspace baseline allowed))

  pub baseline_differences-Quiet :
      (workspace : String) (baseline : Dict FileState) (paths : List String)
      → Quiet (baseline_differences env workspace baseline paths)
  unfolding baseline_differences
  baseline_differences-Quiet workspace baseline [] = pure-Quiet _
  baseline_differences-Quiet workspace baseline (path ∷ paths) =
      Quiet-bind _ (ask-Quiet _) (λ found.
        then_rest-Quiet found (add_difference env (get baseline path) path)
          (baseline_differences-Quiet workspace baseline paths))
