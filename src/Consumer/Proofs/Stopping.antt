-- ===== src/Consumer/Proofs/Stopping.antt =====
-- An executor that was not confirmed stopped: when `_finalize` of consumer.py leaves its attempt open.
use universal_agent_middlewa.Prelude.{◌≡◌, refl, String, false, Option, none, some, List}
use universal_agent_middlewa.Consumer.Journal.{Record, Ledger, Handle}
use universal_agent_middlewa.Consumer.Port.{World, Env}
use universal_agent_middlewa.Consumer.Settle.{still_there, finalize}
use universal_agent_middlewa.Consumer.Proofs.Steps.{
  Quiet, pure-Quiet, Quiet-bind, Quiet-Stays, Stays, Stays-bind, Stays-bind_done, Stays-if,
  Stays-test, Adds, nothing, one_more, ask-Quiet, note-Quiet, or_fail-Quiet,
}
use universal_agent_middlewa.Consumer.Proofs.Quiet.{is_stop_reconciled-Quiet}
use universal_agent_middlewa.Consumer.Proofs.Unproven.{
  IsNotGone, absurd_test, is_stop_reconciled-false,
}

Adds-none : {A : Type 0} {l k : List A} → Adds (λ a. ⊥) l k → k ≡ l
Adds-none nothing = refl
Adds-none (one_more q r) = absurd q

module _ (env : Env) where
  still_there-Quiet : (h : Option Handle) → Quiet (still_there env h)
  unfolding still_there
  still_there-Quiet none = pure-Quiet false
  still_there-Quiet (some h) = Quiet-bind _ (or_fail-Quiet h.pgid) (λ pgid. ask-Quiet _)

  finalize-Stays_silent :
      (id : String) (live : Record) (l : Ledger)
      → IsNotGone env l
      → Stays (λ c. ⊥) (λ c. ⊥) (finalize env id live l)
  unfolding finalize
  finalize-Stays_silent id live l h = Stays-bind _ (Quiet-Stays (ask-Quiet _)) (λ outcome.
      Stays-bind _ (Quiet-Stays (still_there-Quiet l.handle)) (λ running.
        Stays-if running (Quiet-Stays (note-Quiet id _ _ l)) (
          Stays-bind_done _ (Quiet-Stays (is_stop_reconciled-Quiet env id live l)) (λ w proven e.
            Stays-test proven
              (λ t. absurd_test t ((is_stop_reconciled-false env id live l h).given w proven e))
              (λ f. Quiet-Stays (pure-Quiet tt))))))

  -- Where an Agent's end was not recorded, or the executor was not called stopped and its report says that
  -- it was not observed or was gone before that, or names no process of an Agent, or the named processes
  -- cannot be read back or are still there: `_finalize` reports nothing to the control object and runs no
  -- command.
  pub finalize-waits :
      (id : String) (live : Record) (l : Ledger) (w : World)
      → IsNotGone env l
      → ((finalize env id live l w).1.calls ≡ w.calls)
        × ((finalize env id live l w).1.commands ≡ w.commands)
  finalize-waits id live l w h =
      let p = (finalize-Stays_silent id live l h).within w in
      (Adds-none p.new_calls, Adds-none p.new_commands)
