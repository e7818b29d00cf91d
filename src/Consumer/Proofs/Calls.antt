-- ===== src/Consumer/Proofs/Calls.antt =====
-- The calls of the control object and the commands of consumer.py, one by one.
use universal_agent_middlewa.Prelude.{
  ℕ, suc, ◌≡◌, String, true, List, [], ◌∷◌, any, str_eq, Bool-cases, inl, inr, ◌^^◌,
}
use universal_agent_middlewa.Consumer.Journal.{Record, blocked}
use universal_agent_middlewa.Consumer.Port.{
  Env, Payload, CallAnswer, answered, call_refused, call_raised, UamCall, called_end, called_submit,
}
use universal_agent_middlewa.Consumer.Settle.{ref_of, call, after_call, end, run_one, verify, send}
use universal_agent_middlewa.Consumer.Proofs.Steps.{
  nothing, one_more, Within, Stays, Quiet-Stays, Quiet-bind, Stays-bind, pure-Quiet, fail-Quiet,
  append-Quiet, back_off-Quiet,
}
use universal_agent_middlewa.Consumer.Proofs.Quiet.{note_now-Quiet}

module _ (env : Env) {Q : UamCall → Type 0} {S : String → Type 0} where
  pub call-Stays :
      (answer : ℕ → UamCall → CallAnswer) (c : UamCall) → Q c → Stays Q S (call env answer c)
  unfolding call
  call-Stays answer c q = record {
    within = λ w. record { new_calls = one_more q nothing; new_commands = nothing };
  }

  pub after_call-Stays :
      (id prefix : String) (r : Record) (a : CallAnswer) → Stays Q S (after_call env id prefix r a)
  unfolding after_call
  after_call-Stays id prefix r answered = Quiet-Stays (append-Quiet r)
  after_call-Stays id prefix r (call_refused code) =
      Quiet-Stays
        (Quiet-bind _ (note_now-Quiet env id blocked (prefix ^^ code)) (λ a. back_off-Quiet env id))
  after_call-Stays id prefix r call_raised = Quiet-Stays fail-Quiet

  pub end-Stays :
      (id : String) (live : Record) (reported remark : String)
      → Q (called_end id (ref_of live) live.fence reported remark)
      → Stays Q S (end env id live reported remark)
  unfolding end
  end-Stays id live reported remark q =
      Stays-bind _ (call-Stays env.end_attempt _ q) (λ a. after_call-Stays id "END_REFUSED_" _ a)

  pub send-Stays :
      (id : String) (live : Record) (p : Payload)
      → Q (called_submit id (ref_of live) live.fence p)
      → Stays Q S (send env id live p)
  unfolding send
  send-Stays id live p q =
      Stays-bind _ (call-Stays env.submit _ q) (λ a. after_call-Stays id "SUBMIT_REFUSED_" _ a)

  pub run_one-Stays :
      (cwd : String) (allowed : List String) (command : String)
      → (any (str_eq command) allowed ≡ true → S command)
      → Stays Q S (run_one env cwd allowed command)
  unfolding run_one
  run_one-Stays cwd allowed command h = record {
    within = λ w. elim (Bool-cases (any (str_eq command) allowed)) [
      | inl e ↦
          let p : Within Q S w
              (record w { questions = suc w.questions; commands = command ∷ w.commands }) =
            record { new_calls = nothing; new_commands = one_more (h e) nothing } in
          rw e p
      | inr e ↦
          let p : Within Q S w w = record { new_calls = nothing; new_commands = nothing } in rw e p
    ];
  }

  pub verify-Stays :
      (cwd : String) (allowed commands : List String)
      → ((command : String) → any (str_eq command) allowed ≡ true → S command)
      → Stays Q S (verify env cwd allowed commands)
  unfolding verify
  verify-Stays cwd allowed [] h = Quiet-Stays (pure-Quiet [])
  verify-Stays cwd allowed (command ∷ commands) h =
      Stays-bind _ (run_one-Stays cwd allowed command (h command)) (λ receipt.
        Stays-bind _ (verify-Stays cwd allowed commands h) (λ rest. Quiet-Stays (pure-Quiet _)))
