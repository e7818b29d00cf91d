-- ===== src/TaskControl/Proofs/Quiet.antt =====
-- The methods of task_control.py that change no delivery, no claim and no stored result: those that ask, read or
-- write to the audit log.
use universal_agent_middlewa.Prelude.{
  ℕ, refl, String, Bool, true, false, Option, none, some, if◌then◌else◌, arith, ◌∙◌,
}
use universal_agent_middlewa.Prelude.PyValue.{PyValue, py_str}
use universal_agent_middlewa.TaskControl.Model.{Code, Delivery, Effect}
use universal_agent_middlewa.TaskControl.Result.{Result, ok, err}
use universal_agent_middlewa.TaskControl.Wire.{
  AuditRecord, AuthorityRequest, VerifierAnswer, raises, no_decision, decision, Binding,
  DoneOutcome,
}
use universal_agent_middlewa.TaskControl.Port.{
  Env, Proc, ◌>>=◌, continue, pure, raise, lift, ask, now, observe, append_audit,
}
use universal_agent_middlewa.TaskControl.Authority.{
  or_raise, record_denial, record_allow, record_done, record_unavailable, judge, verdict,
  refuse_unless_none, decide, authorize,
}
use universal_agent_middlewa.TaskControl.Lookup.{deliverable, bound_contract}
use universal_agent_middlewa.TaskControl.Views.{view, view_with}
use universal_agent_middlewa.TaskControl.Proofs.History.{same, more, IsPast-trans}
use universal_agent_middlewa.TaskControl.Proofs.Store.{IsQuiet}

module _ {A : Type 0} where
  pub IsQuiet-pure : (a : A) → IsQuiet (pure a)
  unfolding pure
  IsQuiet-pure a = record {
    deliveries = λ w. refl;
    by_contract = λ w. refl;
    results_kept = λ w id s h. h;
    log_kept = λ w. same;
  }

  pub IsQuiet-lift : (r : Result A) → IsQuiet (lift r)
  unfolding lift
  IsQuiet-lift r = record {
    deliveries = λ w. refl;
    by_contract = λ w. refl;
    results_kept = λ w id s h. h;
    log_kept = λ w. same;
  }

  pub IsQuiet-raise : (c : Code) → IsQuiet (raise {A = A} c)
  unfolding raise
  IsQuiet-raise c = record {
    deliveries = λ w. refl;
    by_contract = λ w. refl;
    results_kept = λ w id s h. h;
    log_kept = λ w. same;
  }

  pub IsQuiet-ask : (answer : ℕ → A) → IsQuiet (ask answer)
  unfolding ask
  IsQuiet-ask answer = record {
    deliveries = λ w. refl;
    by_contract = λ w. refl;
    results_kept = λ w id s h. h;
    log_kept = λ w. same;
  }

  pub IsQuiet-if : (b : Bool) (m n : Proc A) → IsQuiet m → IsQuiet n → IsQuiet (if b then m else n)
  IsQuiet-if true m n p q = p
  IsQuiet-if false m n p q = q

module _ {A B : Type 0} where
  IsQuiet-continue :
      (r : Result A) (f : A → Proc B) → ((a : A) → IsQuiet (f a)) → IsQuiet (λ w. continue r w f)
  IsQuiet-continue (ok a) f q = record {
    deliveries = (q a).deliveries;
    by_contract = (q a).by_contract;
    results_kept = (q a).results_kept;
    log_kept = (q a).log_kept;
  }
  IsQuiet-continue (err c) f q = record {
    deliveries = λ w. refl;
    by_contract = λ w. refl;
    results_kept = λ w id s h. h;
    log_kept = λ w. same;
  }

  pub IsQuiet-bind :
      (m : Proc A) (f : A → Proc B) → IsQuiet m → ((a : A) → IsQuiet (f a)) → IsQuiet (m >>= f)
  unfolding ◌>>=◌
  IsQuiet-bind m f p q = record {
    deliveries = λ w. (IsQuiet-continue (m w).0 f q).deliveries (m w).1 ∙ p.deliveries w;
    by_contract = λ w. (IsQuiet-continue (m w).0 f q).by_contract (m w).1 ∙ p.by_contract w;
    results_kept = λ w id s h.
        (IsQuiet-continue (m w).0 f q).results_kept (m w).1 id s (p.results_kept w id s h);
    log_kept = λ w. IsPast-trans (p.log_kept w) ((IsQuiet-continue (m w).0 f q).log_kept (m w).1);
  }

pub ruleset quiet_rules =
    (IsQuiet-pure, IsQuiet-lift, IsQuiet-raise, IsQuiet-ask, IsQuiet-if, IsQuiet-bind)

module _ (env : Env) where
  pub now-IsQuiet : IsQuiet (now env)
  unfolding now
  now-IsQuiet = search quiet_rules

  pub observe-IsQuiet : (d : Delivery) → IsQuiet (observe env d)
  unfolding observe
  observe-IsQuiet d = search quiet_rules

  append_audit-IsQuiet : (r : AuditRecord) → IsQuiet (append_audit env r)
  unfolding append_audit
  append_audit-IsQuiet r = record {
    deliveries = λ w. ground arith;
    by_contract = λ w. ground arith;
    results_kept = λ w id s h. ground arith;
    log_kept = λ w. grind (arith, same, more);
  }

  or_raise-IsQuiet : (b : Bool) → IsQuiet (or_raise b)
  unfolding or_raise
  or_raise-IsQuiet true = search quiet_rules
  or_raise-IsQuiet false = search quiet_rules

  record_denial-IsQuiet :
      (r : AuthorityRequest) (reason : PyValue) → IsQuiet (record_denial env r reason)
  unfolding record_denial
  record_denial-IsQuiet r reason = search (quiet_rules, append_audit-IsQuiet, or_raise-IsQuiet)

  pub record_done-IsQuiet :
      (action : String) (d : Delivery) (outcome : DoneOutcome) (who : String)
      → IsQuiet (record_done env action d outcome who)
  unfolding record_done
  record_done-IsQuiet action d outcome who =
      search (quiet_rules, append_audit-IsQuiet, or_raise-IsQuiet)

  record_allow-IsQuiet :
      (r : AuthorityRequest) (reason : PyValue) → IsQuiet (record_allow env r reason)
  unfolding record_allow
  record_allow-IsQuiet r reason = search (quiet_rules, append_audit-IsQuiet)

  record_unavailable-IsQuiet : (r : AuthorityRequest) → IsQuiet (record_unavailable env r)
  unfolding record_unavailable
  record_unavailable-IsQuiet r = search (quiet_rules, append_audit-IsQuiet)

  judge-IsQuiet : (r : AuthorityRequest) (answer : VerifierAnswer) → IsQuiet (judge env r answer)
  unfolding judge
  judge-IsQuiet r raises = search (quiet_rules, record_denial-IsQuiet)
  judge-IsQuiet r no_decision = search (quiet_rules, record_denial-IsQuiet)
  judge-IsQuiet r (decision allowed reason) =
      search (quiet_rules, record_denial-IsQuiet, record_allow-IsQuiet, record_unavailable-IsQuiet)
        depth 8

  verdict-IsQuiet : (r : AuthorityRequest) → IsQuiet (verdict env r)
  unfolding verdict
  verdict-IsQuiet r = search (quiet_rules, record_denial-IsQuiet, judge-IsQuiet) depth 7

  refuse_unless_none-IsQuiet : (o : Option (PyValue × Bool)) → IsQuiet (refuse_unless_none env o)
  unfolding refuse_unless_none
  refuse_unless_none-IsQuiet none = search quiet_rules
  refuse_unless_none-IsQuiet (some _) = search quiet_rules

  decide-IsQuiet : (r : AuthorityRequest) → IsQuiet (decide env r)
  unfolding decide
  decide-IsQuiet r = search (quiet_rules, verdict-IsQuiet, refuse_unless_none-IsQuiet)

  pub authorize-IsQuiet :
      (effect who ref : String) (id : Option String) (b : Binding) (task : Option String)
      (revision : Option ℕ)
      → IsQuiet (authorize env effect who ref id b task revision)
  unfolding authorize
  authorize-IsQuiet effect who ref id b task revision = decide-IsQuiet _

  pub deliverable-IsQuiet : (c d : PyValue) → IsQuiet (deliverable env c d)
  unfolding deliverable
  deliverable-IsQuiet (py_str c) (py_str d) = search quiet_rules
  deliverable-IsQuiet _ _ = IsQuiet-raise _

  pub bound_contract-IsQuiet : (d : Delivery) → IsQuiet (bound_contract env d)
  unfolding bound_contract
  bound_contract-IsQuiet d = deliverable-IsQuiet (py_str d.contract_id) (py_str d.contract_digest)

  view_with-IsQuiet :
      (moment : ℕ) (d : Delivery) (viewer : String) (o : Option Effect)
      → IsQuiet (view_with moment d viewer o)
  unfolding view_with
  view_with-IsQuiet moment d viewer none = IsQuiet-raise _
  view_with-IsQuiet moment d viewer (some effect) = IsQuiet-pure _

  pub view-IsQuiet : (d : Delivery) (viewer : String) → IsQuiet (view env d viewer)
  unfolding view
  view-IsQuiet d viewer =
      IsQuiet-bind _ _ now-IsQuiet (λ moment. view_with-IsQuiet moment d viewer _)
