-- ===== src/TaskControl/Proofs/Authorized.antt =====
-- What a passed authorisation of task_control.py means: the verifier allowed exactly this request, and the allow is
-- on the audit log.
use universal_agent_middlewa.Prelude.{
  ℕ, suc, ap, ◌≡◌, refl, String, Bool, true, Option, none, some, ◌∷◌, ◌∙◌, arith,
}
use universal_agent_middlewa.Prelude.PyValue.{PyValue}
use universal_agent_middlewa.TaskControl.Result.{Result, ok, err}
use universal_agent_middlewa.TaskControl.Wire.{
  AuthorityRequest, VerifierAnswer, raises, no_decision, decision, Binding,
}
use universal_agent_middlewa.TaskControl.Port.{World, Env, Proc, ◌>>=◌, continue, append_audit}
use universal_agent_middlewa.TaskControl.Authority.{
  verdict, is_allow, allow_entry, request_v1, judge, refuse_unless_none, authorize, record_allow,
  record_denial,
}

module _ {A B : Type 0} where
  continue-eq-ok :
      (r : Result A) (u : World) (f : A → Proc B) {b : B}
      → (continue r u f).0 ≡ ok b
      → (a : A) × (r ≡ ok a) × ((f a u).0 ≡ ok b) × ((continue r u f).1 ≡ (f a u).1)
  continue-eq-ok (ok a) u f h = (a, refl, h, refl)
  continue-eq-ok (err c) u f h = cc

  -- What a block that returned says of its first step and of the rest.
  pub bind-eq-ok :
      (m : Proc A) (f : A → Proc B) (w : World) {b : B}
      → ((m >>= f) w).0 ≡ ok b
      → (a : A) × ((m w).0 ≡ ok a) × ((f a (m w).1).0 ≡ ok b) × (((m >>= f) w).1 ≡ (f a (m w).1).1)
  unfolding ◌>>=◌
  bind-eq-ok m f w h = continue-eq-ok (m w).0 (m w).1 f h

-- The verifier's answer to its question is an explicit allow, and it stands on the log of the world `after`.
pub record IsAllowed (env : Env) (r : AuthorityRequest) (answer : VerifierAnswer)
    (before after : World) : Type 0 where
  pub allowed : PyValue
  pub reason : PyValue
  pub answered : answer ≡ decision allowed reason
  pub explicit : is_allow allowed ≡ true
  pub audited : env.audit_wired ≡ true → after.audit_log ≡ allow_entry r reason ∷ before.audit_log

module _ (env : Env) where
  judged :
      (r : AuthorityRequest) (answer : VerifierAnswer) (w : World)
      → (judge env r answer w).0 ≡ ok none
      → IsAllowed env r answer w (judge env r answer w).1
  unfolding judge record_denial record_allow append_audit ◌>>=◌
  judged r raises w h = ground arith
  judged r no_decision w h = ground arith
  judged r (decision allowed reason) w h = record {
    allowed = allowed;
    reason = reason;
    answered = refl;
    explicit = ground arith;
    audited = ground arith;
  }

  verdict-IsAllowed :
      (effect who ref : String) (id : Option String) (b : Binding) (task : Option String)
      (revision : Option ℕ) (w : World)
      → (verdict env (request_v1 effect who ref id b task revision) w).0 ≡ ok none
      → IsAllowed env
          (request_v1 effect who ref id b task revision)
          (env.verify w.questions (request_v1 effect who ref id b task revision))
          w
          (verdict env (request_v1 effect who ref id b task revision) w).1
  unfolding verdict request_v1 ◌>>=◌
  verdict-IsAllowed effect who ref id b task revision w h =
      let j = judged _ _ (record w { questions = suc w.questions }) h in
      record {
        allowed = j.allowed;
        reason = j.reason;
        answered = j.answered;
        explicit = j.explicit;
        audited = j.audited;
      }

  accepted :
      (o : Option (PyValue × Bool)) (w : World)
      → (refuse_unless_none env o w).0 ≡ ok tt
      → (o ≡ none) × ((refuse_unless_none env o w).1 ≡ w)
  unfolding refuse_unless_none ◌>>=◌
  accepted none w h = (refl, refl)
  accepted (some x) w h = cc

  -- `_authorize` returns only when the verifier, asked exactly this request, explicitly allowed it, and,
  -- where an audit sink is wired, with the allow as the newest record of the log.
  pub authorize-IsAllowed :
      (effect who ref : String) (id : Option String) (b : Binding) (task : Option String)
      (revision : Option ℕ) (w : World)
      → (authorize env effect who ref id b task revision w).0 ≡ ok tt
      → IsAllowed env
          (request_v1 effect who ref id b task revision)
          (env.verify w.questions (request_v1 effect who ref id b task revision))
          w
          (authorize env effect who ref id b task revision w).1
  unfolding authorize
  authorize-IsAllowed effect who ref id b task revision w h =
      let r = request_v1 effect who ref id b task revision in
      let (o, decided, passed, end_world) =
        bind-eq-ok (verdict env r) (refuse_unless_none env) w h in
      let (allowed, still) = accepted o (verdict env r w).1 passed in
      rw (end_world ∙ still)
        (verdict-IsAllowed effect who ref id b task revision w (decided ∙ ap ok allowed))
