-- ===== src/TaskControl/Port.antt =====
-- What a TaskControl is wired to, and the store that it works on. The clock, the verifier, the audit
-- sink, ContractStore and ResultV2Store answer from outside: `Env` gives their answer to the n-th
-- question of a run, so two questions may get different answers. The World holds the files that
-- TaskControl and the result store write; an exception leaves written what was written before it.
use universal_agent_middlewa.Prelude.{
  ℕ, suc, String, Bool, true, false, Option, none, some, List, ◌∷◌, if◌then◌else◌,
}
use universal_agent_middlewa.Prelude.PyValue.{PyValue}
use universal_agent_middlewa.Prelude.Dict.{Dict, put}
use universal_agent_middlewa.TaskControl.Model.{Code, internal, Observation, Delivery}
use universal_agent_middlewa.TaskControl.Rules.{contract_missing_observation}
use universal_agent_middlewa.TaskControl.Wire.{
  Moment, Binding, ResultDoc, StoredResult, Review, Payload, AuthorityRequest, VerifierAnswer,
  AuditRecord,
}
use universal_agent_middlewa.TaskControl.Result.{Result, ok, err}

pub record World : Type 0 where
  pub questions : ℕ
  pub deliveries : Dict Delivery
  pub by_contract : Dict String
  pub results : Dict StoredResult
  pub audit_log : List AuditRecord

pub record Env : Type 0 where
  pub clock : ℕ → Moment
  -- `binding(contract_id)`; `none` is a ContractError
  pub contract_binding : ℕ → String → Option Binding
  -- `observe_baseline(contract_id)`; `none` is a ContractError
  pub observe_baseline : ℕ → String → Option Observation
  pub verify : ℕ → AuthorityRequest → VerifierAnswer
  -- `request_version` of the verifier, if it declares one
  pub verifier_version : Option PyValue
  pub audit_wired : Bool
  -- whether the sink's `append` returns
  pub audit_appends : ℕ → AuditRecord → Bool
  -- `submission_digest(payload)`; `none` is a ContractError
  pub submission_digest : ResultDoc → Option String
  -- whether `put` admits a result whose identifier is new
  pub admits : ℕ → ResultDoc → Bool
  pub review : ℕ → StoredResult → Review
  pub contract_record : ℕ → String → Option String
  -- `canonical_digest` of a delivery's payload
  pub payload_digest : Payload → String
  -- hashlib.sha256(...).hexdigest()
  pub sha256_hex : String → String
  -- what other processes write to the store before this one gets the lock
  pub others : ℕ → World → World

-- A method: it may raise, and changes the world.
abbrev pub Proc : Type 0 → Type 0
Proc A = World → Result A × World

abbrev pub continue : {A B : Type 0} → Result A → World → (A → Proc B) → Result B × World
continue (ok a) w f = f a w
continue (err c) w f = (err c, w)

unfoldable pub pure : {A : Type 0} → A → Proc A
pure a w = (ok a, w)

unfoldable pub raise : {A : Type 0} → Code → Proc A
raise c w = (err c, w)

unfoldable pub lift : {A : Type 0} → Result A → Proc A
lift r w = (r, w)

-- One question to the outside.
unfoldable pub ask : {A : Type 0} → (ℕ → A) → Proc A
ask answer w = (ok (answer w.questions), record w { questions = suc w.questions })

unfoldable pub modify : (World → World) → Proc (Unit {0})
modify f w = (ok tt, f w)

infixl 5 ◌>>=◌ ◌>>◌
unfoldable pub ◌>>=◌ : {A B : Type 0} → Proc A → (A → Proc B) → Proc B
unfolding pure raise lift ask modify
◌>>=◌ m f w = let r = m w in continue r.0 r.1 f

abbrev pub ◌>>◌ : {A B : Type 0} → Proc A → Proc B → Proc B
m >> n = m >>= λ _. n

unfoldable pub aware_only : Moment → Result ℕ
aware_only m = if m.aware then ok m.micros else err internal

unfoldable pub or_contract_missing : Option Observation → Observation
or_contract_missing none = contract_missing_observation
or_contract_missing (some o) = o

module _ (env : Env) where
  -- `_now`
  unfoldable pub now : Proc ℕ
  unfolding aware_only
  now = ask env.clock >>= λ m. lift (aware_only m)

  -- `_observe`
  unfoldable pub observe : Delivery → Proc Observation
  unfolding or_contract_missing contract_missing_observation
  observe d = ask (λ n. env.observe_baseline n d.contract_id) >>= λ o. pure (or_contract_missing o)

  -- `_save`: the file of a delivery is replaced
  unfoldable pub save : Delivery → Proc (Unit {0})
  save d = modify (λ w. record w { deliveries = put w.deliveries d.delivery_id d })

  -- An audit sink's `append`.
  unfoldable pub append_audit : AuditRecord → Proc Bool
  append_audit r w =
      let n = w.questions in
      if env.audit_appends n r
      then (ok true, record w { questions = suc n; audit_log = r ∷ w.audit_log })
      else (ok false, record w { questions = suc n })
