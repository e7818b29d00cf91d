-- ===== src/Consumer/Admit.antt =====
-- Every reason not to start a delivery: `_admit` of consumer.py and the checks that it makes.
use universal_agent_middlewa.Prelude.{
  ℕ, String, Bool, true, false, not, ◌&&◌, ◌||◌, Option, none, some, List, [], ◌∷◌, any, str_eq,
}
use universal_agent_middlewa.Consumer.Journal.{Phase, denied, blocked, held}
use universal_agent_middlewa.Consumer.Rules.{Rule, Item, match_rule, is_set}
use universal_agent_middlewa.Consumer.Port.{
  Env, Proc, ◌>>=◌, ◌>>◌, pure, refuse, ask, Refusal, View, Contract, Adapter,
}

pub record Admission : Type 0 where
  pub index : ℕ
  pub rule : Rule
  pub cwd : String
  pub contract : Contract

abbrev pub refusal : String → Refusal
refusal code = record { code = code; phase = denied; retry = none }

abbrev pub refusal_in : Phase → String → Refusal
refusal_in phase code = record { code = code; phase = phase; retry = none }

unfoldable pub require : Bool → Refusal → Proc (Unit {0})
require true r = pure tt
require false r = refuse r

unfoldable pub or_refuse : {A : Type 0} → Option A → Refusal → Proc A
or_refuse none r = refuse r
or_refuse (some a) r = pure a

unfoldable pub is_none : {A : Type 0} → Option A → Bool
is_none none = true
is_none (some a) = false

unfoldable pub is_empty : {A : Type 0} → List A → Bool
is_empty [] = true
is_empty (x ∷ l) = false

unfoldable pub text_of : Option String → String
text_of none = ""
text_of (some s) = s

unfoldable pub knows_worker : Option (String → Bool) → Option String → Proc (Unit {0})
knows_worker none worker = pure tt
knows_worker (some known) worker =
    require (is_set worker) (refusal "WORKER_REQUIRED")
    >> require (known (text_of worker)) (refusal "WORKER_NOT_REGISTERED")

-- command not in rule.verification_allowlist, for some command
unfoldable pub outside_allowlist : List String → List String → Bool
outside_allowlist allowed commands = any (λ c. not (any (str_eq c) allowed)) commands

-- `_check_rule_against`
unfoldable pub check_rule_against : Rule → Adapter → Contract → Proc (Unit {0})
check_rule_against rule adapter contract = do
  require (not adapter.needs_session || is_set rule.session) (refusal "SESSION_REQUIRED")
  knows_worker adapter.known_worker rule.worker
  require (not (is_empty contract.allowed_change_paths)) (refusal "NO_ALLOWED_PATHS")
  require (str_eq contract.baseline_kind "file-digests") (refusal "BASELINE_KIND_UNSUPPORTED")
  require (not (outside_allowlist rule.verification_allowlist contract.verification_commands))
      (refusal "VERIFICATION_NOT_ALLOWLISTED")

module _ (env : Env) where
  -- `_checked_cwd`
  unfoldable pub checked_cwd : Rule → Contract → Proc String
  checked_cwd rule contract = do
    require (is_set rule.cwd && env.is_absolute (text_of rule.cwd)) (refusal "CWD_REQUIRED")
    answer ← ask (λ n. env.root_of n contract.workspace_id)
    root ← or_refuse answer (refusal "WORKSPACE_UNRESOLVED")
    require (str_eq (env.resolve (text_of rule.cwd)) root) (refusal "CWD_MISMATCH")
    pure root

  unfoldable pub not_held : Option String → Proc (Unit {0})
  not_held none = pure tt
  not_held (some code) = refuse (refusal_in held code)

  -- `_admit`
  unfoldable pub admit : Item → View → Proc Admission
  admit item view = do
    require (not view.content_withheld) (refusal "CONTENT_WITHHELD")
    contract ← or_refuse view.contract (refusal "CONTRACT_UNREADABLE")
    require (is_empty view.attempts) (refusal_in blocked "PRIOR_ATTEMPT_NO_AUTOMATIC_REDO")
    rules ← ask env.policy
    matched ← or_refuse (match_rule rules item) (refusal "NO_RULE")
    adapter ← or_refuse (env.adapters (matched.1).adapter) (refusal "ADAPTER_NOT_REGISTERED")
    cwd ← checked_cwd matched.1 contract
    check_rule_against matched.1 adapter contract
    answer ← ask (λ n. env.preflight n (matched.1).adapter)
    not_held answer
    pure (record { index = matched.0; rule = matched.1; cwd = cwd; contract = contract })
