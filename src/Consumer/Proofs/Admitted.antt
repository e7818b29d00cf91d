-- ===== src/Consumer/Proofs/Admitted.antt =====
-- What holds of a delivery that `_admit` of consumer.py lets through.
use universal_agent_middlewa.Prelude.{
  ℕ, ◌≡◌, refl, ap, subst, ◌∙◌, String, Bool, true, false, not, Option, none, some, List, [], ◌∷◌,
  if◌then◌else◌, str_eq_iff,
}
use universal_agent_middlewa.Consumer.Rules.{Rule, Item, match_rule}
use universal_agent_middlewa.Consumer.Port.{
  World, Env, Proc, Ran, Refusal, done, refused, raised, continue, ◌>>=◌, pure, refuse, fail, ask,
  or_fail, View, Contract, Adapter,
}
use universal_agent_middlewa.Consumer.Admit.{
  Admission, require, or_refuse, is_empty, text_of, knows_worker, outside_allowlist,
  check_rule_against, checked_cwd, not_held, admit,
}

-- Every value that the method returns is as P says.
pub record Gives {A : Type 0} (P : A → Type 0) (m : Proc A) : Type 0 where
  pub given : (w : World) (a : A) → (m w).0 ≡ done a → P a

module _ {A B : Type 0} {P : A → Type 0} {R : B → Type 0} where
  continue-given :
      (r : Ran A) (v : World) (f : A → Proc B)
      → ((a : A) → r ≡ done a → P a)
      → ((a : A) → P a → Gives R (f a))
      → (b : B) → (continue r v f).0 ≡ done b
      → R b
  continue-given (done a) v f h k b e = (k a (h a refl)).given v b e
  continue-given (refused r) v f h k b e = cc
  continue-given raised v f h k b e = cc

  pub Gives-bind :
      {m : Proc A} (f : A → Proc B)
      → Gives P m
      → ((a : A) → P a → Gives R (f a))
      → Gives R (m >>= f)
  unfolding ◌>>=◌
  Gives-bind {m = m} f h k = record {
    given = λ w b e. continue-given (m w).0 (m w).1 f (h.given w) k b e;
  }

module _ {A : Type 0} where
  pub done_inj : {a b : A} → done a ≡ done b → a ≡ b
  done_inj e = cc

  refuse-Gives : {P : A → Type 0} (r : Refusal) → Gives P (refuse r)
  unfolding refuse
  refuse-Gives r = record { given = λ w a e. cc }

  pub fail-Gives : {P : A → Type 0} → Gives P fail
  unfolding fail
  fail-Gives = record { given = λ w a e. cc }

  pub pure-Gives : {P : A → Type 0} (a : A) → P a → Gives P (pure a)
  unfolding pure
  pure-Gives {P = P} a p = record { given = λ w b e. subst P (done_inj e) p }

  pub Gives-test :
      {P : A → Type 0} (b : Bool) {m n : Proc A}
      → (b ≡ true → Gives P m)
      → (b ≡ false → Gives P n)
      → Gives P (if b then m else n)
  Gives-test true p q = p refl
  Gives-test false p q = q refl

  -- Nothing is said of the value.
  pub Gives-any : (m : Proc A) → Gives (λ a. Unit {0}) m
  Gives-any m = record { given = λ w a e. tt }

  pub ask-Gives : (answer : ℕ → A) → Gives (λ a. (n : ℕ) × (answer n ≡ a)) (ask answer)
  unfolding ask
  ask-Gives answer = record { given = λ w a e. (w.questions, done_inj e) }

  pub or_refuse-Gives : (o : Option A) (r : Refusal) → Gives (λ a. o ≡ some a) (or_refuse o r)
  unfolding or_refuse
  or_refuse-Gives none r = refuse-Gives r
  or_refuse-Gives (some a) r = pure-Gives a refl

  pub or_fail-Gives : (o : Option A) → Gives (λ a. o ≡ some a) (or_fail o)
  unfolding or_fail
  or_fail-Gives none = fail-Gives
  or_fail-Gives (some a) = pure-Gives a refl

require-Gives : (b : Bool) (r : Refusal) → Gives (λ a. b ≡ true) (require b r)
unfolding require
require-Gives true r = pure-Gives tt refl
require-Gives false r = refuse-Gives r

not-false : (b : Bool) → not b ≡ true → b ≡ false
not-false false e = refl
not-false true e = cc

is_empty-nil : {A : Type 0} (l : List A) → is_empty l ≡ true → l ≡ []
unfolding is_empty
is_empty-nil [] e = refl
is_empty-nil (x ∷ l) e = cc

-- The admission is of a delivery whose content is shown and that nobody has attempted; its rule is the first of
-- the policy that matches, its adapter is there and ready, its directory is the workspace's root, and its commands
-- are all in the rule's list.
pub record IsAdmitted (env : Env) (item : Item) (view : View) (a : Admission) : Type 0 where
  pub shown : view.content_withheld ≡ false
  pub contract_is : view.contract ≡ some a.contract
  pub no_attempt : view.attempts ≡ []
  pub policy_at : ℕ
  pub rule_is : match_rule (env.policy policy_at) item ≡ some (a.index, a.rule)
  pub adapter : Adapter
  pub adapter_is : env.adapters (a.rule).adapter ≡ some adapter
  pub root_at : ℕ
  pub cwd_is_root : env.root_of root_at (a.contract).workspace_id ≡ some a.cwd
  pub cwd_resolves : env.resolve (text_of (a.rule).cwd) ≡ a.cwd
  pub may_change : is_empty (a.contract).allowed_change_paths ≡ false
  pub commands_listed :
      outside_allowlist (a.rule).verification_allowlist (a.contract).verification_commands ≡ false
  pub ready_at : ℕ
  pub ready : env.preflight ready_at (a.rule).adapter ≡ none

-- The last checks of `_check_rule_against`.
record IsChecked (r : Rule) (c : Contract) : Type 0 where
  may_change : is_empty c.allowed_change_paths ≡ false
  commands_listed : outside_allowlist r.verification_allowlist c.verification_commands ≡ false

knows_worker-Gives :
    (known : Option (String → Bool)) (worker : Option String)
    → Gives (λ u. Unit {0}) (knows_worker known worker)
knows_worker-Gives known worker = record { given = λ w a e. tt }

check_rule_against-Gives :
    (r : Rule) (a : Adapter) (c : Contract) → Gives (λ u. IsChecked r c) (check_rule_against r a c)
unfolding check_rule_against
check_rule_against-Gives r a c = Gives-bind _ (require-Gives _ _) (λ u h.
    Gives-bind _ (knows_worker-Gives a.known_worker r.worker) (λ u h.
      Gives-bind _ (require-Gives _ _) (λ u paths. Gives-bind _ (require-Gives _ _) (λ u h. record {
        given = λ w x e. record {
          may_change = not-false _ paths;
          commands_listed = not-false _ ((require-Gives _ _).given w x e);
        };
      }))))

module _ (env : Env) where
  record IsRoot (r : Rule) (c : Contract) (cwd : String) : Type 0 where
    root_at : ℕ
    is_root : env.root_of root_at c.workspace_id ≡ some cwd
    resolves : env.resolve (text_of r.cwd) ≡ cwd

  checked_cwd-Gives : (r : Rule) (c : Contract) → Gives (IsRoot r c) (checked_cwd env r c)
  unfolding checked_cwd
  checked_cwd-Gives r c = Gives-bind _ (require-Gives _ _) (λ u h.
      Gives-bind _ (ask-Gives _) (λ answer asked.
        Gives-bind _ (or_refuse-Gives answer _) (λ root found.
          Gives-bind _ (require-Gives _ _) (λ u same. pure-Gives root (record {
            root_at = asked.0;
            is_root = asked.1 ∙ found;
            resolves = (str_eq_iff (env.resolve (text_of r.cwd)) root).0 same;
          })))))

  not_held-Gives : (o : Option String) → Gives (λ u. o ≡ none) (not_held env o)
  unfolding not_held
  not_held-Gives none = pure-Gives tt refl
  not_held-Gives (some code) = refuse-Gives _

  pub admit-Gives :
      (item : Item) (view : View) → Gives (IsAdmitted env item view) (admit env item view)
  unfolding admit
  admit-Gives item view = Gives-bind _ (require-Gives _ _) (λ u shown.
      Gives-bind _ (or_refuse-Gives view.contract _) (λ contract contract_is.
        Gives-bind _ (require-Gives _ _) (λ u unattempted.
          Gives-bind _ (ask-Gives env.policy) (λ rules policy_is.
            Gives-bind _ (or_refuse-Gives (match_rule rules item) _) (λ matched rule_is.
              Gives-bind _ (or_refuse-Gives (env.adapters (matched.1).adapter) _)
                (λ adapter adapter_is.
                  Gives-bind _ (checked_cwd-Gives matched.1 contract) (λ cwd root.
                    Gives-bind _ (check_rule_against-Gives matched.1 adapter contract) (λ u checked.
                      Gives-bind _ (ask-Gives _) (λ answer asked.
                        Gives-bind _ (not_held-Gives answer) (λ u ready. pure-Gives _ (record {
                          shown = not-false _ shown;
                          contract_is = contract_is;
                          no_attempt = is_empty-nil view.attempts unattempted;
                          policy_at = policy_is.0;
                          rule_is = ap (λ l. match_rule l item) policy_is.1 ∙ rule_is;
                          adapter = adapter;
                          adapter_is = adapter_is;
                          root_at = root.root_at;
                          cwd_is_root = root.is_root;
                          cwd_resolves = root.resolves;
                          may_change = checked.may_change;
                          commands_listed = checked.commands_listed;
                          ready_at = asked.0;
                          ready = asked.1 ∙ ready;
                        })))))))))))
