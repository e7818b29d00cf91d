-- ===== src/Consumer/Proofs/Steps.antt =====
-- What a method of the consumer adds to what it asked of the control object and to the commands that it ran, put
-- together from what its parts add.
use universal_agent_middlewa.Prelude.{
  ℕ, suc, ◌≡◌, refl, ◌∙◌, subst, String, Bool, true, false, Option, none, some, List, ◌∷◌,
  if◌then◌else◌,
}
use universal_agent_middlewa.Consumer.Journal.{Record, Phase, Ledger}
use universal_agent_middlewa.Consumer.Port.{
  World, Env, Proc, Ran, Refusal, done, refused, raised, continue, ◌>>=◌, pure, refuse, fail, ask,
  append, or_fail, plain_record, back_off, defer, UamCall,
}
use universal_agent_middlewa.Consumer.Admit.{require, or_refuse}
use universal_agent_middlewa.Consumer.Stop.{note, is_last_advisory}

-- The new list is the old one with items before it that all are as Q says.
pub data Adds {A : Type 0} (Q : A → Type 0) : List A → List A → Type 0 where
  nothing : {l : List A} → Adds Q l l
  one_more : {a : A} {l k : List A} → Q a → Adds Q l k → Adds Q l (a ∷ k)

module _ {A : Type 0} {Q : A → Type 0} where
  pub Adds-trans : {l k m : List A} → Adds Q l k → Adds Q k m → Adds Q l m
  Adds-trans p nothing = p
  Adds-trans p (one_more q r) = one_more q (Adds-trans p r)

  pub Adds-of_same : {l k : List A} → l ≡ k → Adds Q l k
  Adds-of_same {l = l} e = subst (Adds Q l) e nothing

pub Adds-more :
    {A : Type 0} {P Q : A → Type 0} {l k : List A} → ((a : A) → P a → Q a) → Adds P l k → Adds Q l k
Adds-more h nothing = nothing
Adds-more h (one_more {a = a} p r) = one_more (h a p) (Adds-more h r)

pub record Within (Q : UamCall → Type 0) (S : String → Type 0) (w v : World) : Type 0 where
  pub new_calls : Adds Q w.calls v.calls
  pub new_commands : Adds S w.commands v.commands

-- Every run of the method stays within.
pub record Stays (Q : UamCall → Type 0) (S : String → Type 0) {A : Type 0} (m : Proc A)
    : Type 0 where
  pub within : (w : World) → Within Q S w (m w).1

-- A method that asks nothing of the control object and runs no command.
pub record Quiet {A : Type 0} (m : Proc A) : Type 0 where
  pub same_calls : (w : World) → w.calls ≡ (m w).1.calls
  pub same_commands : (w : World) → w.commands ≡ (m w).1.commands

-- More is allowed.
pub Stays-more :
    {P Q : UamCall → Type 0} {S : String → Type 0} {A : Type 0} {m : Proc A}
    → ((c : UamCall) → P c → Q c)
    → Stays P S m
    → Stays Q S m
Stays-more h p = record {
  within = λ w. record {
    new_calls = Adds-more h (p.within w).new_calls;
    new_commands = (p.within w).new_commands;
  };
}

module _ {Q : UamCall → Type 0} {S : String → Type 0} where
  pub Within-trans : {w v u : World} → Within Q S w v → Within Q S v u → Within Q S w u
  Within-trans p q = record {
    new_calls = Adds-trans p.new_calls q.new_calls;
    new_commands = Adds-trans p.new_commands q.new_commands;
  }

  pub Quiet-Stays : {A : Type 0} {m : Proc A} → Quiet m → Stays Q S m
  Quiet-Stays h = record {
    within = λ w. record {
      new_calls = Adds-of_same (h.same_calls w);
      new_commands = Adds-of_same (h.same_commands w);
    };
  }

  pub continue-Within :
      {A B : Type 0} (w v : World) (r : Ran A) (f : A → Proc B)
      → Within Q S w v
      → ((a : A) → r ≡ done a → Within Q S v (f a v).1)
      → Within Q S w (continue r v f).1
  continue-Within w v (done a) f p h = Within-trans p (h a refl)
  continue-Within w v (refused r) f p h = p
  continue-Within w v raised f p h = p

  -- The second part is only asked what it does after a first part that returned.
  pub Stays-bind_done :
      {A B : Type 0} {m : Proc A} (f : A → Proc B)
      → Stays Q S m
      → ((w : World) (a : A) → (m w).0 ≡ done a → Stays Q S (f a))
      → Stays Q S (m >>= f)
  unfolding ◌>>=◌
  Stays-bind_done {m = m} f p h = record {
    within =
        λ w. continue-Within w (m w).1 (m w).0 f (p.within w) (λ a e. (h w a e).within (m w).1);
  }

  pub Stays-bind :
      {A B : Type 0} {m : Proc A} (f : A → Proc B)
      → Stays Q S m
      → ((a : A) → Stays Q S (f a))
      → Stays Q S (m >>= f)
  Stays-bind f p h = Stays-bind_done f p (λ w a e. h a)

  pub Stays-ask :
      {A B : Type 0} (answer : ℕ → A) (f : A → Proc B)
      → ((n : ℕ) → Stays Q S (f (answer n)))
      → Stays Q S (ask answer >>= f)
  unfolding ◌>>=◌ ask
  Stays-ask answer f h = record {
    within = λ w.
        let p = (h w.questions).within (record w { questions = suc w.questions }) in
        record { new_calls = p.new_calls; new_commands = p.new_commands };
  }

  -- Each branch is asked where the test answers so.
  pub Stays-test :
      {A : Type 0} (b : Bool) {m n : Proc A}
      → (b ≡ true → Stays Q S m)
      → (b ≡ false → Stays Q S n)
      → Stays Q S (if b then m else n)
  Stays-test true p q = p refl
  Stays-test false p q = q refl

  pub Stays-if :
      {A : Type 0} (b : Bool) {m n : Proc A}
      → Stays Q S m
      → Stays Q S n
      → Stays Q S (if b then m else n)
  Stays-if true p q = p
  Stays-if false p q = q

module _ {A B : Type 0} where
  continue-calls :
      (l : List UamCall) (v : World) (r : Ran A) (f : A → Proc B)
      → l ≡ v.calls
      → ((a : A) → Quiet (f a))
      → l ≡ (continue r v f).1.calls
  continue-calls l v (done a) f p h = p ∙ (h a).same_calls v
  continue-calls l v (refused r) f p h = p
  continue-calls l v raised f p h = p

  continue-commands :
      (l : List String) (v : World) (r : Ran A) (f : A → Proc B)
      → l ≡ v.commands
      → ((a : A) → Quiet (f a))
      → l ≡ (continue r v f).1.commands
  continue-commands l v (done a) f p h = p ∙ (h a).same_commands v
  continue-commands l v (refused r) f p h = p
  continue-commands l v raised f p h = p

  pub Quiet-bind :
      {m : Proc A} (f : A → Proc B) → Quiet m → ((a : A) → Quiet (f a)) → Quiet (m >>= f)
  unfolding ◌>>=◌
  Quiet-bind {m = m} f p h = record {
    same_calls = λ w. continue-calls w.calls (m w).1 (m w).0 f (p.same_calls w) h;
    same_commands = λ w. continue-commands w.commands (m w).1 (m w).0 f (p.same_commands w) h;
  }

pub Quiet-if :
    {A : Type 0} (b : Bool) {m n : Proc A} → Quiet m → Quiet n → Quiet (if b then m else n)
Quiet-if true p q = p
Quiet-if false p q = q

pub pure-Quiet : {A : Type 0} (a : A) → Quiet (pure a)
unfolding pure
pure-Quiet a = record { same_calls = λ v. refl; same_commands = λ v. refl }

pub refuse-Quiet : {A : Type 0} (r : Refusal) → Quiet {A = A} (refuse r)
unfolding refuse
refuse-Quiet r = record { same_calls = λ v. refl; same_commands = λ v. refl }

pub fail-Quiet : {A : Type 0} → Quiet {A = A} fail
unfolding fail
fail-Quiet = record { same_calls = λ v. refl; same_commands = λ v. refl }

pub ask-Quiet : {A : Type 0} (answer : ℕ → A) → Quiet (ask answer)
unfolding ask
ask-Quiet answer = record { same_calls = λ v. refl; same_commands = λ v. refl }

pub append-Quiet : (r : Record) → Quiet (append r)
unfolding append
append-Quiet r = record { same_calls = λ v. refl; same_commands = λ v. refl }

pub or_fail-Quiet : {A : Type 0} (o : Option A) → Quiet (or_fail o)
unfolding or_fail
or_fail-Quiet none = fail-Quiet
or_fail-Quiet (some a) = pure-Quiet a

pub or_refuse-Quiet : {A : Type 0} (o : Option A) (r : Refusal) → Quiet (or_refuse o r)
unfolding or_refuse
or_refuse-Quiet none r = refuse-Quiet r
or_refuse-Quiet (some a) r = pure-Quiet a

pub require-Quiet : (b : Bool) (r : Refusal) → Quiet (require b r)
unfolding require
require-Quiet true r = pure-Quiet tt
require-Quiet false r = refuse-Quiet r

pub note-Quiet :
    (id : String) (phase : Phase) (code : String) (l : Ledger) → Quiet (note id phase code l)
unfolding note
note-Quiet id phase code l =
    Quiet-if (is_last_advisory l.advisory phase code) (pure-Quiet tt)
      (append-Quiet (record (plain_record id phase) { code = code }))

module _ (env : Env) where
  pub defer-Quiet : (id : String) (micros : ℕ) → Quiet (defer env id micros)
  unfolding defer
  defer-Quiet id micros = record { same_calls = λ v. refl; same_commands = λ v. refl }

  pub back_off-Quiet : (id : String) → Quiet (back_off env id)
  unfolding back_off defer
  back_off-Quiet id = record { same_calls = λ v. refl; same_commands = λ v. refl }
