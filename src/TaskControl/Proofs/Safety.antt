-- ===== src/TaskControl/Proofs/Safety.antt =====
-- What holds of task_control.py over every sequence of calls.
use universal_agent_middlewa.Prelude.{
  ◌≤◌, ◌≡◌, refl, String, true, some, List, [], ◌∷◌, length, arith, ◌∙◌, ap, some, keep,
}
use universal_agent_middlewa.Prelude.PyValue.{PyValue}
use universal_agent_middlewa.Prelude.Dict.{get}
use universal_agent_middlewa.TaskControl.Model.{Delivery, Attempt, is_terminal, is_active_attempt}
use universal_agent_middlewa.TaskControl.Result.{Result, ok, err}
use universal_agent_middlewa.TaskControl.Port.{World, Env, Proc}
use universal_agent_middlewa.TaskControl.Inbox
use universal_agent_middlewa.TaskControl.Calls.{
  Call, deliver, cancel, inbox, start_attempt, submit_result, end_attempt, perform, perform_all,
  empty_world,
}
use universal_agent_middlewa.TaskControl.Proofs.Invariant.{AllEnded, OlderEnded}
use universal_agent_middlewa.TaskControl.Proofs.Spec.{
  IsSound, Grows-refl, Grows-trans, Inv, Post, Spec, Spec-lift,
}
use universal_agent_middlewa.TaskControl.Proofs.Operations.{
  Anything, start_attempt-Spec, cancel-Spec, end_attempt-Spec,
}
use universal_agent_middlewa.TaskControl.Proofs.Writes.{
  OthersAreFair, deliver-Spec, submit_result-Spec,
}

Post-Inv :
    {A : Type 0} {v : World} (r : Result A) (w : World) → Post v (λ _. Anything) r w → Inv v w
Post-Inv (ok a) w h = h.0
Post-Inv (err c) w h = h

Spec-Inv :
    {A : Type 0} (m : Proc A) (w : World)
    → IsSound w
    → Spec w Anything m (λ _. Anything)
    → Inv w (m w).1
Spec-Inv m w s spec =
    Post-Inv (m w).0 (m w).1 (spec.at w (record { sound = s; grown = Grows-refl w }) tt)

inbox-Spec :
    {v : World} (who limit : PyValue) → Spec v Anything (Inbox.inbox who limit) (λ _. Anything)
unfolding Inbox.inbox
inbox-Spec who limit =
    Spec-lift _ _ _ _ λ name _. Spec-lift _ _ _ _ λ number _. record { at = λ w i p. (i, tt) }

-- Where other processes keep the store sound and lose nothing of it: from a sound store any call,
-- whatever its arguments and answers and however it ends, leaves a sound store in which no
-- delivery, claim, stored result or audit record is lost, and every delivery continues as
-- `Continues` says.
pub perform-Inv :
    (env : Env) (c : Call) (w : World) → OthersAreFair env → IsSound w → Inv w (perform env c w)
unfolding perform
perform-Inv env (deliver a) w fair s = Spec-Inv _ w s (deliver-Spec env fair a)
perform-Inv env (cancel who id reason) w fair s = Spec-Inv _ w s (cancel-Spec env who id reason)
perform-Inv env (inbox who limit) w fair s = Spec-Inv _ w s (inbox-Spec who limit)
perform-Inv env (start_attempt who id lease) w fair s =
    Spec-Inv _ w s (start_attempt-Spec env who id lease)
perform-Inv env (submit_result who id ref fence result) w fair s =
    Spec-Inv _ w s (submit_result-Spec env who id ref fence result)
perform-Inv env (end_attempt who id ref fence outcome note) w fair s =
    Spec-Inv _ w s (end_attempt-Spec env who id ref fence outcome note)

pub perform_all-Inv :
    (env : Env) (calls : List Call) (w : World)
    → OthersAreFair env
    → IsSound w
    → Inv w (perform_all env calls w)
unfolding perform_all
perform_all-Inv env [] w fair s = record { sound = s; grown = Grows-refl w }
perform_all-Inv env (c ∷ calls) w fair s =
    let first = perform-Inv env c w fair s in
    let rest = perform_all-Inv env calls (perform env c w) fair first.sound in
    record {
      sound = rest.sound;
      grown =
          Grows-trans w (perform env c w) (perform_all env calls (perform env c w)) first.grown
            rest.grown;
    }

pub empty_world-IsSound : IsSound empty_world
unfolding get
empty_world-IsSound = record {
  consistent = λ id d h. cc;
  keyed = λ id d h. cc;
  claimed = λ id d h. cc;
}

-- Where other processes keep the store sound and lose nothing of it: after any calls from an empty
-- store, two stored deliveries of one contract are one and the same delivery.
pub one_delivery_per_contract :
    (env : Env) (calls : List Call) (id key : String) (d e : Delivery)
    → OthersAreFair env
    → get (perform_all env calls empty_world).deliveries id ≡ some d
    → get (perform_all env calls empty_world).deliveries key ≡ some e
    → d.contract_id ≡ e.contract_id
    → (id ≡ key) × (d ≡ e)
one_delivery_per_contract env calls id key d e fair at_id at_key same =
    let s = (perform_all-Inv env calls empty_world fair empty_world-IsSound).sound in
    let holder = ap (λ c. get (perform_all env calls empty_world).by_contract c) same in
    let k : id ≡ key = cc (s.claimed id d at_id, s.claimed key e at_key, holder) in
    let again = ap (λ x. get (perform_all env calls empty_world).deliveries x) k in
    (k, cc (at_id, at_key, again))

-- The attempts of a list that are active.
abbrev pub running : List Attempt → List Attempt
running l = keep (λ a. is_active_attempt a.state) l

running-AllEnded : (l : List Attempt) → AllEnded l → running l ≡ []
running-AllEnded [] h = refl
running-AllEnded (a ∷ older) h = ground (arith, running-AllEnded older h.1)

running-OlderEnded : (l : List Attempt) → OlderEnded l → length (running l) ≤ 1
running-OlderEnded [] h = omega arith
running-OlderEnded (a ∷ older) h = ground (arith, running-AllEnded older h)

-- Where other processes keep the store sound and lose nothing of it: after any calls from an empty
-- store, a stored delivery has at most one active attempt.
pub at_most_one_active :
    (env : Env) (calls : List Call) (id : String) (d : Delivery)
    → OthersAreFair env
    → get (perform_all env calls empty_world).deliveries id ≡ some d
    → length (running d.attempts) ≤ 1
at_most_one_active env calls id d fair found =
    let s = (perform_all-Inv env calls empty_world fair empty_world-IsSound).sound in
    running-OlderEnded d.attempts (s.consistent id d found).older_ended

-- Where other processes keep the store sound and lose nothing of it: in a sound store, a delivery
-- with a recorded result or a cancelled one is stored unchanged after any calls.
pub terminal_is_final :
    (env : Env) (calls : List Call) (w : World) (id : String) (d : Delivery)
    → OthersAreFair env
    → IsSound w
    → get w.deliveries id ≡ some d
    → is_terminal d.state ≡ true
    → get (perform_all env calls w).deliveries id ≡ some d
terminal_is_final env calls w id d fair s found t =
    let (e, later, c) = (perform_all-Inv env calls w fair s).grown.kept id d found in
    later ∙ ap some (c.terminal_kept t)
