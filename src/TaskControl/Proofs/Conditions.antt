-- ===== src/TaskControl/Proofs/Conditions.antt =====
-- What must have held for a new attempt or a result of task_control.py to be recorded.
use universal_agent_middlewa.Prelude.{
  ℕ, ap, sym, ◌∙◌, ◌<◌, ◌≡◌, refl, String, Bool, true, false, Option, none, some, arith,
  if◌then◌else◌, length, str_eq_iff,
}
use universal_agent_middlewa.Prelude.Dict.{get}
use universal_agent_middlewa.TaskControl.Model.{
  result_binding_mismatch, Delivery, Attempt, Observation, BaselineState, unchanged, changed,
  unobservable, is_attempt_active, max_attempts,
}
use universal_agent_middlewa.TaskControl.Result.{Result, ok}
use universal_agent_middlewa.TaskControl.Rules.{require_active_attempt}
use universal_agent_middlewa.TaskControl.Changes.{binds, begin_attempt, record_result}
use universal_agent_middlewa.TaskControl.Wire.{Binding, ResultDoc, Review}
use universal_agent_middlewa.TaskControl.Port.{World, Env, ◌>>=◌, pure, lift, raise, save, observe}
use universal_agent_middlewa.TaskControl.Lookup.{bound_contract, deliverable_of}
use universal_agent_middlewa.TaskControl.Authority.{request_v1, authorize}
use universal_agent_middlewa.TaskControl.Recipient.{
  require_no_attempt, require_unchanged, claim_attempt, submit_locked, fetch_or_store, review_of,
}
use universal_agent_middlewa.TaskControl.Proofs.Runs.{pure-eq, pure-world, save-get}
use universal_agent_middlewa.TaskControl.Proofs.Authorized.{
  bind-eq-ok, IsAllowed, authorize-IsAllowed,
}

lift-eq : {A : Type 0} (r : Result A) (w : World) {a : A} → (lift r w).0 ≡ ok a → r ≡ ok a
unfolding lift
lift-eq r w h = h

-- The contract of a delivery, as it was read just now: ready, version 2, with the digest of the delivery.
pub record IsBound (env : Env) (d : Delivery) (n : ℕ) (b : Binding) : Type 0 where
  pub read : env.contract_binding n d.contract_id ≡ some b
  pub version : b.is_contract_v2 ≡ true
  pub digest : b.digest ≡ d.contract_digest
  pub ready : b.is_ready ≡ true

deliverable_conditions :
    (digest : String) (o : Option Binding) {b : Binding}
    → deliverable_of digest o ≡ ok b
    → (o ≡ some b) × (b.is_contract_v2 ≡ true) × (b.digest ≡ digest) × (b.is_ready ≡ true)
unfolding deliverable_of
deliverable_conditions digest none h = cc
deliverable_conditions digest (some b) h = ground (arith, str_eq_iff b.digest digest)

module _ (env : Env) where
  bound_contract-IsBound :
      (d : Delivery) (w : World) {b : Binding}
      → (bound_contract env d w).0 ≡ ok b
      → IsBound env d w.questions b
  unfolding bound_contract ◌>>=◌
  bound_contract-IsBound d w h =
      let (read, version, digest, ready) =
        deliverable_conditions d.contract_digest (env.contract_binding w.questions d.contract_id)
          h in
      record { read = read; version = version; digest = digest; ready = ready }

  observed :
      (d : Delivery) (w : World) {o : Observation}
      → (observe env d w).0 ≡ ok o
      → o.state ≡ unchanged
      → env.observe_baseline w.questions d.contract_id ≡ some o
  unfolding observe ◌>>=◌
  observed d w h s = ground arith

  require_unchanged-eq : (s : BaselineState) → require_unchanged s ≡ ok tt → s ≡ unchanged
  unfolding require_unchanged
  require_unchanged-eq unchanged h = refl
  require_unchanged-eq changed h = cc
  require_unchanged-eq unobservable h = cc

  no_attempt :
      (d : Delivery)
      → require_no_attempt d ≡ ok tt
      → (is_attempt_active d.state ≡ false) × (length d.attempts < max_attempts)
  unfolding require_no_attempt
  no_attempt d h = ground arith

saved_begin :
    (env : Env) (d : Delivery) (who : String) (lease moment : ℕ) (o : Observation) (w : World)
    {v : World} {e : Delivery}
    → v ≡ (save env (begin_attempt d who lease moment o) w).1
    → e ≡ begin_attempt d who lease moment o
    → get v.deliveries d.delivery_id ≡ some e
unfolding begin_attempt
saved_begin env d who lease moment o w h k =
    ap (λ x. get x.deliveries d.delivery_id) h
    ∙ save-get env (begin_attempt d who lease moment o) w
    ∙ ap some (sym k)

-- What held when an attempt was recorded.
pub record Starts (env : Env) (d : Delivery) (who : String) (lease moment : ℕ) (e : Delivery)
    (v : World) : Type 0 where
  pub idle : is_attempt_active d.state ≡ false
  pub room : length d.attempts < max_attempts
  pub contract_question : ℕ
  pub binding : Binding
  pub bound : IsBound env d contract_question binding
  pub workspace_question : ℕ
  pub observation : Observation
  pub seen : env.observe_baseline workspace_question d.contract_id ≡ some observation
  pub same : observation.state ≡ unchanged
  pub before : World
  pub after : World
  pub allowed :
      IsAllowed env
        (request_v1 "attempt_start" who d.authority_ref
          (some d.delivery_id)
          binding
          d.business_task_ref
          d.task_revision)
        (env.verify before.questions (
          request_v1 "attempt_start" who d.authority_ref
            (some d.delivery_id)
            binding
            d.business_task_ref
            d.task_revision))
        before
        after
  pub result : e ≡ begin_attempt d who lease moment observation
  pub stored : get v.deliveries d.delivery_id ≡ some e

module _ (env : Env) (d : Delivery) (who : String) (lease moment : ℕ) where
  -- If `start_attempt` records an attempt, then no attempt was active, fewer than 20 were recorded,
  -- the contract was read as ready with the digest of the delivery, the workspace was observed
  -- unchanged, the authority allowed exactly this request, and the store then holds, under the
  -- delivery's identifier, the delivery with the new attempt.
  pub claim_attempt-Starts :
      (w : World) {e : Delivery}
      → (claim_attempt env d who lease moment w).0 ≡ ok e
      → Starts env d who lease moment e (claim_attempt env d who lease moment w).1
  unfolding claim_attempt
  claim_attempt-Starts w h =
      let (u1, free, h1, e1) = bind-eq-ok (lift (require_no_attempt d)) _ w h in
      let w1 = (lift (require_no_attempt d) w).1 in
      let (b, bound, h2, e2) = bind-eq-ok (bound_contract env d) _ w1 h1 in
      let w2 = (bound_contract env d w1).1 in
      let (o, looked, h3, e3) = bind-eq-ok (observe env d) _ w2 h2 in
      let w3 = (observe env d w2).1 in
      let (u2, same, h4, e4) = bind-eq-ok (lift (require_unchanged o.state)) _ w3 h3 in
      let w4 = (lift (require_unchanged o.state) w3).1 in
      let (u3, allowed, h5, e5) =
        bind-eq-ok
          (authorize env "attempt_start" who d.authority_ref (some d.delivery_id) b
            d.business_task_ref d.task_revision)
          _ w4 h4 in
      let w5 =
        (authorize env "attempt_start" who d.authority_ref (some d.delivery_id) b
          d.business_task_ref d.task_revision w4).1 in
      let (u4, stored, h6, e6) =
        bind-eq-ok (save env (begin_attempt d who lease moment o)) _ w5 h5 in
      let (idle, room) = no_attempt env d (lift-eq _ w free) in
      let s = require_unchanged-eq env o.state (lift-eq _ w3 same) in
      record {
        idle = idle;
        room = room;
        contract_question = w1.questions;
        binding = b;
        bound = bound_contract-IsBound env d w1 bound;
        workspace_question = w2.questions;
        observation = o;
        seen = observed env d w2 looked s;
        same = s;
        before = w4;
        after = w5;
        allowed =
            authorize-IsAllowed env "attempt_start" who d.authority_ref (some d.delivery_id) b
              d.business_task_ref d.task_revision w4 allowed;
        result = pure-eq _ _ h6;
        stored =
            saved_begin env d who lease moment o w5 (e1 ∙ e2 ∙ e3 ∙ e4 ∙ e5 ∙ e6 ∙ pure-world _ _)
              (pure-eq _ _ h6);
      }

-- What held when a result was recorded.
pub record Submits (env : Env) (d : Delivery) (who ref : String) (fence : ℕ) (r : ResultDoc)
    (digest : String) (moment : ℕ) (e : Delivery) : Type 0 where
  pub attempt : Attempt
  pub current : require_active_attempt d ref fence ≡ ok attempt
  pub bindings : binds d attempt who r ≡ true
  pub contract_question : ℕ
  pub binding : Binding
  pub bound : IsBound env d contract_question binding
  pub before : World
  pub after : World
  pub allowed :
      IsAllowed env
        (request_v1 "result_submit" who d.authority_ref
          (some d.delivery_id)
          binding
          d.business_task_ref
          d.task_revision)
        (env.verify before.questions (
          request_v1 "result_submit" who d.authority_ref
            (some d.delivery_id)
            binding
            d.business_task_ref
            d.task_revision))
        before
        after
  pub review : Review
  pub result :
      e
      ≡ record_result d attempt who ref fence r.result_id digest review.state review.blockers moment

if-ok :
    (b : Bool) (w : World)
    → ((if b then pure tt else raise result_binding_mismatch) w).0 ≡ ok tt
    → b ≡ true
unfolding raise
if-ok true w h = refl
if-ok false w h = cc

module _ (env : Env) (d : Delivery) (who ref : String) (fence : ℕ) (r : ResultDoc) (digest : String)
    (moment : ℕ) where
  -- If `submit_result` records a result, then the attempt it names is recorded, active and current,
  -- the document is bound to the delivery, the attempt and the executor, the contract was read as
  -- ready with the digest of the delivery, the authority allowed exactly this request, and the
  -- delivery holds the result.
  pub submit_locked-Submits :
      (w : World) {p : Delivery × Review}
      → (submit_locked env d who ref fence r digest moment w).0 ≡ ok p
      → Submits env d who ref fence r digest moment p.0
  unfolding submit_locked
  submit_locked-Submits w h =
      let (a, current, h1, e1) = bind-eq-ok (lift (require_active_attempt d ref fence)) _ w h in
      let w1 = (lift (require_active_attempt d ref fence) w).1 in
      let (u1, same, h2, e2) =
        bind-eq-ok (if binds d a who r then pure tt else raise result_binding_mismatch) _ w1 h1 in
      let w2 = ((if binds d a who r then pure tt else raise result_binding_mismatch) w1).1 in
      let (b, bound, h3, e3) = bind-eq-ok (bound_contract env d) _ w2 h2 in
      let w3 = (bound_contract env d w2).1 in
      let (u2, allowed, h4, e4) =
        bind-eq-ok
          (authorize env "result_submit" who d.authority_ref (some d.delivery_id) b
            d.business_task_ref d.task_revision)
          _ w3 h3 in
      let w4 =
        (authorize env "result_submit" who d.authority_ref (some d.delivery_id) b
          d.business_task_ref d.task_revision w3).1 in
      let (s, stored, h5, e5) = bind-eq-ok (fetch_or_store env r digest) _ w4 h4 in
      let w5 = (fetch_or_store env r digest w4).1 in
      let (v, reviewed, h6, e6) = bind-eq-ok (review_of env s) _ w5 h5 in
      let w6 = (review_of env s w5).1 in
      let kept = record_result d a who ref fence r.result_id digest v.state v.blockers moment in
      let (u3, saved, h7, e7) = bind-eq-ok (save env kept) _ w6 h6 in
      record {
        attempt = a;
        current = lift-eq _ w current;
        bindings = if-ok (binds d a who r) w1 same;
        contract_question = w2.questions;
        binding = b;
        bound = bound_contract-IsBound env d w2 bound;
        before = w3;
        after = w4;
        allowed =
            authorize-IsAllowed env "result_submit" who d.authority_ref (some d.delivery_id) b
              d.business_task_ref d.task_revision w3 allowed;
        review = v;
        result = ap (λ x. x.0) (pure-eq (kept, v) _ h7);
      }
