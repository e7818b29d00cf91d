-- ===== src/TaskControl/Proofs/Cancel.antt =====
-- `cancel` of task_control.py keeps the store sound and loses nothing.
use universal_agent_middlewa.Prelude.{ℕ, ◌≡◌, refl, String, true, false, List, [], ◌∷◌, arith}
use universal_agent_middlewa.TaskControl.Model.{
  Delivery, Attempt, Observation, is_attempt_active, is_result_recorded, is_terminal, cancelled,
}
use universal_agent_middlewa.TaskControl.Rules.{has_value, has_expired, close_newest}
use universal_agent_middlewa.TaskControl.Changes.{cancel_intent_of, with_evidence}
use universal_agent_middlewa.TaskControl.Port.{World, Env, observe}
use universal_agent_middlewa.TaskControl.Requester.{
  observe_if_never_started, settle_cancel, cancel_locked,
}
use universal_agent_middlewa.TaskControl.Proofs.Invariant.{IsConsistent}
use universal_agent_middlewa.TaskControl.Proofs.Changes.{
  IsPending, cancel_intent_of-IsPending, close_newest-IsPending, with_evidence-IsPending,
  IsPending-IsConsistent, cancelled-IsConsistent, close_newest-IsConsistent,
}
use universal_agent_middlewa.TaskControl.Proofs.History.{
  Continues, Continues-trans, close_newest-Continues, cancel_intent_of-Continues,
}
use universal_agent_middlewa.TaskControl.Proofs.Spec.{Spec, Spec-pure, Spec-if, Spec-bind, IsStored}
use universal_agent_middlewa.TaskControl.Proofs.Combine.{
  Spec-after, Spec-consistent, Spec-close, Spec-store, Spec-fact, Spec-if-bind, Spec-pure-bind,
}
use universal_agent_middlewa.TaskControl.Proofs.Quiet.{IsQuiet-pure, observe-IsQuiet}

-- The record `e` that a cancel of `d` is about to settle.
record IsOpen (d e : Delivery) : Type 0 where
  pending : IsPending e
  continues : Continues d e
  going : is_terminal d.state ≡ false

cancelled_of_IsOpen : (d e : Delivery) → IsOpen d e → Continues d (record e { state = cancelled })
cancelled_of_IsOpen d e o = record {
  delivery_id = o.continues.delivery_id;
  payload_digest = o.continues.payload_digest;
  contract_id = o.continues.contract_id;
  contract_digest = o.continues.contract_digest;
  requester = o.continues.requester;
  recipient = o.continues.recipient;
  fence = o.continues.fence;
  over_kept = o.continues.over_kept;
  events_kept = o.continues.events_kept;
  intent_kept = o.continues.intent_kept;
  terminal_kept = λ t. cc (o.going);
}

with_evidence-IsOpen :
    (d e : Delivery) (seen : Observation)
    → IsOpen d e
    → is_attempt_active e.state ≡ false
    → IsOpen d (with_evidence e seen)
unfolding with_evidence has_value
with_evidence-IsOpen d e seen o idle = record {
  pending = with_evidence-IsPending e seen o.pending;
  continues = record {
    delivery_id = o.continues.delivery_id;
    payload_digest = o.continues.payload_digest;
    contract_id = o.continues.contract_id;
    contract_digest = o.continues.contract_digest;
    requester = o.continues.requester;
    recipient = o.continues.recipient;
    fence = o.continues.fence;
    over_kept = o.continues.over_kept;
    events_kept = o.continues.events_kept;
    intent_kept = λ t. ground (arith, o.continues.intent_kept t);
    terminal_kept = λ t. cc (o.going);
  };
  going = o.going;
}

-- An expired lease stops nothing that is terminal.
expired_going :
    (d : Delivery) (l : List Attempt) (now : ℕ)
    → IsConsistent d
    → d.attempts ≡ l
    → has_expired l now ≡ true
    → is_terminal d.state ≡ false
unfolding has_expired has_value
expired_going d [] now h e x = cc
expired_going d (a ∷ older) now h e x = ground arith

uncancelled_going :
    (d : Delivery)
    → IsConsistent d
    → is_result_recorded d.state ≡ false
    → has_value d.cancel ≡ false
    → is_terminal d.state ≡ false
uncancelled_going d h r c = ground arith

abbrev IsIdle : Delivery → Delivery → Type 0
IsIdle d e = IsOpen d e × (is_attempt_active e.state ≡ false)

intended-IsOpen :
    (d : Delivery) (who reason : String) (moment : ℕ)
    → IsConsistent d
    → is_result_recorded d.state ≡ false
    → is_terminal d.state ≡ false
    → IsOpen d (cancel_intent_of d who reason moment)
intended-IsOpen d who reason moment h r going = record {
  pending = cancel_intent_of-IsPending d who reason moment h r;
  continues = cancel_intent_of-Continues d who reason moment going;
  going = going;
}

closed-IsOpen :
    (d e : Delivery) (o : Observation) (now : ℕ)
    → IsOpen d e
    → is_terminal e.state ≡ false
    → has_expired e.attempts now ≡ true
    → IsOpen d (close_newest e e.attempts o now)
closed-IsOpen d e o now h going x = record {
  pending = close_newest-IsPending e e.attempts o now refl x h.pending;
  continues =
      Continues-trans d e (close_newest e e.attempts o now) h.continues
        (close_newest-Continues e e.attempts o now refl x going);
  going = h.going;
}

module _ (env : Env) {v : World} (d : Delivery) where
  observe_if_never_started-Spec :
      (e : Delivery) (l : List Attempt)
      → IsIdle d e
      → Spec v
          (IsStored d)
          (observe_if_never_started env e l)
          (λ seen ds. IsStored d ds × IsIdle d seen)
  unfolding observe_if_never_started
  observe_if_never_started-Spec e [] o =
      Spec-after _ (observe env e) _ _ (observe-IsQuiet env e) λ seen.
        Spec-pure _ _ _
          λ ds p. (p, (with_evidence-IsOpen d e seen o.0 o.1, unfold with_evidence in o.1))
  observe_if_never_started-Spec e (a ∷ older) o = Spec-pure _ _ _ λ ds p. (p, o)

  settle_cancel-Spec :
      (e : Delivery) → IsOpen d e → Spec v (IsStored d) (settle_cancel env e) (λ p. IsStored p.0)
  unfolding settle_cancel
  settle_cancel-Spec e o =
      Spec-if _ (is_attempt_active e.state) _ _ _
        (λ running.
          Spec-store env d e _ _ (IsPending-IsConsistent e o.pending running) o.continues
            (Spec-pure _ _ _ (λ ds p. p)))
        (λ idle.
          Spec-bind _ _ (λ seen ds. IsStored d ds × IsIdle d seen) _ _
            (observe_if_never_started-Spec e e.attempts (o, idle))
            λ seen. Spec-fact _ _ _ _ λ ready.
              Spec-store env d (record seen { state = cancelled }) _ _
                (cancelled-IsConsistent seen ready.0.pending ready.1)
                (cancelled_of_IsOpen d seen ready.0) (Spec-pure _ _ _ (λ ds p. p)))

module _ (env : Env) {v : World} (who reason : String) (moment : ℕ) where
  pub cancel_locked-Spec :
      (d : Delivery)
      → Spec v (IsStored d) (cancel_locked env d who reason moment) (λ p. IsStored p.0)
  unfolding cancel_locked cancel_intent_of
  cancel_locked-Spec d = Spec-consistent d _ _ λ h.
      Spec-if _ (is_result_recorded d.state) _ _ _ (λ r. Spec-pure _ _ _ (λ ds p. p))
        λ r.
          Spec-if _ (has_value d.cancel) _ _ _
            (λ c.
              Spec-close env d moment _ _ _
                (Spec-after _ _ _ _ (IsQuiet-pure tt) (λ u. Spec-pure _ _ _ (λ ds p. p)))
                (λ o x.
                  Spec-store env d (close_newest d d.attempts o moment) _ _
                    (close_newest-IsConsistent d d.attempts o moment refl x h)
                    (close_newest-Continues d d.attempts o moment refl x
                      (expired_going d d.attempts moment h refl x))
                    (Spec-pure _ _ _ (λ ds p. p))))
            (λ c.
              let going = uncancelled_going d h r c in
              let intended = cancel_intent_of d who reason moment in
              let open_now = intended-IsOpen d who reason moment h r going in
              Spec-if-bind _ (is_attempt_active d.state) _ _ _ _
                (λ running.
                  Spec-close env intended moment _ _ _ (settle_cancel-Spec env d intended open_now)
                    (λ o x.
                      settle_cancel-Spec env d (close_newest intended intended.attempts o moment)
                        (closed-IsOpen d intended o moment open_now going x)))
                (λ idle.
                  Spec-pure-bind _ (intended, false) _ _
                    (settle_cancel-Spec env d intended open_now)))
