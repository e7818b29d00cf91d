-- ===== src/TaskControl/Proofs/History.antt =====
-- What a delivery record of task_control.py never loses: `d` as it was, `e` as it is later.
use mathlib.Core.Path.{subst}
use universal_agent_middlewa.Prelude.{
  ℕ, ◌≤◌, ◌≡◌, refl, String, true, false, Option, List, [], ◌∷◌, arith, sym, ◌∙◌, Bool-cases, inl,
  inr,
}
use universal_agent_middlewa.TaskControl.Model.{
  Observation, Attempt, Delivery, EndHow, Outcome, cancelled, is_active_attempt, is_terminal,
}
use universal_agent_middlewa.TaskControl.Rules.{close_attempt, close_newest, has_expired, has_value}
use universal_agent_middlewa.TaskControl.Changes.{
  begin_attempt, record_result, cancel_intent_of, with_evidence,
}
use universal_agent_middlewa.TaskControl.Proofs.Newest.{IsNewest}

-- The attempts that are over: all of them, or all but a running newest one.
abbrev pub over : List Attempt → List Attempt
over [] = []
over (a ∷ older) = elim (is_active_attempt a.state) [ true ↦ older | false ↦ a ∷ older ]

-- `l` is the older part of `m`.
pub data IsPast {ℓ} {A : Type ℓ} : List A → List A → Type ℓ where
  same : {l : List A} → IsPast l l
  more : {l m : List A} (x : A) → IsPast l m → IsPast l (x ∷ m)

pub IsPast-trans {ℓ} : {A : Type ℓ} {l m n : List A} → IsPast l m → IsPast m n → IsPast l n
IsPast-trans p same = p
IsPast-trans p (more x q) = more x (IsPast-trans p q)

pub IsPast-over : (l : List Attempt) → IsPast (over l) l
IsPast-over [] = same
IsPast-over (a ∷ older) = elim (Bool-cases (is_active_attempt a.state)) [
  | inl p ↦ rw (p, over) (more a same)
  | inr p ↦ rw (p, over) same
]

pub record Continues (d e : Delivery) : Type 0 where
  pub delivery_id : e.delivery_id ≡ d.delivery_id
  pub payload_digest : e.payload_digest ≡ d.payload_digest
  pub contract_id : e.contract_id ≡ d.contract_id
  pub contract_digest : e.contract_digest ≡ d.contract_digest
  pub requester : e.requester ≡ d.requester
  pub recipient : e.recipient ≡ d.recipient
  pub fence : d.fence ≤ e.fence
  pub over_kept : IsPast (over d.attempts) (over e.attempts)
  pub events_kept : IsPast d.events e.events
  pub intent_kept : has_value d.cancel ≡ true → has_value e.cancel ≡ true
  pub terminal_kept : is_terminal d.state ≡ true → e ≡ d

pub Continues-refl : (d : Delivery) → Continues d d
Continues-refl d = record {
  delivery_id = refl;
  payload_digest = refl;
  contract_id = refl;
  contract_digest = refl;
  requester = refl;
  recipient = refl;
  fence = omega arith;
  over_kept = same;
  events_kept = same;
  intent_kept = λ h. h;
  terminal_kept = λ h. refl;
}

pub Continues-trans : (c d e : Delivery) → Continues c d → Continues d e → Continues c e
Continues-trans c d e p q = record {
  delivery_id = q.delivery_id ∙ p.delivery_id;
  payload_digest = q.payload_digest ∙ p.payload_digest;
  contract_id = q.contract_id ∙ p.contract_id;
  contract_digest = q.contract_digest ∙ p.contract_digest;
  requester = q.requester ∙ p.requester;
  recipient = q.recipient ∙ p.recipient;
  fence = omega (arith, p.fence, q.fence);
  over_kept = IsPast-trans p.over_kept q.over_kept;
  events_kept = IsPast-trans p.events_kept q.events_kept;
  intent_kept = λ h. q.intent_kept (p.intent_kept h);
  terminal_kept = λ h.
      let back : d ≡ c = p.terminal_kept h in
      q.terminal_kept (subst (λ x. is_terminal x.state ≡ true) (sym back) h) ∙ back;
}

pub begin_attempt-Continues :
    (d : Delivery) (who : String) (lease now : ℕ) (o : Observation)
    → is_terminal d.state ≡ false
    → Continues d (begin_attempt d who lease now o)
unfolding begin_attempt has_value
begin_attempt-Continues d who lease now o t = grind (arith, same, more, IsPast-over)

pub close_newest-Continues :
    (d : Delivery) (l : List Attempt) (o : Observation) (now : ℕ)
    → d.attempts ≡ l
    → has_expired l now ≡ true
    → is_terminal d.state ≡ false
    → Continues d (close_newest d l o now)
unfolding close_newest has_expired has_value
close_newest-Continues d [] o now e x t = cc
close_newest-Continues d (a ∷ older) o now e x t = grind (arith, same, more)

-- Closing the newest attempt, while it runs.
pub close_attempt-Continues :
    (d : Delivery) (a : Attempt) (older : List Attempt) (o : Observation) (now : ℕ) (how : EndHow)
    (outcome : Option Outcome) (note : String)
    → d.attempts ≡ a ∷ older
    → is_active_attempt a.state ≡ true
    → is_terminal d.state ≡ false
    → Continues d (close_attempt d a (λ c. c ∷ older) o now how outcome note)
unfolding close_attempt has_value
close_attempt-Continues d a older o now how outcome note e act t = grind (arith, same, more)

pub record_result-Continues :
    (d : Delivery) (a : Attempt) (who ref : String) (fence : ℕ) (id digest name : String)
    (blockers : List String) (now : ℕ) (older : List Attempt)
    → IsNewest d ref fence a older
    → is_terminal d.state ≡ false
    → Continues d (record_result d a who ref fence id digest name blockers now)
unfolding record_result has_value
record_result-Continues d a who ref fence id digest name blockers now older n t =
    rw n.written (grind (arith, same, more, n.attempts, n.is_active))

pub cancel_intent_of-Continues :
    (d : Delivery) (who reason : String) (now : ℕ)
    → is_terminal d.state ≡ false
    → Continues d (cancel_intent_of d who reason now)
unfolding cancel_intent_of has_value
cancel_intent_of-Continues d who reason now t = grind (arith, same, more)

pub with_evidence-Continues :
    (d : Delivery) (o : Observation) → is_terminal d.state ≡ false → Continues d (with_evidence d o)
unfolding with_evidence has_value
with_evidence-Continues d o t = grind (arith, same, more)

pub cancelled-Continues :
    (d : Delivery) → is_terminal d.state ≡ false → Continues d (record d { state = cancelled })
unfolding has_value
cancelled-Continues d t = grind (arith, same, more)
