-- ===== src/TaskControl/Proofs/Newest.antt =====
-- `_active_attempt` of task_control.py: what it returns is the newest attempt.
use universal_agent_middlewa.Prelude.{
  ℕ, ◌≤◌, ◌≡◌, String, true, some, List, [], ◌∷◌, length, arith, Option-cases, inl, inr, str_eq_iff,
  sym, ◌∙◌,
}
use universal_agent_middlewa.TaskControl.Model.{Attempt, Delivery, is_active_attempt}
use universal_agent_middlewa.TaskControl.Result.{ok}
use universal_agent_middlewa.TaskControl.Rules.{find_attempt, write_attempt, require_active_attempt}
use universal_agent_middlewa.TaskControl.Proofs.Invariant.{Numbered, IsConsistent}

-- The oldest match of a numbered list has a fence within its length.
fence-find_attempt :
    (ref : String) (l : List Attempt) {b : Attempt}
    → Numbered l
    → find_attempt ref l ≡ some b
    → b.fence ≤ length l
unfolding find_attempt
fence-find_attempt ref [] n e = cc
fence-find_attempt ref (a ∷ older) n e = elim (Option-cases (find_attempt ref older)) [
  | inl new ↦ ground (arith, new)
  | inr (b, found) ↦ ground (arith, fence-find_attempt ref older n.1 found)
]

-- What `_active_attempt` returns is the newest attempt, it is active, has the fence that was given
-- and the reference, and writing it back replaces the head.
pub record IsNewest (d : Delivery) (ref : String) (fence : ℕ) (a : Attempt) (older : List Attempt)
    : Type 0 where
  pub attempts : d.attempts ≡ a ∷ older
  pub is_active : is_active_attempt a.state ≡ true
  pub same_fence : a.fence ≡ fence
  pub same_ref : a.attempt_ref ≡ ref
  pub written : (c : Attempt) → write_attempt ref c d.attempts ≡ c ∷ older

newest_found :
    (ref : String) (l : List Attempt) {b : Attempt}
    → Numbered l
    → find_attempt ref l ≡ some b
    → b.fence ≡ length l
    → (older : List Attempt) × (l ≡ b ∷ older)
      × (b.attempt_ref ≡ ref)
      × ((c : Attempt) → write_attempt ref c l ≡ c ∷ older)
unfolding find_attempt write_attempt
newest_found ref [] n e f = absurd (cc)
newest_found ref (a ∷ older) n e f = elim (Option-cases (find_attempt ref older)) [
  | inl new ↦ (
    older,
    ground (arith, new),
    ground (arith, new, str_eq_iff a.attempt_ref ref),
    λ c. ground (arith, new, str_eq_iff a.attempt_ref ref),
  )
  | inr (b, found) ↦ absurd (ground (arith, found, fence-find_attempt ref older n.1 found))
]

found_and_checked :
    (d : Delivery) (ref : String) (fence : ℕ) {a : Attempt}
    → require_active_attempt d ref fence ≡ ok a
    → (find_attempt ref d.attempts ≡ some a)
      × (a.fence ≡ fence)
      × (d.fence ≡ fence)
      × (is_active_attempt a.state ≡ true)
unfolding require_active_attempt
found_and_checked d ref fence h = ground arith

-- In a consistent delivery, the attempt that `_active_attempt` accepts is the newest one, it is
-- active, has the fence and the reference that were given, and writing it back replaces the newest
-- one.
pub require_active_attempt-IsNewest :
    (d : Delivery) (ref : String) (fence : ℕ) {a : Attempt}
    → IsConsistent d
    → require_active_attempt d ref fence ≡ ok a
    → (older : List Attempt) × IsNewest d ref fence a older
require_active_attempt-IsNewest d ref fence {a} c h =
    let (found, same, current, running) = found_and_checked d ref fence h in
    let (older, at_head, named, written) =
      newest_found ref d.attempts c.numbered found (same ∙ sym current ∙ c.fence_counts) in
    (
      older,
      record {
        attempts = at_head;
        is_active = running;
        same_fence = same;
        same_ref = named;
        written = written;
      },
    )
