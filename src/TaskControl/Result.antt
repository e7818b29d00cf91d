-- ===== src/TaskControl/Result.antt =====
-- A pure function of task_control.py that may raise a `TaskControlError`.
use universal_agent_middlewa.TaskControl.Model.{Code}

pub data Result {ℓ} (A : Type ℓ) : Type ℓ where
  ok : A → Result A
  err : Code → Result A

infixl 5 ◌>>=◌
abbrev pub ◌>>=◌ {ℓ κ} : {A : Type ℓ} {B : Type κ} → Result A → (A → Result B) → Result B
ok a >>= f = f a
err e >>= f = err e
