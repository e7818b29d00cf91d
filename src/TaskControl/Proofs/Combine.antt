-- ===== src/TaskControl/Proofs/Combine.antt =====
-- Further rules for `Spec`: a quiet method before another, a stored delivery, an expired lease.
use universal_agent_middlewa.Prelude.{
  refl, if◌then◌else◌, ◌≡◌, Bool, true, false, ◌∙◌, ap, Bool-cases, inl, inr, ℕ,
}
use universal_agent_middlewa.Prelude.Dict.{Dict, get}
use universal_agent_middlewa.TaskControl.Model.{Delivery, Observation}
use universal_agent_middlewa.TaskControl.Rules.{has_expired, close_newest}
use universal_agent_middlewa.TaskControl.Port.{World, Env, Proc, ◌>>=◌, ◌>>◌, pure, save, observe}
use universal_agent_middlewa.TaskControl.Lookup.{close_expired_attempt}
use universal_agent_middlewa.TaskControl.Proofs.Invariant.{IsConsistent}
use universal_agent_middlewa.TaskControl.Proofs.History.{Continues}
use universal_agent_middlewa.TaskControl.Proofs.Spec.{Spec, Spec-bind, IsStored, IsDraft}
use universal_agent_middlewa.TaskControl.Proofs.Store.{IsQuiet, Spec-quiet, Spec-save, quiet-Inv}
use universal_agent_middlewa.TaskControl.Proofs.Quiet.{observe-IsQuiet}

module _ {A B : Type 0} {v : World} where
  pub Spec-after :
      (P : Dict Delivery → Type 0) (m : Proc A) (f : A → Proc B) (R : B → Dict Delivery → Type 0)
      → IsQuiet m
      → ((a : A) → Spec v P (f a) R)
      → Spec v P (m >>= f) R
  Spec-after P m f R q k = Spec-bind P m (λ _. P) f R (Spec-quiet v P m q) k

module _ {A : Type 0} {v : World} where
  -- A stored delivery of a sound world is consistent.
  pub Spec-consistent :
      (d : Delivery) (m : Proc A) (R : A → Dict Delivery → Type 0)
      → (IsConsistent d → Spec v (IsStored d) m R)
      → Spec v (IsStored d) m R
  Spec-consistent d m R k = record {
    at = λ w i p. (k (i.sound.consistent d.delivery_id d p)).at w i p;
  }

  -- The two ways in which `_close_expired_attempt` ends.
  pub Spec-close :
      (env : Env) (d : Delivery) (now : ℕ) (f : Delivery × Bool → Proc A)
      (P : Dict Delivery → Type 0) (R : A → Dict Delivery → Type 0)
      → Spec v P (f (d, false)) R
      → ((o : Observation)
          → has_expired d.attempts now ≡ true
          → Spec v P (f (close_newest d d.attempts o now, true)) R)
      → Spec v P (close_expired_attempt env d now >>= f) R
  unfolding close_expired_attempt ◌>>=◌ observe
  Spec-close env d now f P R k l = elim (Bool-cases (has_expired d.attempts now)) [
    | inl x ↦ rw x (record {
      at = λ w i p. (l _ x).at _ (quiet-Inv v P (observe env d) (observe-IsQuiet env d) w i) p;
    })
    | inr x ↦ rw x (record { at = λ w i p. k.at w i p })
  ]

module _ {A : Type 0} {v : World} where
  -- The rest of a method before the precondition is weakened.
  pub Spec-weaken :
      (P Q : Dict Delivery → Type 0) (m : Proc A) (R : A → Dict Delivery → Type 0)
      → ((ds : Dict Delivery) → P ds → Q ds)
      → Spec v Q m R
      → Spec v P m R
  Spec-weaken P Q m R f s = record { at = λ w i p. s.at w i (f w.deliveries p) }

  -- `_save` of a consistent record that continues the stored one.
  pub Spec-store :
      (env : Env) (d e : Delivery) (m : Proc A) (R : A → Dict Delivery → Type 0)
      → IsConsistent e
      → Continues d e
      → Spec v (IsStored e) m R
      → Spec v (IsStored d) (save env e >> m) R
  Spec-store env d e m R c g k =
      Spec-weaken (IsStored d) (IsDraft e) (save env e >> m) R
        (λ ds h. record {
          stored = d;
          found = ap (λ id. get ds id) g.delivery_id ∙ h;
          continues = g;
        })
        (Spec-bind (IsDraft e) (save env e) (λ _. IsStored e) (λ _. m) R (Spec-save env v e c)
          (λ _. k))

module _ {A : Type 0} {v : World} where
  -- A fact that does not speak of the store.
  pub Spec-fact :
      (P : Dict Delivery → Type 0) (F : Type 0) (m : Proc A) (R : A → Dict Delivery → Type 0)
      → (F → Spec v P m R)
      → Spec v (λ ds. P ds × F) m R
  Spec-fact P F m R k = record { at = λ w i p. (k p.1).at w i p.0 }

module _ {A B : Type 0} {v : World} where
  pub Spec-if-bind :
      (P : Dict Delivery → Type 0) (b : Bool) (m n : Proc A) (f : A → Proc B)
      (R : B → Dict Delivery → Type 0)
      → (b ≡ true → Spec v P (m >>= f) R)
      → (b ≡ false → Spec v P (n >>= f) R)
      → Spec v P ((if b then m else n) >>= f) R
  Spec-if-bind P true m n f R k l = k refl
  Spec-if-bind P false m n f R k l = l refl

  pub Spec-pure-bind :
      (P : Dict Delivery → Type 0) (a : A) (f : A → Proc B) (R : B → Dict Delivery → Type 0)
      → Spec v P (f a) R
      → Spec v P (pure a >>= f) R
  unfolding ◌>>=◌
  Spec-pure-bind P a f R k = record { at = λ w i p. k.at w i p }
