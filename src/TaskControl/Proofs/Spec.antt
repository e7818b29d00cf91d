-- ===== src/TaskControl/Proofs/Spec.antt =====
-- The invariant of the store of task_control.py, and rules to carry it through the methods. `Spec v P m Q`:
-- started in a sound world that has grown from `v` and whose deliveries satisfy `P`, the method `m`
-- ends in such a world, whether it returns or raises; where it returns `a`, `Q a` holds.
use universal_agent_middlewa.Prelude.{◌≡◌, refl, String, Bool, true, false, some, if◌then◌else◌}
use universal_agent_middlewa.Prelude.Dict.{Dict, get}
use universal_agent_middlewa.TaskControl.Model.{Code, Delivery}
use universal_agent_middlewa.TaskControl.Result.{Result, ok, err}
use universal_agent_middlewa.TaskControl.Wire.{StoredResult}
use universal_agent_middlewa.TaskControl.Port.{World, Proc, ◌>>=◌, continue, pure, raise, lift}
use universal_agent_middlewa.TaskControl.Proofs.Invariant.{IsConsistent}
use universal_agent_middlewa.TaskControl.Proofs.History.{
  IsPast, same, IsPast-trans, Continues, Continues-refl, Continues-trans,
}

-- Every stored delivery is consistent, stands under its own identifier, and holds the claim on its contract.
pub record IsSound (w : World) : Type 0 where
  pub consistent : (id : String) (d : Delivery) → get w.deliveries id ≡ some d → IsConsistent d
  pub keyed : (id : String) (d : Delivery) → get w.deliveries id ≡ some d → d.delivery_id ≡ id
  pub claimed :
      (id : String) (d : Delivery)
      → get w.deliveries id ≡ some d
      → get w.by_contract d.contract_id ≡ some id

-- Nothing is lost between two worlds.
pub record Grows (v w : World) : Type 0 where
  pub kept :
      (id : String) (d : Delivery)
      → get v.deliveries id ≡ some d
      → (e : Delivery) × (get w.deliveries id ≡ some e) × Continues d e
  pub claims_kept : (c id : String) → get v.by_contract c ≡ some id → get w.by_contract c ≡ some id
  pub results_kept :
      (id : String) (s : StoredResult) → get v.results id ≡ some s → get w.results id ≡ some s
  pub log_kept : IsPast v.audit_log w.audit_log

pub Grows-refl : (w : World) → Grows w w
Grows-refl w = record {
  kept = λ id d h. (d, h, Continues-refl d);
  claims_kept = λ c id h. h;
  results_kept = λ id s h. h;
  log_kept = same;
}

pub Grows-trans : (u v w : World) → Grows u v → Grows v w → Grows u w
Grows-trans u v w p q = record {
  kept = λ id d h.
      let (e, at_v, de) = p.kept id d h in
      let (f, at_w, ef) = q.kept id e at_v in (f, at_w, Continues-trans d e f de ef);
  claims_kept = λ c id h. q.claims_kept c id (p.claims_kept c id h);
  results_kept = λ id s h. q.results_kept id s (p.results_kept id s h);
  log_kept = IsPast-trans p.log_kept q.log_kept;
}

pub record Inv (v w : World) : Type 0 where
  pub sound : IsSound w
  pub grown : Grows v w

abbrev pub Post : {A : Type 0} → World → (A → Dict Delivery → Type 0) → Result A → World → Type 0
Post v Q (ok a) w = Inv v w × Q a w.deliveries
Post v Q (err c) w = Inv v w

pub record Spec {A : Type 0} (v : World) (P : Dict Delivery → Type 0) (m : Proc A)
    (Q : A → Dict Delivery → Type 0) : Type 0 where
  pub at : (w : World) → Inv v w → P w.deliveries → Post v Q (m w).0 (m w).1

module _ {A B : Type 0} {v : World} where
  continue-Post :
      (r : Result A) (w : World) (f : A → Proc B) (Q : A → Dict Delivery → Type 0)
      (R : B → Dict Delivery → Type 0)
      → Post v Q r w
      → ((a : A) → Spec v (Q a) (f a) R)
      → Post v R (continue r w f).0 (continue r w f).1
  continue-Post (ok a) w f Q R h k = (k a).at w h.0 h.1
  continue-Post (err c) w f Q R h k = h

  pub Spec-bind :
      (P : Dict Delivery → Type 0) (m : Proc A) (Q : A → Dict Delivery → Type 0) (f : A → Proc B)
      (R : B → Dict Delivery → Type 0)
      → Spec v P m Q
      → ((a : A) → Spec v (Q a) (f a) R)
      → Spec v P (m >>= f) R
  unfolding ◌>>=◌
  Spec-bind P m Q f R h k = record {
    at = λ w i p. continue-Post (m w).0 (m w).1 f Q R (h.at w i p) k;
  }

  pub Spec-lift :
      (P : Dict Delivery → Type 0) (r : Result A) (f : A → Proc B) (R : B → Dict Delivery → Type 0)
      → ((a : A) → r ≡ ok a → Spec v P (f a) R)
      → Spec v P (lift r >>= f) R
  unfolding ◌>>=◌
  Spec-lift P (ok a) f R k = record { at = λ w i p. (k a refl).at w i p }
  Spec-lift P (err c) f R k = record { at = λ w i p. i }

module _ {A : Type 0} {v : World} where
  pub Spec-pure :
      (P : Dict Delivery → Type 0) (a : A) (Q : A → Dict Delivery → Type 0)
      → ((ds : Dict Delivery) → P ds → Q a ds)
      → Spec v P (pure a) Q
  unfolding pure
  Spec-pure P a Q k = record { at = λ w i p. (i, k w.deliveries p) }

  pub Spec-raise :
      (P : Dict Delivery → Type 0) (c : Code) (Q : A → Dict Delivery → Type 0)
      → Spec v P (raise c) Q
  unfolding raise
  Spec-raise P c Q = record { at = λ w i p. i }

  pub Spec-if :
      (P : Dict Delivery → Type 0) (b : Bool) (m n : Proc A) (Q : A → Dict Delivery → Type 0)
      → (b ≡ true → Spec v P m Q)
      → (b ≡ false → Spec v P n Q)
      → Spec v P (if b then m else n) Q
  Spec-if P true m n Q k l = k refl
  Spec-if P false m n Q k l = l refl

-- What a delivery's record is about to be replaced by.
pub record IsDraft (e : Delivery) (ds : Dict Delivery) : Type 0 where
  pub stored : Delivery
  pub found : get ds e.delivery_id ≡ some stored
  pub continues : Continues stored e

abbrev pub IsStored : Delivery → Dict Delivery → Type 0
IsStored d ds = get ds d.delivery_id ≡ some d
