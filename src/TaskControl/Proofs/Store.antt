-- ===== src/TaskControl/Proofs/Store.antt =====
-- What the writes of task_control.py do to a sound store, and the methods that leave its deliveries alone.
use mathlib.Core.Path.{subst}
use universal_agent_middlewa.Prelude.{
  ◌≡◌, String, some, arith, str_eq, str_eq_iff, ◌∙◌, sym, ap, str_eq_self, Bool-cases, inl, inr,
}
use universal_agent_middlewa.Prelude.Dict.{Dict, get, put, get-put}
use universal_agent_middlewa.TaskControl.Model.{Delivery}
use universal_agent_middlewa.TaskControl.Result.{Result, ok, err}
use universal_agent_middlewa.TaskControl.Wire.{StoredResult}
use universal_agent_middlewa.TaskControl.Port.{World, Env, Proc, modify, save}
use universal_agent_middlewa.TaskControl.Proofs.Invariant.{IsConsistent}
use universal_agent_middlewa.TaskControl.Proofs.History.{IsPast, same, Continues, Continues-refl}
use universal_agent_middlewa.TaskControl.Proofs.Spec.{
  IsSound, Grows, Grows-trans, Inv, Post, Spec, IsDraft, IsStored,
}

-- The world after `_save`.
abbrev pub saved : World → Delivery → World
saved w e = record w { deliveries = put w.deliveries e.delivery_id e }

module _ (w : World) (e d : Delivery) (s : IsSound w) (c : IsConsistent e)
    (found : get w.deliveries e.delivery_id ≡ some d) (more_of : Continues d e) where
  saved-IsSound : IsSound (saved w e)
  saved-IsSound = record {
    consistent = λ id x h. ground (
      arith,
      get-put w.deliveries e.delivery_id id e,
      str_eq_iff e.delivery_id id,
      s.consistent id x,
    );
    keyed = λ id x h.
        ground (
          arith,
          get-put w.deliveries e.delivery_id id e,
          str_eq_iff e.delivery_id id,
          s.keyed id x,
        );
    claimed = λ id x h. ground (
      arith,
      get-put w.deliveries e.delivery_id id e,
      str_eq_iff e.delivery_id id,
      s.claimed id x,
      s.claimed e.delivery_id d found,
      more_of.contract_id,
    );
  }

  saved_kept :
      (id : String) (x : Delivery)
      → get w.deliveries id ≡ some x
      → (y : Delivery) × (get (put w.deliveries e.delivery_id e) id ≡ some y) × Continues x y
  saved_kept id x h = elim (Bool-cases (str_eq e.delivery_id id)) [
    | inl p ↦ (
      e,
      ground (arith, get-put w.deliveries e.delivery_id id e, str_eq_iff e.delivery_id id),
      subst (λ z. Continues z e) (ground (arith, str_eq_iff e.delivery_id id)) more_of,
    )
    | inr p ↦ (x, ground (arith, get-put w.deliveries e.delivery_id id e), Continues-refl x)
  ]

  saved-Grows : Grows w (saved w e)
  saved-Grows = record {
    kept = saved_kept;
    claims_kept = λ c id h. h;
    results_kept = λ id r h. h;
    log_kept = same;
  }

pub Spec-save :
    (env : Env) (v : World) (e : Delivery)
    → IsConsistent e
    → Spec v (IsDraft e) (save env e) (λ _. IsStored e)
unfolding save modify
Spec-save env v e c = record {
  at = λ w i p. (
    record {
      sound = saved-IsSound w e p.stored i.sound c p.found p.continues;
      grown =
          Grows-trans v w (saved w e) i.grown
            (saved-Grows w e p.stored i.sound c p.found p.continues);
    },
    ground (arith, get-put w.deliveries e.delivery_id e.delivery_id e, str_eq_self e.delivery_id),
  );
}

-- A method that leaves the deliveries and the claims alone, and loses nothing else.
pub record IsQuiet {A : Type 0} (m : Proc A) : Type 0 where
  pub deliveries : (w : World) → (m w).1.deliveries ≡ w.deliveries
  pub by_contract : (w : World) → (m w).1.by_contract ≡ w.by_contract
  pub results_kept :
      (w : World) (id : String) (s : StoredResult)
      → get w.results id ≡ some s
      → get (m w).1.results id ≡ some s
  pub log_kept : (w : World) → IsPast w.audit_log (m w).1.audit_log

module _ (w u : World) (d : u.deliveries ≡ w.deliveries) (b : u.by_contract ≡ w.by_contract) where
  quiet-IsSound : IsSound w → IsSound u
  quiet-IsSound s = record {
    consistent = λ id x h. s.consistent id x (ap (λ t. get t id) (sym d) ∙ h);
    keyed = λ id x h. s.keyed id x (ap (λ t. get t id) (sym d) ∙ h);
    claimed =
        λ id x h. ap (λ t. get t x.contract_id) b ∙ s.claimed id x (ap (λ t. get t id) (sym d) ∙ h);
  }

module _ {A : Type 0} (v : World) (P : Dict Delivery → Type 0) (m : Proc A) (q : IsQuiet m) where
  pub quiet-Inv : (w : World) → Inv v w → Inv v (m w).1
  quiet-Inv w i = record {
    sound = quiet-IsSound w (m w).1 (q.deliveries w) (q.by_contract w) i.sound;
    grown = Grows-trans v w (m w).1 i.grown (record {
      kept = λ id d h. (d, ap (λ t. get t id) (q.deliveries w) ∙ h, Continues-refl d);
      claims_kept = λ c id h. ap (λ t. get t c) (q.by_contract w) ∙ h;
      results_kept = q.results_kept w;
      log_kept = q.log_kept w;
    });
  }

  quiet-Post : (r : Result A) (u : World) → Inv v u → P u.deliveries → Post v (λ _. P) r u
  quiet-Post (ok a) u i p = (i, p)
  quiet-Post (err c) u i p = i

  pub Spec-quiet : Spec v P m (λ _. P)
  Spec-quiet = record {
    at = λ w i p. quiet-Post (m w).0 (m w).1 (quiet-Inv w i) (subst P (sym (q.deliveries w)) p);
  }
