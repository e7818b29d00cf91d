-- ===== src/TaskControl/Proofs/Deliver.antt =====
-- `deliver` of task_control.py keeps the store sound and loses nothing: a new record is only written under an
-- identifier that is free, with the claim on its contract.
use universal_agent_middlewa.Prelude.{
  ℕ, suc, ◌≡◌, String, none, some, arith, str_eq, str_eq_iff, str_eq_self, Bool-cases, Option-cases,
  inl, inr,
}
use universal_agent_middlewa.Prelude.Dict.{get, put, get-put}
use universal_agent_middlewa.TaskControl.Model.{Delivery}
use universal_agent_middlewa.TaskControl.Result.{Result, ok, err}
use universal_agent_middlewa.TaskControl.Port.{
  World, Env, Proc, aware_only, ◌>>=◌, continue, pure, now,
}
use universal_agent_middlewa.TaskControl.Lookup.{claim_contract}
use universal_agent_middlewa.TaskControl.Requester.{
  Order, new_delivery, write_delivery, create_record,
}
use universal_agent_middlewa.TaskControl.Proofs.Invariant.{IsConsistent}
use universal_agent_middlewa.TaskControl.Proofs.Changes.{new_delivery-IsConsistent}
use universal_agent_middlewa.TaskControl.Proofs.History.{same, Continues-refl}
use universal_agent_middlewa.TaskControl.Proofs.Spec.{Grows-trans, Inv, Post, Spec, IsStored}
use universal_agent_middlewa.TaskControl.Proofs.Store.{quiet-Inv, saved}
use universal_agent_middlewa.TaskControl.Proofs.Quiet.{now-IsQuiet}

module _ (v w : World) (c id : String) (free : get w.by_contract c ≡ none) (i : Inv v w) where
  abbrev claimed_world : World
  claimed_world = record w { by_contract = put w.by_contract c id }

  claimed_world-Inv : Inv v claimed_world
  claimed_world-Inv = record {
    sound = record {
      consistent = i.sound.consistent;
      keyed = i.sound.keyed;
      claimed = λ k d h. ground (
        arith,
        get-put w.by_contract c d.contract_id id,
        i.sound.claimed k d h,
        str_eq_iff c d.contract_id,
      );
    };
    grown = Grows-trans v w claimed_world i.grown (record {
      kept = λ k d h. (d, h, Continues-refl d);
      claims_kept = λ k x h. ground (arith, get-put w.by_contract c k id, str_eq_iff c k);
      results_kept = λ k s h. h;
      log_kept = same;
    });
  }

module _ (v w : World) (e : Delivery) (i : Inv v w) (c : IsConsistent e)
    (free : get w.deliveries e.delivery_id ≡ none)
    (held : get w.by_contract e.contract_id ≡ some e.delivery_id) where
  created-Inv : Inv v (saved w e)
  created-Inv = record {
    sound = record {
      consistent =
          λ k d h. ground (arith, get-put w.deliveries e.delivery_id k e, i.sound.consistent k d);
      keyed = λ k d h. ground (
        arith,
        get-put w.deliveries e.delivery_id k e,
        i.sound.keyed k d,
        str_eq_iff e.delivery_id k,
      );
      claimed = λ k d h. ground (
        arith,
        get-put w.deliveries e.delivery_id k e,
        i.sound.claimed k d,
        str_eq_iff e.delivery_id k,
      );
    };
    grown = Grows-trans v w (saved w e) i.grown (record {
      kept = λ k d h. (
        d,
        ground (arith, get-put w.deliveries e.delivery_id k e, str_eq_iff e.delivery_id k),
        Continues-refl d,
      );
      claims_kept = λ k x h. h;
      results_kept = λ k s h. h;
      log_kept = same;
    });
  }

module _ (env : Env) (v : World) (o : Order) where
  written-Post :
      (r : Result ℕ) (w : World)
      → Inv v w
      → get w.deliveries o.delivery_id ≡ none
      → get w.by_contract o.contract_id ≡ some o.delivery_id
      → Post v IsStored
          (continue r w (λ moment.
            write_delivery env (new_delivery o moment) >>= λ _. pure (new_delivery o moment))).0
          (continue r w (λ moment.
            write_delivery env (new_delivery o moment) >>= λ _. pure (new_delivery o moment))).1
  unfolding write_delivery ◌>>=◌ new_delivery
  written-Post (ok moment) w i free held = (
    created-Inv v w (new_delivery o moment) i (new_delivery-IsConsistent o moment) free held,
    ground (
      arith,
      get-put w.deliveries o.delivery_id o.delivery_id (new_delivery o moment),
      str_eq_self o.delivery_id,
    ),
  )
  written-Post (err c) w i free held = i

  abbrev stamped : Proc Delivery
  stamped = now env >>= λ moment.
      write_delivery env (new_delivery o moment) >>= λ _. pure (new_delivery o moment)

  stamped-Post :
      (w : World)
      → Inv v w
      → get w.deliveries o.delivery_id ≡ none
      → get w.by_contract o.contract_id ≡ some o.delivery_id
      → Post v IsStored (stamped w).0 (stamped w).1
  unfolding now ◌>>=◌
  stamped-Post w i free held =
      written-Post (aware_only (env.clock w.questions)) (record w { questions = suc w.questions })
        (quiet-Inv v (λ _. Unit {0}) (now env) (now-IsQuiet env) w i) free held

  create_record-Post :
      (w : World)
      → Inv v w
      → get w.deliveries o.delivery_id ≡ none
      → Post v IsStored (create_record env o w).0 (create_record env o w).1
  unfolding create_record claim_contract ◌>>=◌
  create_record-Post w i free = elim (Option-cases (get w.by_contract o.contract_id)) [
    | inl unclaimed ↦ rw unclaimed (
        stamped-Post (claimed_world v w o.contract_id o.delivery_id unclaimed i)
          (claimed_world-Inv v w o.contract_id o.delivery_id unclaimed i) free
          (ground (
            arith,
            get-put w.by_contract o.contract_id o.contract_id o.delivery_id,
            str_eq_self o.contract_id,
          )))
    | inr (holder, held) ↦ rw held (elim (Bool-cases (str_eq holder o.delivery_id)) [
      | inl again ↦
          rw again (stamped-Post w i free (ground (arith, held, str_eq_iff holder o.delivery_id)))
      | inr other ↦ rw other i
    ])
  ]

  pub create_record-Spec : Spec v (λ ds. get ds o.delivery_id ≡ none) (create_record env o) IsStored
  create_record-Spec = record { at = create_record-Post }
