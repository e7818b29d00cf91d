-- ===== src/TaskControl/Proofs/Retries.antt =====
-- What an answered `deliver` of task_control.py says, to a first call and to a retry.
use universal_agent_middlewa.Prelude.{
  ℕ, ◌≡◌, ap, refl, sym, ◌∙◌, ◌⊎◌, inl, inr, Bool, true, false, Option, none, some, str_eq,
  str_eq_iff, if◌then◌else◌,
}
use universal_agent_middlewa.Prelude.Dict.{get, get-put_same}
use universal_agent_middlewa.TaskControl.Model.{Delivery, idempotency_conflict}
use universal_agent_middlewa.TaskControl.Result.{ok}
use universal_agent_middlewa.TaskControl.Wire.{pass}
use universal_agent_middlewa.TaskControl.Port.{World, Env, Proc, ◌>>=◌, pure, raise, modify, now}
use universal_agent_middlewa.TaskControl.Authority.{authorize, record_done}
use universal_agent_middlewa.TaskControl.Lookup.{read_optional, claim_contract}
use universal_agent_middlewa.TaskControl.Views.{view}
use universal_agent_middlewa.TaskControl.Requester.{
  DeliverArgs, Order, DeliverAnswer, new_delivery, prepare, replay, write_delivery, create_record,
  make_delivery, replay_or_make, authorize_and_make, deliver,
}
use universal_agent_middlewa.TaskControl.Proofs.Quiet.{record_done-IsQuiet, view-IsQuiet}
use universal_agent_middlewa.TaskControl.Proofs.Runs.{pair_eq, bind-run, pure-run, pure-run_world}

-- The answer shows a delivery that the store holds under the identifier of the order, with the payload of the
-- order: one that was found, or the new one.
pub record IsAnswered (env : Env) (o : Order) (a : DeliverAnswer) (v : World) : Type 0 where
  pub delivery : Delivery
  pub stored : get v.deliveries o.delivery_id ≡ some delivery
  pub same_payload : delivery.payload_digest ≡ o.payload_digest
  pub at : World
  pub shown : (view env delivery o.principal at).0 ≡ ok a.delivery
  pub new_or_found :
      ((moment : ℕ) × (a.replayed ≡ false) × (delivery ≡ new_delivery o moment))
      ⊎ (a.replayed ≡ true)

module _ (env : Env) (o : Order) where
  view-stored :
      (d : Delivery) (w : World) {v : World}
      → (view env d o.principal w).1 ≡ v
      → get w.deliveries o.delivery_id ≡ some d
      → get v.deliveries o.delivery_id ≡ some d
  view-stored d w h s =
      ap (λ t. get t.deliveries o.delivery_id) (sym h)
      ∙ ap (λ t. get t o.delivery_id) ((view-IsQuiet env d o.principal).deliveries w)
      ∙ s

  replayed :
      (b : Bool) (d : Delivery) (w : World) {a : DeliverAnswer} {v : World}
      → str_eq d.payload_digest o.payload_digest ≡ b
      → get w.deliveries o.delivery_id ≡ some d
      → (if b
            then (view env d o.principal >>= λ v. pure (record { delivery = v; replayed = true }))
            else raise idempotency_conflict)
          w
        ≡ (ok a, v)
      → IsAnswered env o a v
  unfolding raise
  replayed true d w {a} {v} same s h =
      let (x, seen, h1) =
        bind-run (view env d o.principal) (λ v. pure (record { delivery = v; replayed = true })) w
          h in
      let answer = pure-run (record { delivery = x; replayed = true }) _ h1 in
      record {
        delivery = d;
        stored = view-stored d w (pure-run_world _ _ h1) s;
        same_payload = (str_eq_iff d.payload_digest o.payload_digest).0 same;
        at = w;
        shown = seen ∙ ap (λ y. ok y.delivery) (sym answer);
        new_or_found = inr (ap (λ y. y.replayed) answer);
      }
  replayed false d w same s h = let z = ap (λ x. x.0) h in cc

  replay-IsAnswered :
      (d : Delivery) (w : World) {a : DeliverAnswer} {v : World}
      → get w.deliveries o.delivery_id ≡ some d
      → replay env d o w ≡ (ok a, v)
      → IsAnswered env o a v
  unfolding replay
  replay-IsAnswered d w s h = replayed (str_eq d.payload_digest o.payload_digest) d w refl s h

  put_new :
      (moment : ℕ) (w : World)
      → get ((write_delivery env (new_delivery o moment) w).1).deliveries o.delivery_id
        ≡ some (new_delivery o moment)
  unfolding write_delivery modify new_delivery
  put_new moment w = get-put_same w.deliveries o.delivery_id (new_delivery o moment)

  -- The record that `create_record` leaves.
  create_record-stored :
      (w : World) {d : Delivery} {v : World}
      → create_record env o w ≡ (ok d, v)
      → (moment : ℕ) × (d ≡ new_delivery o moment)
        × (get v.deliveries o.delivery_id ≡ some (new_delivery o moment))
  unfolding create_record
  create_record-stored w {d} {v} h =
      let (u, claimed, h1) = bind-run (claim_contract o.contract_id o.delivery_id) _ w h in
      let w1 = (claim_contract o.contract_id o.delivery_id w).1 in
      let (moment, read, h2) = bind-run (now env) _ w1 h1 in
      let w2 = (now env w1).1 in
      let (u2, written, h3) = bind-run (write_delivery env (new_delivery o moment)) _ w2 h2 in
      (
        moment,
        pure-run (new_delivery o moment) _ h3,
        ap (λ t. get t.deliveries o.delivery_id) (sym (pure-run_world _ _ h3)) ∙ put_new moment w2,
      )

  new-payload : (moment : ℕ) → (new_delivery o moment).payload_digest ≡ o.payload_digest
  unfolding new_delivery
  new-payload moment = refl

  make_delivery-IsAnswered :
      (w : World) {a : DeliverAnswer} {v : World}
      → make_delivery env o w ≡ (ok a, v)
      → IsAnswered env o a v
  unfolding make_delivery
  make_delivery-IsAnswered w {a} {v} h =
      let (d, made, h1) = bind-run (create_record env o) _ w h in
      let w1 = (create_record env o w).1 in
      let (u, recorded, h2) = bind-run (record_done env "deliver" d pass o.principal) _ w1 h1 in
      let w2 = (record_done env "deliver" d pass o.principal w1).1 in
      let (x, seen, h3) = bind-run (view env d o.principal) _ w2 h2 in
      let answer = pure-run (record { delivery = x; replayed = false }) _ h3 in
      let (moment, is_new, there) = create_record-stored w (pair_eq _ made refl) in
      let kept =
        ap (λ t. get t o.delivery_id)
          ((record_done-IsQuiet env "deliver" d pass o.principal).deliveries w1) in
      record {
        delivery = d;
        stored = view-stored d w2 (pure-run_world _ _ h3) (kept ∙ there ∙ ap some (sym is_new));
        same_payload = ap (λ y. y.payload_digest) is_new ∙ new-payload moment;
        at = w2;
        shown = seen ∙ ap (λ y. ok y.delivery) (sym answer);
        new_or_found = inl (moment, ap (λ y. y.replayed) answer, is_new);
      }

  replay_or_make-IsAnswered :
      (found : Option Delivery) (w : World) {a : DeliverAnswer} {v : World}
      → get w.deliveries o.delivery_id ≡ found
      → replay_or_make env o found w ≡ (ok a, v)
      → IsAnswered env o a v
  unfolding replay_or_make
  replay_or_make-IsAnswered none w s h = make_delivery-IsAnswered w h
  replay_or_make-IsAnswered (some d) w s h = replay-IsAnswered d w s h

  looked :
      {B : Type 0} (f : Option Delivery → Proc B) (w : World) {b : B} {v : World}
      → (read_optional o.delivery_id >>= f) w ≡ (ok b, v)
      → f (get w.deliveries o.delivery_id) w ≡ (ok b, v)
  unfolding read_optional ◌>>=◌
  looked f w h = h

  authorize_and_make-IsAnswered :
      (found : Option Delivery) (w : World) {a : DeliverAnswer} {v : World}
      → get w.deliveries o.delivery_id ≡ found
      → authorize_and_make env o found w ≡ (ok a, v)
      → IsAnswered env o a v
  unfolding authorize_and_make
  authorize_and_make-IsAnswered (some d) w s h = replay-IsAnswered d w s h
  authorize_and_make-IsAnswered none w s h =
      let (u, allowed, h1) =
        bind-run
          (authorize env "deliver" o.principal o.authority_ref (some o.delivery_id) o.binding
            o.task_ref o.revision)
          _ w h in
      let w1 =
        (authorize env "deliver" o.principal o.authority_ref (some o.delivery_id) o.binding
          o.task_ref o.revision w).1 in
      let (u2, others, h2) = bind-run (modify (λ w. env.others w.questions w)) _ w1 h1 in
      let w2 = (modify (λ w. env.others w.questions w) w1).1 in
      replay_or_make-IsAnswered (get w2.deliveries o.delivery_id) w2 refl
        (looked (λ existing. replay_or_make env o existing) w2 h2)

-- What an answered `deliver` leaves.
pub record IsDelivered (env : Env) (args : DeliverArgs) (a : DeliverAnswer) (w v : World)
    : Type 0 where
  pub order : Order
  pub prepared : (prepare env args w).0 ≡ ok order
  pub answered : IsAnswered env order a v

-- If `deliver` is answered, whether it finds the delivery at its first look, at its second one
-- under the lock or makes it, then the store holds, under the identifier of the order, a delivery
-- with the payload of the order, the answer is the view of that delivery, and the delivery is the
-- new one of this order or the answer is marked as a replay.
pub deliver-IsDelivered :
    (env : Env) (args : DeliverArgs) (w : World) {a : DeliverAnswer} {v : World}
    → deliver env args w ≡ (ok a, v)
    → IsDelivered env args a w v
unfolding deliver
deliver-IsDelivered env args w h =
    let (o, made, h1) = bind-run (prepare env args) _ w h in
    let w1 = (prepare env args w).1 in
    record {
      order = o;
      prepared = made;
      answered =
          authorize_and_make-IsAnswered env o (get w1.deliveries o.delivery_id) w1 refl
            (looked env o (λ existing. authorize_and_make env o existing) w1 h1);
    }
