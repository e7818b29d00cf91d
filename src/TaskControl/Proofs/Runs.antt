-- ===== src/TaskControl/Proofs/Runs.antt =====
-- What a block of task_control.py that returned says of its steps, and where a save leaves the store.
use universal_agent_middlewa.Prelude.{◌≡◌, ap, refl, sym, ◌∙◌, some}
use universal_agent_middlewa.Prelude.Dict.{get, get-put_same}
use universal_agent_middlewa.TaskControl.Model.{Delivery}
use universal_agent_middlewa.TaskControl.Result.{Result, ok}
use universal_agent_middlewa.TaskControl.Port.{World, Env, Proc, ◌>>=◌, pure, save, modify}
use universal_agent_middlewa.TaskControl.Proofs.Authorized.{bind-eq-ok}

pub pure-eq : {A : Type 0} (a : A) (w : World) {b : A} → (pure a w).0 ≡ ok b → b ≡ a
unfolding pure
pure-eq a w h = cc

pub pure-world : {A : Type 0} (a : A) (w : World) → (pure a w).1 ≡ w
unfolding pure
pure-world a w = refl

-- What the store of a world holds that a save has made.
pub save-get :
    (env : Env) (d : Delivery) (w : World)
    → get ((save env d w).1).deliveries d.delivery_id ≡ some d
unfolding save modify
save-get env d w = get-put_same w.deliveries d.delivery_id d

pub pair_eq :
    {A : Type 0} (r : Result A × World) {x : Result A} {v : World} → r.0 ≡ x → r.1 ≡ v → r ≡ (x, v)
pair_eq (a, b) h k = cc

-- A block that returned: its first step did, and the rest ended as the block.
pub bind-run :
    {A B : Type 0} (m : Proc A) (f : A → Proc B) (w : World) {b : B} {v : World}
    → (m >>= f) w ≡ (ok b, v)
    → (a : A) × ((m w).0 ≡ ok a) × (f a (m w).1 ≡ (ok b, v))
bind-run m f w h =
    let (a, first, rest, ends) = bind-eq-ok m f w (ap (λ x. x.0) h) in
    (a, first, pair_eq _ rest (sym ends ∙ ap (λ x. x.1) h))

pub pure-run : {A : Type 0} (a : A) (w : World) {b : A} {v : World} → pure a w ≡ (ok b, v) → b ≡ a
pure-run a w h = pure-eq a w (ap (λ x. x.0) h)

pub pure-run_world :
    {A : Type 0} (a : A) (w : World) {b : A} {v : World} → pure a w ≡ (ok b, v) → w ≡ v
pure-run_world a w h = sym (pure-world a w) ∙ ap (λ x. x.1) h
