-- ===== src/Consumer/Proofs/Lives.antt =====
-- The live attempt that the journal of consumer.py has once an attempt was begun or adopted, and what a method may
-- ask where the journal has that attempt.
use universal_agent_middlewa.Prelude.{
  ℕ, ◌≡◌, refl, sym, ◌∙◌, ap, subst, String, Option, none, some, List, [], ◌∷◌, ◌++◌, str_eq_self,
  arith,
}
use universal_agent_middlewa.Consumer.Journal.{
  Record, Ledger, Handle, executor_started, executor_ended, is_about, apply, apply_phase, refresh,
  ledger, empty_ledger,
}
use universal_agent_middlewa.Consumer.Port.{
  World, Env, Proc, ◌>>=◌, ask, append, pure, plain_record, AttemptView, UamCall,
}
use universal_agent_middlewa.Consumer.Handle.{announce, start_record}
use universal_agent_middlewa.Consumer.Proofs.Steps.{Within, Stays, continue-Within}

-- The journal has this attempt as the live one.
abbrev pub HasLive : String → Record → World → Type 0
HasLive id live w = (ledger id w.journal).live ≡ some live

refresh-one :
    (id : String) (l : Ledger) (records : List Record) (r : Record)
    → refresh id l (records ++ (r ∷ [])) ≡ apply id (refresh id l records) r
unfolding refresh
refresh-one id l [] r = refl
refresh-one id l (q ∷ records) r = refresh-one id (apply id l q) records r

ledger-one :
    (id : String) (records : List Record) (r : Record)
    → ledger id (records ++ (r ∷ [])) ≡ apply id (ledger id records) r
unfolding ledger
ledger-one id records r = refresh-one id empty_ledger records r

apply-own :
    (id : String) (l : Ledger) (r : Record)
    → r.delivery_id ≡ some id
    → apply id l r ≡ apply_phase r.phase l r
unfolding apply is_about
apply-own id l r h = rw (h, str_eq_self id) refl

module _ (env : Env) (id : String) (attempt : AttemptView) where
  pub start-HasLive :
      (w : World)
      → HasLive id (start_record env id attempt) (append (start_record env id attempt) w).1
  unfolding append apply_phase
  start-HasLive w =
      ap (λ l. l.live) (ledger-one id w.journal (start_record env id attempt))
      ∙ ap (λ l. l.live) (apply-own id (ledger id w.journal) (start_record env id attempt) refl)

executor_keeps_live :
    (id : String) (l : Ledger) (r : Record) {live : Record}
    → r.delivery_id ≡ some id
    → ((k : Ledger) → (apply_phase r.phase k r).live ≡ k.live)
    → l.live ≡ some live
    → (apply id l r).live ≡ some live
executor_keeps_live id l r own keeps h = ap (λ k. k.live) (apply-own id l r own) ∙ keeps l ∙ h

append-HasLive :
    (id : String) (r : Record) {live : Record} (w : World)
    → r.delivery_id ≡ some id
    → ((k : Ledger) → (apply_phase r.phase k r).live ≡ k.live)
    → HasLive id live w
    → HasLive id live (append r w).1
unfolding append
append-HasLive id r w own keeps h =
    ap (λ l. l.live) (ledger-one id w.journal r)
    ∙ executor_keeps_live id (ledger id w.journal) r own keeps h

-- The records of an executor leave the live attempt.
executor_started-live : (l : Ledger) (r : Record) → (apply_phase executor_started l r).live ≡ l.live
unfolding apply_phase
executor_started-live l r = ground arith

executor_ended-live : (l : Ledger) (r : Record) → (apply_phase executor_ended l r).live ≡ l.live
unfolding apply_phase
executor_ended-live l r = ground arith

pub announce-HasLive :
    (env : Env) (id : String) (attempt : AttemptView) (o : Option Handle) {live : Record}
    (w : World)
    → HasLive id live w
    → HasLive id live (announce env id attempt o w).1
unfolding announce pure
announce-HasLive env id attempt none w h = h
announce-HasLive env id attempt (some handle) w h =
    let r = record (plain_record id executor_started) {
      attempt_ref = some attempt.attempt_ref;
      handle = some handle;
    } in
    append-HasLive id r w refl (λ k. executor_started-live k r) h

pub end-HasLive :
    (id : String) (r : Record) {live : Record} (w : World)
    → r.delivery_id ≡ some id
    → r.phase ≡ executor_ended
    → HasLive id live w
    → HasLive id live (append r w).1
end-HasLive id r w own ended h =
    append-HasLive id r w own
      (λ k. subst (λ p. (apply_phase p k r).live ≡ k.live) (sym ended) (executor_ended-live k r)) h

pub ask-HasLive :
    {A : Type 0} (answer : ℕ → A) (id : String) {live : Record} (w : World)
    → HasLive id live w
    → HasLive id live (ask answer w).1
unfolding ask
ask-HasLive answer id w h = h

-- What the method asks, where the world is as P says.
pub record StaysFrom (P : World → Type 0) (Q : UamCall → Type 0) (S : String → Type 0) {A : Type 0}
    (m : Proc A) : Type 0 where
  pub within : (w : World) → P w → Within Q S w (m w).1

module _ {P R : World → Type 0} {Q : UamCall → Type 0} {S : String → Type 0} where
  -- A first part that leaves the world as R says, before a second part that relies on it.
  pub StaysFrom-bind :
      {A B : Type 0} {m : Proc A} (f : A → Proc B)
      → Stays Q S m
      → ((w : World) → P w → R (m w).1)
      → ((a : A) → StaysFrom R Q S (f a))
      → StaysFrom P Q S (m >>= f)
  unfolding ◌>>=◌
  StaysFrom-bind {m = m} f p r h = record {
    within = λ w s.
        continue-Within w (m w).1 (m w).0 f (p.within w) (λ a e. (h a).within (m w).1 (r w s));
  }

-- Nothing was relied on.
pub StaysFrom-Stays :
    {Q : UamCall → Type 0} {S : String → Type 0} {A : Type 0} {m : Proc A}
    → StaysFrom (λ w. Unit {0}) Q S m
    → Stays Q S m
StaysFrom-Stays h = record { within = λ w. h.within w tt }
