-- ===== src/Consumer/Proofs/Asked.antt =====
-- The steps of `_handle` of consumer.py: what each asks of the control object, and on which attempts it reports.
use universal_agent_middlewa.Prelude.{
  ℕ, ◌≡◌, refl, sym, subst, List, ◌∙◌, String, Bool, true, false, Option, none, some,
}
use universal_agent_middlewa.Consumer.Journal.{Record, Ledger, Handle, ledger, attempt_left_open}
use universal_agent_middlewa.Consumer.Port.{
  World, Env, Proc, Ran, Refusal, done, refused, raised, ◌>>=◌, View, AttemptView, StartAnswer,
  started, start_refused, start_raised, UamCall, called_start,
}
use universal_agent_middlewa.Consumer.Admit.{Admission}
use universal_agent_middlewa.Consumer.Settle.{finalize, ledger_of}
use universal_agent_middlewa.Consumer.Handle.{
  last_of, later, record_refusal, caught_by, catch, finalize_live, finalize_now, announce,
  run_attempt, ask_start, start_record, after_start, with_locks, adopt, is_ours, place,
  adopt_or_clear,
}
use universal_agent_middlewa.Consumer.Proofs.Steps.{
  nothing, one_more, Within-trans, Stays, Quiet, Quiet-Stays, Quiet-bind, Stays-bind,
  Stays-bind_done, Stays-more, Stays-ask, Stays-test, pure-Quiet, refuse-Quiet, fail-Quiet,
  ask-Quiet, append-Quiet, or_fail-Quiet, note-Quiet, back_off-Quiet, defer-Quiet,
}
use universal_agent_middlewa.Consumer.Proofs.Lives.{
  HasLive, StaysFrom, StaysFrom-bind, StaysFrom-Stays, start-HasLive, announce-HasLive, end-HasLive,
  ask-HasLive,
}
use universal_agent_middlewa.Consumer.Proofs.Reports.{IsReport, IsAllowed, finalize-Stays}
use universal_agent_middlewa.Consumer.Proofs.Admitted.{or_fail-Gives, done_inj}

some_inj : {A : Type 0} {a b : A} → some a ≡ some b → a ≡ b
some_inj e = cc

-- An attempt of this delivery that may be reported on: the live one of the journal, one that a start of the delivery
-- answered, or, where the outcome of a start was not known, the last one of the delivery, which is active and ours.
pub data IsLive (env : Env) (id : String) (journal : List Record) : Record → Type 0 where
  journalled : {live : Record} → (ledger id journal).live ≡ some live → IsLive env id journal live
  begun :
      (n lease : ℕ) {attempt : AttemptView}
      → env.start n id lease ≡ started attempt
      → IsLive env id journal (start_record env id attempt)
  adopted :
      (n : ℕ) {view : View} {attempt : AttemptView}
      → env.view_of n id ≡ some view
      → last_of view.attempts ≡ some attempt
      → is_ours env attempt ≡ true
      → IsLive env id journal (start_record env id attempt)

abbrev Reports : Env → String → List Record → (UamCall → Type 0) → Type 0
Reports env id journal Q =
    (c : UamCall) (live : Record) → IsLive env id journal live → IsReport env id live c → Q c

announce-Quiet :
    (env : Env) (id : String) (attempt : AttemptView) (o : Option Handle)
    → Quiet (announce env id attempt o)
unfolding announce
announce-Quiet env id attempt none = pure-Quiet tt
announce-Quiet env id attempt (some h) = append-Quiet _

ask_start-answer :
    (env : Env) (id : String) (lease : ℕ) (w : World) {a : StartAnswer}
    → (ask_start env id lease w).0 ≡ done a
    → env.start w.questions id lease ≡ a
unfolding ask_start
ask_start-answer env id lease w h = done_inj h

module _ (env : Env) (id : String) (journal : List Record) {Q : UamCall → Type 0} where
  later-Stays : (o : Option ℕ) → Stays Q (IsAllowed env id) (later env id o)
  unfolding later
  later-Stays none = Quiet-Stays (back_off-Quiet env id)
  later-Stays (some micros) = Quiet-Stays (defer-Quiet env id micros)

  pub record_refusal-Stays :
      (l : Ledger) (r : Refusal) → Stays Q (IsAllowed env id) (record_refusal env id l r)
  unfolding record_refusal
  record_refusal-Stays l r =
      Stays-bind _ (Quiet-Stays (note-Quiet id r.phase r.code l)) (λ u. later-Stays r.retry)

  pub finalize_in :
      Reports env id journal Q
      → (live : Record) (l : Ledger) → IsLive env id journal live
      → Stays Q (IsAllowed env id) (finalize env id live l)
  finalize_in q live l i = Stays-more (λ c r. q c live i r) (finalize-Stays env id live l)

  finalize_live-Stays :
      Reports env id journal Q
      → (l : Ledger) (o : Option Record)
      → ((live : Record) → o ≡ some live → IsLive env id journal live)
      → Stays Q (IsAllowed env id) (finalize_live env id l o)
  unfolding finalize_live
  finalize_live-Stays q l none i = Quiet-Stays fail-Quiet
  finalize_live-Stays q l (some live) i = finalize_in q live l (i live refl)

  finalize_now-StaysFrom :
      Reports env id journal Q
      → (live : Record) → IsLive env id journal live
      → StaysFrom (HasLive id live) Q (IsAllowed env id) (finalize_now env id)
  unfolding finalize_now ledger_of ◌>>=◌
  finalize_now-StaysFrom q live i = record {
    within = λ w h.
        let l = ledger id w.journal in
        (finalize_live-Stays q l l.live
            (λ other e. subst (IsLive env id journal) (some_inj (sym h ∙ e)) i)).within
          w;
  }

  run_attempt-Stays :
      Reports env id journal Q
      → (attempt : AttemptView) → IsLive env id journal (start_record env id attempt)
      → Stays Q (IsAllowed env id) (run_attempt env id attempt)
  unfolding run_attempt
  run_attempt-Stays q attempt i = StaysFrom-Stays (
      StaysFrom-bind {R = HasLive id (start_record env id attempt)} _ (Quiet-Stays (append-Quiet _))
        (λ w h. start-HasLive env id attempt w)
        (λ u.
          StaysFrom-bind {R = HasLive id (start_record env id attempt)} _
            (Quiet-Stays (ask-Quiet _)) (λ w h. ask-HasLive _ id w h)
            (λ answer.
              StaysFrom-bind {R = HasLive id (start_record env id attempt)} _
                (Quiet-Stays (announce-Quiet env id attempt answer.announced))
                (λ w h. announce-HasLive env id attempt answer.announced w h)
                (λ u.
                  StaysFrom-bind {R = HasLive id (start_record env id attempt)} _
                    (Quiet-Stays (append-Quiet _)) (λ w h. end-HasLive id _ w refl refl h)
                    (λ u. finalize_now-StaysFrom q (start_record env id attempt) i)))))

  adopt-Stays :
      Reports env id journal Q
      → (attempt : AttemptView) → IsLive env id journal (start_record env id attempt)
      → Stays Q (IsAllowed env id) (adopt env id attempt)
  unfolding adopt
  adopt-Stays q attempt i = StaysFrom-Stays (
      StaysFrom-bind {R = HasLive id (start_record env id attempt)} _ (Quiet-Stays (append-Quiet _))
        (λ w h. start-HasLive env id attempt w)
        (λ u. finalize_now-StaysFrom q (start_record env id attempt) i))

  place-Stays :
      Reports env id journal Q
      → (l : Ledger) (o : Option AttemptView)
      → ((attempt : AttemptView)
          → o ≡ some attempt
          → is_ours env attempt ≡ true
          → IsLive env id journal (start_record env id attempt))
      → Stays Q (IsAllowed env id) (place env id l o)
  unfolding place
  place-Stays q l none i = Quiet-Stays (append-Quiet _)
  place-Stays q l (some attempt) i =
      Stays-test (is_ours env attempt) (λ ours. adopt-Stays q attempt (i attempt refl ours))
        (λ other. Quiet-Stays (note-Quiet id attempt_left_open "INTENT_UNRESOLVED" l))

  pub adopt_or_clear-Stays :
      Reports env id journal Q → (l : Ledger) → Stays Q (IsAllowed env id) (adopt_or_clear env id l)
  unfolding adopt_or_clear
  adopt_or_clear-Stays q l =
      Stays-ask (λ n. env.view_of n id) _
        (λ n. Stays-bind_done _ (Quiet-Stays (or_fail-Quiet (env.view_of n id))) (λ w view seen.
          place-Stays q l (last_of view.attempts) (λ attempt last ours.
            adopted n ((or_fail-Gives (env.view_of n id)).given w view seen) last ours)))

  after_start-Stays :
      Reports env id journal Q
      → (n lease : ℕ) (a : StartAnswer) → env.start n id lease ≡ a
      → Stays Q (IsAllowed env id) (after_start env id a)
  unfolding after_start
  after_start-Stays q n lease (started attempt) e = run_attempt-Stays q attempt (begun n lease e)
  after_start-Stays q n lease (start_refused code) e =
      Quiet-Stays (Quiet-bind _ (append-Quiet _) (λ u. refuse-Quiet _))
  after_start-Stays q n lease start_raised e = Quiet-Stays fail-Quiet

  ask_start-Stays :
      (lease : ℕ) → Q (called_start id lease) → Stays Q (IsAllowed env id) (ask_start env id lease)
  unfolding ask_start
  ask_start-Stays lease q = record {
    within = λ w. record { new_calls = one_more q nothing; new_commands = nothing };
  }

  pub with_locks-Stays :
      Reports env id journal Q
      → (a : Admission) (b : Bool) → Q (called_start id (a.rule).lease_seconds)
      → Stays Q (IsAllowed env id) (with_locks env id a b)
  unfolding with_locks
  with_locks-Stays q a false h = Quiet-Stays (refuse-Quiet _)
  with_locks-Stays q a true h = Stays-bind _ (Quiet-Stays (append-Quiet _)) (λ u.
      Stays-bind_done _ (ask_start-Stays (a.rule).lease_seconds h) (λ w answer asked.
        after_start-Stays q w.questions (a.rule).lease_seconds answer
          (ask_start-answer env id (a.rule).lease_seconds w asked)))

  caught_by-Stays :
      (l : Ledger) (r : Ran (Unit {0})) → Stays Q (IsAllowed env id) (caught_by env id l r)
  unfolding caught_by
  caught_by-Stays l (done u) = Quiet-Stays (pure-Quiet u)
  caught_by-Stays l (refused r) = record_refusal-Stays l r
  caught_by-Stays l raised = Quiet-Stays fail-Quiet

  pub catch-Stays :
      (l : Ledger) {m : Proc (Unit {0})}
      → Stays Q (IsAllowed env id) m
      → Stays Q (IsAllowed env id) (catch env id l m)
  unfolding catch
  catch-Stays l {m = m} h = record {
    within = λ w. Within-trans (h.within w) ((caught_by-Stays l (m w).0).within (m w).1);
  }
