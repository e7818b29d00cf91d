-- ===== src/Consumer/Proofs/Handling.antt =====
-- One delivery from the inbox: what `_handle` of consumer.py may ask of the control object.
use universal_agent_middlewa.Prelude.{
  ℕ, ◌≡◌, refl, List, ◌∙◌, String, false, not, ◌&&◌, Option, none, some,
}
use universal_agent_middlewa.Consumer.Journal.{Record, Ledger, ledger}
use universal_agent_middlewa.Consumer.Rules.{Item}
use universal_agent_middlewa.Consumer.Port.{World, Env, ◌>>=◌, View, UamCall, called_start}
use universal_agent_middlewa.Consumer.Admit.{Admission, refusal, is_none}
use universal_agent_middlewa.Consumer.Settle.{ledger_of}
use universal_agent_middlewa.Consumer.Handle.{try_start, start, handle_idle, handle_with, handle}
use universal_agent_middlewa.Consumer.Proofs.Steps.{
  Adds, Within, Stays, Quiet-Stays, Stays-bind, Stays-bind_done, Stays-if, pure-Quiet, ask-Quiet,
  or_fail-Quiet,
}
use universal_agent_middlewa.Consumer.Proofs.Quiet.{admit-Quiet}
use universal_agent_middlewa.Consumer.Proofs.Reports.{IsReport, IsAllowed}
use universal_agent_middlewa.Consumer.Proofs.Admitted.{
  IsAdmitted, admit-Gives, ask-Gives, or_fail-Gives,
}
use universal_agent_middlewa.Consumer.Proofs.Asked.{
  IsLive, journalled, finalize_in, adopt_or_clear-Stays, record_refusal-Stays, with_locks-Stays,
  catch-Stays,
}

-- What may be asked for this delivery: a start of an admitted delivery with the lease of its rule, or a report on an
-- attempt that may be reported on.
pub data IsAsked (env : Env) (item : Item) (journal : List Record) : UamCall → Type 0 where
  admitted_start :
      (n : ℕ) (view : View) (a : Admission)
      → env.view_of n item.delivery_id ≡ some view
      → IsAdmitted env item view a
      → IsAsked env item journal (called_start item.delivery_id (a.rule).lease_seconds)
  report :
      {c : UamCall} (live : Record)
      → IsLive env item.delivery_id journal live
      → IsReport env item.delivery_id live c
      → IsAsked env item journal c

-- The same without a start.
pub data IsOnlyReport (env : Env) (id : String) (journal : List Record) (c : UamCall) : Type 0 where
  on_attempt :
      (live : Record)
      → IsLive env id journal live
      → IsReport env id live c
      → IsOnlyReport env id journal c

module _ (env : Env) (item : Item) (journal : List Record) where
  abbrev reports :
      (c : UamCall) (live : Record)
      → IsLive env item.delivery_id journal live
      → IsReport env item.delivery_id live c
      → IsAsked env item journal c
  reports c live i r = report live i r

  abbrev on_attempt_of :
      (c : UamCall) (live : Record)
      → IsLive env item.delivery_id journal live
      → IsReport env item.delivery_id live c
      → IsOnlyReport env item.delivery_id journal c
  on_attempt_of c live i r = on_attempt live i r

  try_start-Stays :
      Stays (IsAsked env item journal) (IsAllowed env item.delivery_id) (try_start env item)
  unfolding try_start
  try_start-Stays = Stays-bind_done _ (Quiet-Stays (ask-Quiet _)) (λ w answer asked.
      Stays-bind_done _ (Quiet-Stays (or_fail-Quiet answer)) (λ v view is_view.
        Stays-bind_done _ (Quiet-Stays (admit-Quiet env item view)) (λ u a admitted.
          Stays-bind _ (Quiet-Stays (ask-Quiet _)) (λ locked.
            with_locks-Stays env item.delivery_id journal reports a locked (
              admitted_start ((ask-Gives _).given w answer asked).0 view a
                (((ask-Gives _).given w answer asked).1
                  ∙ (or_fail-Gives answer).given v view is_view)
                ((admit-Gives env item view).given u a admitted))))))

  start-Stays :
      (l : Ledger)
      → Stays (IsAsked env item journal) (IsAllowed env item.delivery_id) (start env item l)
  unfolding start
  start-Stays l = catch-Stays env item.delivery_id journal l try_start-Stays

  handle_idle-Stays :
      (l : Ledger)
      → Stays (IsAsked env item journal) (IsAllowed env item.delivery_id) (handle_idle env item l)
  unfolding handle_idle
  handle_idle-Stays l =
      Stays-if (not item.is_continuity)
        (record_refusal-Stays env item.delivery_id journal l (refusal "NOT_CONTINUITY_V2"))
        (Stays-if item.is_attempt_active (Quiet-Stays (pure-Quiet tt)) (start-Stays l))

  handle_with-Stays :
      (l : Ledger) (live intent : Option Record)
      → (ledger item.delivery_id journal).live ≡ live
      → Stays
          (IsAsked env item journal)
          (IsAllowed env item.delivery_id)
          (handle_with env item l live intent)
  unfolding handle_with
  handle_with-Stays l (some live) intent e =
      finalize_in env item.delivery_id journal reports live l (journalled e)
  handle_with-Stays l none (some intent) e =
      adopt_or_clear-Stays env item.delivery_id journal reports l
  handle_with-Stays l none none e = handle_idle-Stays l

  begun-Stays :
      (l : Ledger) (live intent : Option Record)
      → (ledger item.delivery_id journal).live ≡ live
      → is_none live && is_none intent ≡ false
      → Stays
          (IsOnlyReport env item.delivery_id journal)
          (IsAllowed env item.delivery_id)
          (handle_with env item l live intent)
  unfolding handle_with is_none
  begun-Stays l (some live) intent e h =
      finalize_in env item.delivery_id journal on_attempt_of live l (journalled e)
  begun-Stays l none (some intent) e h =
      adopt_or_clear-Stays env item.delivery_id journal on_attempt_of l
  begun-Stays l none none e h = cc

module _ (env : Env) (item : Item) where
  -- Whatever the surroundings answer, handling a delivery adds to the control object's calls only
  -- starts of the delivery for an admission, with the lease of its rule, and reports, with the
  -- reference and the fence of the attempt, on the attempt that the journal had as live, on one
  -- that a start of the delivery answered, or on one of the delivery's view that is its last one,
  -- active and ours; and it runs only commands that the policy's rule for the delivery, as the
  -- control object showed it, lists.
  pub handle-Within :
      (w : World)
      → Within (IsAsked env item w.journal) (IsAllowed env item.delivery_id) w (handle env item w).1
  unfolding handle ledger_of ◌>>=◌
  handle-Within w =
      let l = ledger item.delivery_id w.journal in
      (handle_with-Stays env item w.journal l l.live l.intent refl).within w

  -- While the journal has a live attempt of the delivery, or an intended start whose outcome it does not know,
  -- handling the delivery starts nothing: it adds reports on attempts only.
  pub handle-no_second_start :
      (w : World)
      → is_none (ledger item.delivery_id w.journal).live
          && is_none (ledger item.delivery_id w.journal).intent
        ≡ false
      → Adds (IsOnlyReport env item.delivery_id w.journal) w.calls (handle env item w).1.calls
  unfolding handle ledger_of ◌>>=◌
  handle-no_second_start w h =
      let l = ledger item.delivery_id w.journal in
      ((begun-Stays env item w.journal l l.live l.intent refl h).within w).new_calls
