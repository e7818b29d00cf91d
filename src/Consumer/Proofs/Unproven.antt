-- ===== src/Consumer/Proofs/Unproven.antt =====
-- An executor that was not confirmed stopped: when `_stop_reconciled` of consumer.py says no.
use universal_agent_middlewa.Prelude.{
  ℕ, ◌≡◌, refl, sym, ◌∙◌, subst, String, Bool, true, false, not, ◌||◌, Option, none, some, List, [],
  ◌∷◌, any, Bool-cases, inl, inr,
}
use mathlib.Core.Bool.{false≢true}
use universal_agent_middlewa.Consumer.Journal.{Record, Phase, Ledger, Handle, StopReport, Identity}
use universal_agent_middlewa.Consumer.Port.{Env, ◌>>◌, ask, back_off}
use universal_agent_middlewa.Consumer.Stop.{
  StopState, alive, identity_changed, readback_unavailable, observation_failed,
  exited_before_observation, end_not_recorded, unprovable, not_proven, is_process_group, pgid_of,
  identities_of, says, without_end, judge_running, has_any, says_stopped, group_is_alive, read_back,
  of_report, with_end, stop_state_of, stop_state, unless_proven, of_state, is_stop_reconciled, note,
}
use universal_agent_middlewa.Consumer.Proofs.Admitted.{
  Gives, Gives-bind, Gives-test, Gives-any, pure-Gives, done_inj,
}

-- The journal's end record of the live attempt is of an executor that was not called stopped.
pub data IsUnconfirmed (l : Ledger) (r : Option StopReport) : Type 0 where
  ended_running :
      (e : Record)
      → l.ended ≡ some e
      → e.stopped ≡ some false
      → e.stop_report ≡ r
      → IsUnconfirmed l r

-- What a reading of the process table must answer for the executor not to be gone.
pub data IsThere : Option (List (ℕ × Bool)) → Type 0 where
  unreadable : IsThere none
  found : {p : ℕ × Bool} {l : List (ℕ × Bool)} → IsThere (some (p ∷ l))

-- Why it can never be, or is not now, shown to be gone.
pub data IsNotGone (env : Env) (l : Ledger) : Type 0 where
  -- an Agent was announced, and its end was not recorded
  agent_end_missing :
      (h : Handle)
      → l.handle ≡ some h
      → l.ended ≡ none
      → is_process_group (some h) ≡ false
      → IsNotGone env l
  -- the process table could not be read when the executor was closed
  never_observed :
      (r : Option StopReport)
      → IsUnconfirmed l r
      → says (λ s. s.observation) "UNAVAILABLE" r ≡ true
      → IsNotGone env l
  -- the executor had exited before it was observed
  uncovered :
      (r : Option StopReport)
      → IsUnconfirmed l r
      → says (λ s. s.coverage) "UNCOVERED" r ≡ true
      → IsNotGone env l
  -- nothing was recorded of an Agent
  nothing_recorded :
      (r : Option StopReport)
      → IsUnconfirmed l r
      → identities_of r ≡ []
      → is_process_group l.handle ≡ false
      → IsNotGone env l
  -- the recorded processes cannot be read back, or one of their numbers is still there
  not_read :
      (r : Option StopReport)
      → IsUnconfirmed l r
      → has_any (identities_of r) ≡ true
      → ((n : ℕ) → IsThere (env.still_running n (identities_of r)))
      → IsNotGone env l

record Unproven (o : Option StopState) : Type 0 where
  state : StopState
  is_state : o ≡ some state
  advice : Phase × String
  is_unproven : not_proven state ≡ some advice

abbrev unproven : (s : StopState) {a : Phase × String} → not_proven s ≡ some a → Unproven (some s)
unproven s {a = a} e = record { state = s; is_state = refl; advice = a; is_unproven = e }

pub absurd_test {ℓ} : {A : Type ℓ} {b : Bool} → b ≡ true → b ≡ false → A
absurd_test t f = absurd (false≢true (sym f ∙ t))

judge_running-Unproven :
    (group whole recorded : Bool) (o : Option (List (ℕ × Bool)))
    → IsThere o
    → Unproven (some (judge_running group whole recorded o))
unfolding judge_running not_proven
judge_running-Unproven group whole recorded none unreadable = unproven readback_unavailable refl
judge_running-Unproven group whole recorded (some []) h = elim h [ ]
judge_running-Unproven group whole recorded (some ((n, false) ∷ l)) found = unproven alive refl
judge_running-Unproven group whole recorded (some ((n, true) ∷ l)) found =
    elim (Bool-cases (any (λ (p : ℕ × Bool). not p.1) l || group)) [
      | inl e ↦ rw e (unproven alive refl)
      | inr e ↦ rw e (unproven identity_changed refl)
    ]

judge_running-nothing : (group : Bool) → Unproven (some (judge_running group false false (some [])))
unfolding judge_running not_proven
judge_running-nothing true = unproven alive refl
judge_running-nothing false = unproven unprovable refl

abbrev judged :
    Option Handle → Option StopReport → Option (List (ℕ × Bool)) → Bool → Option StopState
judged h r running group =
    some (judge_running group (is_process_group h) (has_any (identities_of r)) running)

module _ (env : Env) where
  -- The report's own words decide, or what the reading of the process table answers.
  of_report-Unproven :
      (h : Option Handle) (r : Option StopReport) (P : Option (List (ℕ × Bool)) → Type 0)
      → (says (λ s. s.observation) "UNAVAILABLE" r ≡ false
          → says (λ s. s.coverage) "UNCOVERED" r ≡ false
          → Gives P (read_back env (identities_of r)))
      → ((running : Option (List (ℕ × Bool)))
          → P running
          → (group : Bool) → Unproven (judged h r running group))
      → Gives Unproven (of_report env h r)
  unfolding of_report not_proven
  of_report-Unproven h r P reads k =
      Gives-test (says (λ s. s.observation) "UNAVAILABLE" r)
        (λ e. pure-Gives _ (unproven observation_failed refl))
        (λ o.
          Gives-test (says (λ s. s.coverage) "UNCOVERED" r)
            (λ e. pure-Gives _ (unproven exited_before_observation refl))
            (λ c. Gives-bind _ (reads o c) (λ running p.
              Gives-bind _ (Gives-any (group_is_alive env (pgid_of h)))
                (λ group u. pure-Gives _ (k running p group)))))

  read_back-IsThere :
      (l : List Identity)
      → has_any l ≡ true
      → ((n : ℕ) → IsThere (env.still_running n l))
      → Gives IsThere (read_back env l)
  unfolding read_back has_any ask
  read_back-IsThere [] e h = cc
  read_back-IsThere (i ∷ l) e h = record {
    given = λ w a e. subst IsThere (done_inj e) (h w.questions);
  }

  read_back-nothing : (l : List Identity) → l ≡ [] → Gives (λ o. o ≡ some []) (read_back env l)
  unfolding read_back
  read_back-nothing [] e = pure-Gives (some []) refl
  read_back-nothing (i ∷ l) e = cc

  nothing_recorded-Unproven :
      (h : Option Handle) (r : Option StopReport) (running : Option (List (ℕ × Bool)))
      (group : Bool)
      → identities_of r ≡ []
      → is_process_group h ≡ false
      → running ≡ some []
      → Unproven (judged h r running group)
  unfolding has_any
  nothing_recorded-Unproven h r running group i p e = rw (i, p, e) (judge_running-nothing group)

  with_end-Unproven :
      (h : Option Handle) (e : Record) {r : Option StopReport}
      → e.stopped ≡ some false
      → e.stop_report ≡ r
      → Gives Unproven (of_report env h r)
      → Gives Unproven (with_end env h e)
  unfolding with_end says_stopped
  with_end-Unproven h e s q g = rw (s, q) g

  stop_state-ended :
      (l : Ledger) {r : Option StopReport}
      → IsUnconfirmed l r
      → Gives Unproven (of_report env l.handle r)
      → Gives Unproven (stop_state env l)
  unfolding stop_state stop_state_of
  stop_state-ended l (ended_running e is stopped report) g =
      rw is (with_end-Unproven l.handle e stopped report g)

  stop_state-missing :
      (l : Ledger) (h : Handle)
      → l.handle ≡ some h
      → l.ended ≡ none
      → is_process_group (some h) ≡ false
      → Gives Unproven (stop_state env l)
  unfolding stop_state stop_state_of without_end not_proven
  stop_state-missing l h is missing agent =
      rw (is, missing, agent) (pure-Gives _ (unproven end_not_recorded refl))

  stop_state-Unproven : (l : Ledger) → IsNotGone env l → Gives Unproven (stop_state env l)
  stop_state-Unproven l (agent_end_missing h is missing agent) =
      stop_state-missing l h is missing agent
  stop_state-Unproven l (never_observed r u e) = stop_state-ended l u (
      of_report-Unproven l.handle r IsThere (λ o c. absurd_test e o)
        (λ running p group. judge_running-Unproven group _ _ running p))
  stop_state-Unproven l (uncovered r u e) = stop_state-ended l u (
      of_report-Unproven l.handle r IsThere (λ o c. absurd_test e c)
        (λ running p group. judge_running-Unproven group _ _ running p))
  stop_state-Unproven l (nothing_recorded r u i p) = stop_state-ended l u (
      of_report-Unproven l.handle r (λ o. o ≡ some [])
        (λ o c. read_back-nothing (identities_of r) i)
        (λ running e group. nothing_recorded-Unproven l.handle r running group i p e))
  stop_state-Unproven l (not_read r u i h) = stop_state-ended l u (
      of_report-Unproven l.handle r IsThere (λ o c. read_back-IsThere (identities_of r) i h)
        (λ running p group. judge_running-Unproven group _ _ running p))

  of_state-false :
      (id : String) (live : Record) (l : Ledger) (o : Option StopState)
      → Unproven o
      → Gives (λ b. b ≡ false) (of_state env id live l o)
  unfolding of_state unless_proven
  of_state-false id live l o u =
      rw (u.is_state, u.is_unproven)
        (Gives-bind _ (Gives-any (note id u.advice.0 u.advice.1 l >> back_off env id))
          (λ a x. pure-Gives false refl))

  pub is_stop_reconciled-false :
      (id : String) (live : Record) (l : Ledger)
      → IsNotGone env l
      → Gives (λ b. b ≡ false) (is_stop_reconciled env id live l)
  unfolding is_stop_reconciled
  is_stop_reconciled-false id live l h =
      Gives-bind _ (stop_state-Unproven l h) (λ o u. of_state-false id live l o u)
