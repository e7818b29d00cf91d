-- ===== src/Continuity/Proofs/Settled.antt =====
-- When a delivery has no effect left open: `is_unresolved` of task_continuity.py against the stop rules.
use universal_agent_middlewa.Prelude.{
  ◌≡◌, refl, Bool, true, false, not, ◌&&◌, if◌then◌else◌, Option, none, some, List, [], ◌∷◌, All,
}
use universal_agent_middlewa.TaskControl.Model.{
  AttemptState, active, ended, with_result, EndHow, lease_expired, handed_over, reported, by_result,
  AttemptEnd, Effect, none_observed, partial, unknown, not_started, recorded, is_result_recorded,
}
use universal_agent_middlewa.Continuity.Model.{Stop, Attempt, Delivery}
use universal_agent_middlewa.Continuity.Evidence.{
  has, not_confirmed, stop_of_how, stop_of_end, stop_of, attempt_stop_evidence, is_unconfirmed_how,
  unconfirmed_how, unconfirmed_of, unconfirmed_end, blocker_of, stop_blockers_of, stop_blockers,
  is_confirmed, is_open_stop, or_newer, any_unconfirmed, effect_open, end_open, last_open,
  unresolved_of, is_unresolved,
}
use universal_agent_middlewa.Continuity.Proofs.Permits.{IsConfirmed}

-- The last attempt, if any, ended without an observed effect.
pub data IsHarmless : List Attempt → Type 0 where
  unattempted : IsHarmless []
  no_effect :
      {a : Attempt} {l : List Attempt} (e : AttemptEnd)
      → a.state ≡ ended
      → a.end ≡ some e
      → e.effect ≡ some none_observed
      → IsHarmless (a ∷ l)

pub record IsSettled (d : Delivery) : Type 0 where
  pub all_confirmed : All IsConfirmed d.attempts
  pub last_harmless : IsHarmless d.attempts
  pub unblocked : stop_blockers d ≡ some []

both-closed : (x y : Option Bool) → or_newer x y ≡ some false → (x ≡ some false) × (y ≡ some false)
unfolding or_newer
both-closed none y h = cc
both-closed (some true) y h = cc
both-closed (some false) y h = (refl, h)

not-closed : (b : Bool) → some (not b) ≡ some false → b ≡ true
not-closed true h = refl
not-closed false h = cc

open_stop-IsConfirmed :
    (a : Attempt) (o : Option Stop)
    → attempt_stop_evidence a ≡ o
    → is_open_stop o ≡ some false
    → IsConfirmed a
unfolding is_open_stop
open_stop-IsConfirmed a none e h = cc
open_stop-IsConfirmed a (some s) e h = record {
  stop = s;
  is_stop = e;
  is_confirmed = not-closed (is_confirmed s) h;
}

any_unconfirmed-All : (l : List Attempt) → any_unconfirmed l ≡ some false → All IsConfirmed l
unfolding any_unconfirmed
any_unconfirmed-All [] h = tt
any_unconfirmed-All (a ∷ l) h =
    let p = both-closed (any_unconfirmed l) (is_open_stop (attempt_stop_evidence a)) h in
    (open_stop-IsConfirmed a (attempt_stop_evidence a) refl p.1, any_unconfirmed-All l p.0)

effect_open-none : (o : Option Effect) → effect_open o ≡ some false → o ≡ some none_observed
unfolding effect_open
effect_open-none none h = cc
effect_open-none (some none_observed) h = refl
effect_open-none (some not_started) h = cc
effect_open-none (some partial) h = cc
effect_open-none (some unknown) h = cc
effect_open-none (some recorded) h = cc

last_open-ended :
    (s : AttemptState) (e : Option AttemptEnd)
    → last_open s e ≡ some false
    → (s ≡ ended) × (end_open e ≡ some false)
unfolding last_open
last_open-ended active e h = cc
last_open-ended with_result e h = cc
last_open-ended ended e h = (refl, h)

end_open-effect :
    (e : Option AttemptEnd)
    → end_open e ≡ some false
    → (f : AttemptEnd) × ((e ≡ some f) × (f.effect ≡ some none_observed))
unfolding end_open
end_open-effect none h = cc
end_open-effect (some f) h = (f, (refl, effect_open-none f.effect h))

confirmed_how-unblocked :
    (how : EndHow) (late : Bool) {stop : Stop}
    → stop_of_how how late ≡ some stop
    → is_confirmed stop ≡ true
    → blocker_of (some (if is_unconfirmed_how how && not late then some how else none)) ≡ some []
unfolding stop_of_how not_confirmed is_unconfirmed_how blocker_of is_confirmed
confirmed_how-unblocked reported late h c = refl
confirmed_how-unblocked lease_expired true h c = refl
confirmed_how-unblocked lease_expired false h c = cc
confirmed_how-unblocked handed_over true h c = refl
confirmed_how-unblocked handed_over false h c = cc
confirmed_how-unblocked by_result late h c = refl

confirmed-unblocked :
    (s : AttemptState) (e : Option AttemptEnd) (late : Bool) {stop : Stop}
    → stop_of s e late ≡ some stop
    → is_confirmed stop ≡ true
    → blocker_of (unconfirmed_of s e late) ≡ some []
unfolding stop_of stop_of_end unconfirmed_of unconfirmed_how blocker_of is_confirmed
confirmed-unblocked active e late h c = refl
confirmed-unblocked with_result e late h c = refl
confirmed-unblocked ended none late h c = cc
confirmed-unblocked ended (some e) late h c = confirmed_how-unblocked e.how late h c

All-unblocked : (l : List Attempt) → All IsConfirmed l → stop_blockers_of l ≡ some []
unfolding stop_blockers_of unconfirmed_end attempt_stop_evidence
All-unblocked [] h = refl
All-unblocked (a ∷ l) h =
    confirmed-unblocked a.state a.end (has a.late_stop_report) (h.0).is_stop (h.0).is_confirmed

settled_of : (l : List Attempt) → unresolved_of l ≡ some false → All IsConfirmed l × IsHarmless l
unfolding unresolved_of
settled_of [] h = (tt, unattempted)
settled_of (a ∷ l) h =
    let p = both-closed (last_open a.state a.end) (any_unconfirmed (a ∷ l)) h in
    let e = last_open-ended a.state a.end p.0 in
    let f = end_open-effect a.end e.1 in
    (any_unconfirmed-All (a ∷ l) p.1, no_effect f.0 e.0 (f.1).0 (f.1).1)

-- A delivery without a recorded result that is not unresolved has every attempt confirmed as stopped, its last
-- attempt ended without an observed effect, and no stop blocker for a new attempt.
pub is_unresolved-IsSettled :
    (d : Delivery) → is_result_recorded d.state ≡ false → is_unresolved d ≡ some false → IsSettled d
unfolding is_unresolved stop_blockers
is_unresolved-IsSettled d r h =
    let p = settled_of d.attempts (rw r at h) in
    record { all_confirmed = p.0; last_harmless = p.1; unblocked = All-unblocked d.attempts p.0 }
