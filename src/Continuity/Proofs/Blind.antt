-- ===== src/Continuity/Proofs/Blind.antt =====
-- What the Context Package and the view without content of task_continuity.py do not tell.
use universal_agent_middlewa.Prelude.{
  ℕ, suc, ◌≡◌, refl, ap, String, Bool, Option, none, some, List, [], ◌∷◌, map, length,
}
use universal_agent_middlewa.TaskControl.Model.{
  AttemptState, active, ended, with_result, AttemptEnd, Effect, Recorded,
}
use universal_agent_middlewa.Continuity.Model.{Stop, Attempt, Delivery, Blocker}
use universal_agent_middlewa.Continuity.Evidence.{
  has, stop_of, stop_of_end, attempt_stop_evidence, unconfirmed_of, unconfirmed_how,
  unconfirmed_end, blocker_of, stop_blockers_of, stop_blockers, Permission, blockers_of,
  is_last_active, permission_with, new_effect_permission,
}
use universal_agent_middlewa.Continuity.Views.{
  on_some, how_of, withhold_end, withhold_late, withhold_attempt, withhold_cancel, withhold_result,
}
use universal_agent_middlewa.Continuity.Package.{
  AttemptLine, line_of, lines_of, artifacts_of, Unsigned, unsigned_with, unsigned_of,
  build_context_package,
}

-- The delivery with what `withhold_content` withholds taken out.
abbrev pub without_content : Delivery → Delivery
without_content d = record d {
  attempts = map withhold_attempt d.attempts;
  cancel = on_some withhold_cancel d.cancel;
  result = on_some withhold_result d.result;
}

has-on_some : {A B : Type 0} (f : A → B) (o : Option A) → has (on_some f o) ≡ has o
unfolding has on_some
has-on_some f none = refl
has-on_some f (some a) = refl

stop_of-withheld :
    (s : AttemptState) (e : Option AttemptEnd) (late : Bool)
    → stop_of s (on_some withhold_end e) late ≡ stop_of s e late
unfolding stop_of stop_of_end on_some withhold_end
stop_of-withheld active e late = refl
stop_of-withheld with_result e late = refl
stop_of-withheld ended none late = refl
stop_of-withheld ended (some e) late = refl

stop-withheld : (a : Attempt) → attempt_stop_evidence (withhold_attempt a) ≡ attempt_stop_evidence a
unfolding attempt_stop_evidence withhold_attempt
stop-withheld a =
    rw (has-on_some withhold_late a.late_stop_report)
      (stop_of-withheld a.state a.end (has a.late_stop_report))

unconfirmed_of-withheld :
    (s : AttemptState) (e : Option AttemptEnd) (late : Bool)
    → unconfirmed_of s (on_some withhold_end e) late ≡ unconfirmed_of s e late
unfolding unconfirmed_of unconfirmed_how on_some withhold_end
unconfirmed_of-withheld active e late = refl
unconfirmed_of-withheld with_result e late = refl
unconfirmed_of-withheld ended none late = refl
unconfirmed_of-withheld ended (some e) late = refl

unconfirmed-withheld : (a : Attempt) → unconfirmed_end (withhold_attempt a) ≡ unconfirmed_end a
unfolding unconfirmed_end withhold_attempt
unconfirmed-withheld a =
    rw (has-on_some withhold_late a.late_stop_report)
      (unconfirmed_of-withheld a.state a.end (has a.late_stop_report))

how_of-withheld : (e : Option AttemptEnd) → how_of (on_some withhold_end e) ≡ how_of e
unfolding how_of on_some withhold_end
how_of-withheld none = refl
how_of-withheld (some e) = refl

line_of-withheld : (a : Attempt) (stop : Stop) → line_of (withhold_attempt a) stop ≡ line_of a stop
unfolding line_of withhold_attempt
line_of-withheld a stop = rw (how_of-withheld a.end)

on_line :
    (a : Attempt) (o : Option Stop)
    → on_some (line_of (withhold_attempt a)) o ≡ on_some (line_of a) o
unfolding on_some
on_line a none = refl
on_line a (some stop) = ap some (line_of-withheld a stop)

lines-withheld : (l : List Attempt) → lines_of (map withhold_attempt l) ≡ lines_of l
unfolding lines_of
lines-withheld [] = refl
lines-withheld (a ∷ l) = rw (stop-withheld a, on_line a (attempt_stop_evidence a), lines-withheld l)

length-withheld : (l : List Attempt) → length (map withhold_attempt l) ≡ length l
length-withheld [] = refl
length-withheld (a ∷ l) = ap suc (length-withheld l)

last_active-withheld :
    (l : List Attempt) → is_last_active (map withhold_attempt l) ≡ is_last_active l
unfolding is_last_active withhold_attempt
last_active-withheld [] = refl
last_active-withheld (a ∷ l) = refl

stops-withheld : (l : List Attempt) → stop_blockers_of (map withhold_attempt l) ≡ stop_blockers_of l
unfolding stop_blockers_of
stops-withheld [] = refl
stops-withheld (a ∷ l) = ap blocker_of (unconfirmed-withheld a)

blockers-withheld :
    (d : Delivery) (stops : List Blocker)
    → blockers_of (without_content d) stops ≡ blockers_of d stops
unfolding blockers_of
blockers-withheld d stops = rw (
  has-on_some withhold_result d.result,
  has-on_some withhold_cancel d.cancel,
  last_active-withheld d.attempts,
  length-withheld d.attempts,
)

permission_with-withheld :
    (d : Delivery) (o : Option (List Blocker))
    → permission_with (without_content d) o ≡ permission_with d o
unfolding permission_with
permission_with-withheld d none = refl
permission_with-withheld d (some stops) = rw (blockers-withheld d stops)

permission-withheld :
    (d : Delivery) → new_effect_permission (without_content d) ≡ new_effect_permission d
unfolding new_effect_permission stop_blockers
permission-withheld d =
    rw (stops-withheld d.attempts) (permission_with-withheld d (stop_blockers_of d.attempts))

artifacts-withheld :
    (o : Option Recorded) → artifacts_of (on_some withhold_result o) ≡ artifacts_of o
unfolding artifacts_of on_some withhold_result
artifacts-withheld none = refl
artifacts-withheld (some r) = refl

module _ (effect : Option Effect) (viewer role : String) where
  unsigned_with-withheld :
      (d : Delivery) (lines : List AttemptLine) (p : Permission)
      → unsigned_with (without_content d) effect viewer role lines p
        ≡ unsigned_with d effect viewer role lines p
  unfolding unsigned_with
  unsigned_with-withheld d lines p = rw (artifacts-withheld d.result, length-withheld d.attempts)

  unsigned_of-withheld :
      (d : Delivery) (lines : Option (List AttemptLine)) (p : Option Permission)
      → unsigned_of (without_content d) effect viewer role lines p
        ≡ unsigned_of d effect viewer role lines p
  unfolding unsigned_of
  unsigned_of-withheld d none p = refl
  unsigned_of-withheld d (some lines) none = refl
  unsigned_of-withheld d (some lines) (some p) = ap some (unsigned_with-withheld d lines p)

  -- The Context Package of a delivery is that of the delivery without its content: it carries no note, no observation
  -- and no blocker of a review.
  pub build_context_package-without_content :
      (digest : Unsigned → String) (d : Delivery) (at : ℕ)
      → build_context_package digest (without_content d) effect viewer role at
        ≡ build_context_package digest d effect viewer role at
  unfolding build_context_package
  build_context_package-without_content digest d at = rw (
    lines-withheld d.attempts,
    permission-withheld d,
    unsigned_of-withheld d (lines_of d.attempts) (new_effect_permission d),
  )
