-- ===== src/Consumer/Tests.antt =====
-- A delivery that the consumer of consumer.py starts, whose worker changes a file and whose result it submits; and
-- one whose executor was not shown to be gone.
use universal_agent_middlewa.Prelude.{◌∷◌, ◌≡◌, refl, false, none, some, [], length, arith}
use universal_agent_middlewa.Prelude.Dict.{get, put}
use universal_agent_middlewa.Consumer.Journal.{
  Record, Ledger, StopReport, attempt_started, executor_ended, is_about, is_of_live, same_ref,
  apply_phase, apply, refresh, ledger, empty_ledger,
}
use universal_agent_middlewa.Consumer.Rules.{
  is_set, differs, has_prefix, matches, match_from, match_rule,
}
use universal_agent_middlewa.Consumer.Port.{
  plain_record, back_off, ◌>>=◌, pure, ask, append, or_fail,
}
use universal_agent_middlewa.Consumer.Admit.{
  require, or_refuse, is_empty, text_of, knows_worker, outside_allowlist, check_rule_against,
  checked_cwd, not_held, admit, is_none,
}
use universal_agent_middlewa.Consumer.Compare.{
  same_state, is_baseline, is_absent, declares_no_change, add_artifact, then_rest,
  changed_artifacts,
}
use universal_agent_middlewa.Consumer.Stop.{
  without_end, says_stopped, with_end, stop_state_of, stop_state, of_state, is_stop_reconciled,
  is_text, says,
}
use universal_agent_middlewa.Consumer.Settle.{
  ref_of, rule_allowlist, item_of, ledger_of, call, after_call, run_one, verify, send, prepare,
  change_task, submit_unprepared, send_or_prepare, submit_for, submit, still_there, settle,
  finalize,
}
use universal_agent_middlewa.Consumer.Handle.{
  is_stopped_answer, report_answer, caught_by, catch, finalize_live, finalize_now, announce,
  run_attempt, ask_start, after_start, with_locks, try_start, start, handle_idle, handle_with,
  handle,
}
use universal_agent_middlewa.Consumer.Proofs.Steps.{Adds, Within}
use universal_agent_middlewa.Consumer.Proofs.Reports.{IsAllowed}
use universal_agent_middlewa.Consumer.Proofs.Handling.{
  IsAsked, IsOnlyReport, handle-Within, handle-no_second_start,
}
use universal_agent_middlewa.Consumer.Proofs.Stopping.{finalize-waits}
use universal_agent_middlewa.Consumer.Proofs.Unproven.{IsNotGone, never_observed, ended_running}
use universal_agent_middlewa.Consumer.Guard.{
  Pool, considered, job_ended, step, Reaches, no_event, then_event,
}
use universal_agent_middlewa.Consumer.Proofs.Pools.{IsWithinLimit, Reaches-IsWithinLimit}
use universal_agent_middlewa.Consumer.Reader.{
  follow, refresh_from, read_from, parse, complete, split_lines, found_in,
}
use universal_agent_middlewa.Consumer.Proofs.Reading.{fresh, follow-fresh}
use universal_agent_middlewa.Consumer.Proofs.Ledgers.{Waits, back_off-Waits}
use universal_agent_middlewa.Consumer.Fixtures.{the_env, the_item, first_world, intended_world}

-- The delivery is started, its command run once, and its result submitted.
started_and_submitted : length (handle the_env the_item first_world).1.calls ≡ 2
unfolding get put is_about is_of_live same_ref apply_phase apply refresh ledger is_set differs
    has_prefix matches match_from match_rule ◌>>=◌ pure ask append or_fail require or_refuse
    is_empty text_of knows_worker outside_allowlist check_rule_against checked_cwd not_held admit
    same_state is_baseline is_absent declares_no_change add_artifact then_rest changed_artifacts
    without_end says_stopped with_end stop_state_of stop_state of_state is_stop_reconciled ref_of
    rule_allowlist item_of ledger_of call after_call run_one verify send prepare change_task
    submit_unprepared send_or_prepare submit_for submit still_there settle finalize
    is_stopped_answer report_answer caught_by catch finalize_live finalize_now announce run_attempt
    ask_start after_start with_locks try_start start handle_idle handle_with handle
started_and_submitted = refl

handle-Within_example :
    Within
      (IsAsked the_env the_item first_world.journal)
      (IsAllowed the_env "dlv-1")
      first_world
      (handle the_env the_item first_world).1
handle-Within_example = handle-Within the_env the_item first_world

handle-no_second_start_example :
    Adds
      (IsOnlyReport the_env "dlv-1" intended_world.journal)
      []
      (handle the_env the_item intended_world).1.calls
unfolding is_about apply_phase apply refresh ledger is_none
handle-no_second_start_example = handle-no_second_start the_env the_item intended_world refl

abbrev unobserved : StopReport
unobserved = record { observation = some "UNAVAILABLE"; coverage = none; processes_seen = [] }

abbrev live_record : Record
live_record = record (plain_record "dlv-1" attempt_started) {
  attempt_ref = some "att-1";
  fence = 1;
  job_dir = "att-1";
}

abbrev end_record : Record
end_record = record (plain_record "dlv-1" executor_ended) {
  attempt_ref = some "att-1";
  stopped = some false;
  stop_report = some unobserved;
}

abbrev open_ledger : Ledger
open_ledger = record empty_ledger { live = some live_record; ended = some end_record }

never_observed_example : IsNotGone the_env open_ledger
unfolding says is_text
never_observed_example =
    never_observed (some unobserved) (ended_running end_record refl refl refl) refl

finalize-waits_example :
    ((finalize the_env "dlv-1" live_record open_ledger first_world).1.calls ≡ [])
    × ((finalize the_env "dlv-1" live_record open_ledger first_world).1.commands ≡ [])
finalize-waits_example =
    finalize-waits the_env "dlv-1" live_record open_ledger first_world never_observed_example

back_off-Waits_example : Waits the_env "dlv-1" first_world (back_off the_env "dlv-1" first_world).1
back_off-Waits_example = back_off-Waits the_env "dlv-1" first_world

abbrev empty_pool : Pool
empty_pool = record { inflight = []; waiting = [] }

-- The poll considers one delivery twice, another one, and the first one's thread ends.
abbrev some_events : Reaches 1 empty_pool (
    step 1 (considered 9 "dlv-2") (
      step 1
        (job_ended "dlv-1")
        (step 1 (considered 6 "dlv-1") (step 1 (considered 5 "dlv-1") empty_pool))))
some_events = then_event (considered 9 "dlv-2") (
    then_event (job_ended "dlv-1")
      (then_event (considered 6 "dlv-1") (then_event (considered 5 "dlv-1") no_event)))

Reaches-IsWithinLimit_example : IsWithinLimit 1 (
    step 1 (considered 9 "dlv-2") (
      step 1
        (job_ended "dlv-1")
        (step 1 (considered 6 "dlv-1") (step 1 (considered 5 "dlv-1") empty_pool))))
Reaches-IsWithinLimit_example =
    Reaches-IsWithinLimit some_events (record { one_each = refl; at_most = omega arith })

-- A line that is torn in the middle: one byte is a record, "\n" ends it.
follow-fresh_example :
    follow
      (λ line. some live_record)
      "dlv-1"
      (65 ∷ 10 ∷ 66 ∷ [])
      ((67 ∷ []) ∷ (10 ∷ 68 ∷ []) ∷ [])
      (fresh (λ line. some live_record) "dlv-1" (65 ∷ 10 ∷ 66 ∷ []))
    ≡ fresh (λ line. some live_record) "dlv-1" (65 ∷ 10 ∷ 66 ∷ 67 ∷ 10 ∷ 68 ∷ [])
follow-fresh_example =
    follow-fresh (λ line. some live_record) "dlv-1" (65 ∷ 10 ∷ 66 ∷ [])
      ((67 ∷ []) ∷ (10 ∷ 68 ∷ []) ∷ [])

two_records :
    (fresh (λ line. some live_record) "dlv-1" (65 ∷ 10 ∷ 66 ∷ 67 ∷ 10 ∷ 68 ∷ [])).count ≡ 2
unfolding refresh_from read_from parse complete split_lines found_in
two_records = refl
