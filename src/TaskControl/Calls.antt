-- ===== src/TaskControl/Calls.antt =====
-- Sequences of calls of a TaskControl: each method as one constructor with its arguments, and the world
-- after a call, whether it returned or raised.
use universal_agent_middlewa.Prelude.{Option, List, [], ◌∷◌}
use universal_agent_middlewa.Prelude.PyValue.{PyValue}
use universal_agent_middlewa.TaskControl.Wire.{ResultDoc}
use universal_agent_middlewa.TaskControl.Port.{World, Env}
use universal_agent_middlewa.TaskControl.Requester.{DeliverArgs}
use universal_agent_middlewa.TaskControl.Requester
use universal_agent_middlewa.TaskControl.Inbox
use universal_agent_middlewa.TaskControl.Recipient

pub data Call : Type 0 where
  deliver : DeliverArgs → Call
  cancel : PyValue → PyValue → PyValue → Call
  inbox : PyValue → PyValue → Call
  start_attempt : PyValue → PyValue → PyValue → Call
  submit_result : PyValue → PyValue → PyValue → PyValue → Option ResultDoc → Call
  end_attempt : PyValue → PyValue → PyValue → PyValue → PyValue → PyValue → Call

unfoldable pub perform : Env → Call → World → World
perform env (deliver a) w = (Requester.deliver env a w).1
perform env (cancel who id reason) w = (Requester.cancel env who id reason w).1
perform env (inbox who limit) w = (Inbox.inbox who limit w).1
perform env (start_attempt who id lease) w = (Recipient.start_attempt env who id lease w).1
perform env (submit_result who id ref fence result) w =
    (Recipient.submit_result env who id ref fence result w).1
perform env (end_attempt who id ref fence outcome note) w =
    (Recipient.end_attempt env who id ref fence outcome note w).1

unfoldable pub perform_all : Env → List Call → World → World
perform_all env [] w = w
perform_all env (c ∷ calls) w = perform_all env calls (perform env c w)

-- A store in which nothing was written yet.
abbrev pub empty_world : World
empty_world = record {
  questions = 0;
  deliveries = [];
  by_contract = [];
  results = [];
  audit_log = [];
}
