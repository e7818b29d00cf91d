-- ===== src/Consumer/Port/Messages.antt =====
-- What the consumer of consumer.py is told, and what it asks of the control object: contracts, views, outcomes,
-- results and calls.
use universal_agent_middlewa.Prelude.{ℕ, String, Bool, Option, List}
use universal_agent_middlewa.Prelude.Dict.{Dict}
use universal_agent_middlewa.Consumer.Journal.{Handle, StopReport}

pub data FileState : Type 0 where
  absent : FileState
  -- sha256 and size_bytes
  present : String → ℕ → FileState

pub record Contract : Type 0 where
  pub contract_id : String
  pub contract_digest : String
  pub workspace_id : String
  pub objective : String
  pub expected_changes : List String
  pub authoritative_paths : List String
  pub allowed_change_paths : List String
  pub verification_commands : List String
  pub baseline_kind : String
  pub baseline_files : Dict FileState

pub record AttemptView : Type 0 where
  pub attempt_ref : String
  pub fence : ℕ
  pub executor : String
  pub is_active : Bool

-- The view of a delivery, as `get` answers it; the attempts are in their order.
pub record View : Type 0 where
  pub content_withheld : Bool
  pub contract : Option Contract
  pub attempts : List AttemptView
  pub owner_ref : Option String
  pub business_task_ref : Option String
  pub contract_id : Option String
  pub task_revision : ℕ

pub record Adapter : Type 0 where
  pub needs_session : Bool
  -- `known_worker`, if the adapter has one
  pub known_worker : Option (String → Bool)

-- The outcome file of a job, when it is one for this delivery and attempt.
pub record Outcome : Type 0 where
  pub is_done : Bool
  pub before_effect : Bool
  pub note : String
  pub unresolved_risks : List String

-- What `adapter.run` did: whether it announced an executor, and what it returned; `none` is an exception.
pub record RunAnswer : Type 0 where
  pub announced : Option Handle
  pub returned : Option (Bool × Option StopReport)

pub record Receipt : Type 0 where
  pub command : String
  pub exit_code : ℕ
  pub evidence : String

pub data ResultKind : Type 0 where
  no_change : ResultKind
  document_artifact : List (String × FileState) → ResultKind

-- A `uam-result-v2` payload, without the texts that say what was compared.
pub record Payload : Type 0 where
  pub result_id : String
  pub attempt_ref : String
  pub contract_id : String
  pub contract_digest : String
  pub workspace_instance : String
  pub executor : String
  pub receipts : List Receipt
  pub unresolved_risks : List String
  pub kind : ResultKind

pub data StartAnswer : Type 0 where
  started : AttemptView → StartAnswer
  start_refused : String → StartAnswer
  start_raised : StartAnswer

-- `end_attempt` and `submit_result`: an answer, a TaskControlError, or another exception
pub data CallAnswer : Type 0 where
  answered : CallAnswer
  call_refused : String → CallAnswer
  call_raised : CallAnswer

pub data UamCall : Type 0 where
  called_start : String → ℕ → UamCall
  -- delivery, attempt, fence, reported outcome, note
  called_end : String → String → ℕ → String → String → UamCall
  called_submit : String → String → ℕ → Payload → UamCall
