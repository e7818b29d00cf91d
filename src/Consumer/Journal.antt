-- ===== src/Consumer/Journal.antt =====
-- The journal of consumer.py, and what it says about one delivery (`Ledger`). A record keeps the details that
-- the consumer reads back. Lists of records are in the order of the file.
use universal_agent_middlewa.Prelude.{
  ℕ, String, Bool, true, false, Option, none, some, List, [], ◌∷◌, str_eq, if◌then◌else◌,
}

pub data Phase : Type 0 where
  consumer_started consumer_stopping consumer_error policy_invalid inbox_truncated : Phase
  denied held blocked waiting_old_executor attempt_left_open : Phase
  attempt_intent intent_cleared attempt_started executor_started executor_ended : Phase
  stop_reconciled result_prepared result_submitted attempt_ended : Phase

-- What an adapter announces of the executor that it started.
pub record Handle : Type 0 where
  pub pgid : Option ℕ
  pub kind : Option String

pub record Identity : Type 0 where
  pub pid : ℕ
  pub command : String

-- binding.observed.stop_report; `processes_seen` holds the well-formed entries
pub record StopReport : Type 0 where
  pub observation : Option String
  pub coverage : Option String
  pub processes_seen : List Identity

pub record Record : Type 0 where
  pub delivery_id : Option String
  pub phase : Phase
  pub attempt_ref : Option String
  pub fence : ℕ
  pub job_dir : String
  pub handle : Option Handle
  pub stopped : Option Bool
  pub stop_report : Option StopReport
  pub code : String

pub record Ledger : Type 0 where
  pub intent : Option Record
  pub live : Option Record
  pub handle : Option Handle
  pub advisory : Option (Phase × String)
  pub ended : Option Record
  pub reconciled : Bool

abbrev pub empty_ledger : Ledger
empty_ledger = record {
  intent = none;
  live = none;
  handle = none;
  advisory = none;
  ended = none;
  reconciled = false;
}

unfoldable pub same_ref : Option String → Option String → Bool
same_ref none none = true
same_ref (some a) (some b) = str_eq a b
same_ref _ _ = false

-- ledger.live and record.get("attempt_ref") == ledger.live["attempt_ref"]
unfoldable pub is_of_live : Option Record → Record → Bool
unfolding same_ref
is_of_live none r = false
is_of_live (some live) r = same_ref r.attempt_ref live.attempt_ref

-- the branches of `_apply` on a record of the delivery
unfoldable pub apply_phase : Phase → Ledger → Record → Ledger
unfolding is_of_live
apply_phase attempt_intent l r = record l { intent = some r }
apply_phase intent_cleared l r = record l { intent = none }
apply_phase attempt_started l r = record l {
  live = some r;
  intent = none;
  handle = none;
  ended = none;
  reconciled = false;
}
apply_phase executor_started l r = if is_of_live l.live r then record l { handle = r.handle } else l
apply_phase executor_ended l r = if is_of_live l.live r then record l { ended = some r } else l
apply_phase stop_reconciled l r = if is_of_live l.live r then record l { reconciled = true } else l
apply_phase result_submitted l r = record l {
  live = none;
  handle = none;
  intent = none;
  ended = none;
  reconciled = false;
}
apply_phase attempt_ended l r = record l {
  live = none;
  handle = none;
  intent = none;
  ended = none;
  reconciled = false;
}
apply_phase denied l r = record l { advisory = some (denied, r.code) }
apply_phase held l r = record l { advisory = some (held, r.code) }
apply_phase blocked l r = record l { advisory = some (blocked, r.code) }
apply_phase waiting_old_executor l r = record l { advisory = some (waiting_old_executor, r.code) }
apply_phase attempt_left_open l r = record l { advisory = some (attempt_left_open, r.code) }
apply_phase _ l r = l

unfoldable pub is_about : String → Option String → Bool
is_about id none = false
is_about id (some other) = str_eq other id

-- `_apply`, for the ledger of one delivery
unfoldable pub apply : String → Ledger → Record → Ledger
apply id l r = if is_about id r.delivery_id then apply_phase r.phase l r else l

-- the records of a chunk one after the other, as `_refresh` applies them
unfoldable pub refresh : String → Ledger → List Record → Ledger
refresh id l [] = l
refresh id l (r ∷ records) = refresh id (apply id l r) records

-- `ledger`: what the whole file says
unfoldable pub ledger : String → List Record → Ledger
ledger id records = refresh id empty_ledger records
