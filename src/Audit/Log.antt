-- ===== src/Audit/Log.antt =====
-- HashChainedAuditLog of audit.py: the log object, the file that it appends to, `append` and `verify`. The read
-- of the last line in blocks is the newest line here.
use universal_agent_middlewa.Prelude.{
  ℕ, zero, suc, ◌+◌, String, Bool, true, false, not, ◌||◌, ◌&&◌, Option, none, some, List, [], ◌∷◌,
  ltb, ◌==◌, length, codes, text_to, if◌then◌else◌, str_eq,
}
use universal_agent_middlewa.Audit.Chain.{
  JsonValue, json_null, json_bool, json_int, json_negative, json_float, json_str, json_nested,
  Object, Codec, Line, Failure, Verdict, sound, broken, without_hash, version_of, verify_stream,
  genesis,
}

pub data AuditError : Type 0 where
  frozen replaced_or_truncated migration_required truncated_tail invalid_tail short_write :
      AuditError
  chain_is_broken : Failure → AuditError
  -- an exception of another class: a tail without the fields that are read, a record that `json` refuses,
  -- a destination that exists, a missing receipt, another digest
  other_exception : AuditError

-- The fields of the log object; `path` is the file, and `has_freeze_file` tells whether a latch is watched.
pub record Log : Type 0 where
  pub identity : Option ℕ
  pub size : ℕ
  pub writer_pid : ℕ
  pub writer_instance : String
  pub runtime_release : String
  pub has_freeze_file : Bool

-- (st_dev, st_ino) and the content.
pub record File : Type 0 where
  pub identity : ℕ
  pub lines : List Line

-- What the operating system, the clock and uuid answer during one `append`.
pub record System : Type 0 where
  pub latch_exists : Bool
  pub pid : ℕ
  pub timestamp : String
  pub new_instance : String
  pub new_chain : String
  pub new_request : String
  -- `some n` if `os.write` wrote n bytes only
  pub torn : Option ℕ

pub record Entry : Type 0 where
  pub action : String
  pub workspace_id : Option String
  pub outcome : String
  pub details : Option JsonValue
  pub session_id : Option String
  pub request_id : Option String

pub data Answer : Type 0 where
  appended : Object → Answer
  refused : AuditError → Answer

pub data Tail : Type 0 where
  no_tail : Tail
  tail : Object → Tail
  bad_tail : AuditError → Tail

-- st_size
unfoldable pub size_of : List Line → ℕ
size_of [] = 0
size_of (l ∷ older) = size_of older + length (codes l.text) + (if l.ended then 1 else 0)

-- `value or default` for an optional text, which may be empty
unfoldable pub or_else : Option String → String → String
or_else none otherwise = otherwise
or_else (some s) otherwise = if str_eq s "" then otherwise else s

unfoldable pub or_null : Option String → JsonValue
or_null none = json_null
or_null (some s) = json_str s

-- details or {}
unfoldable pub or_empty : Option JsonValue → JsonValue
or_empty none = json_nested "{}"
or_empty (some v) = v

-- {**o, key: v}
unfoldable pub set_field : Object → String → JsonValue → Object
set_field o key v k = if str_eq k key then some v else o k

-- self._identity is not None and (identity != self._identity or stat.st_size < self._size)
unfoldable pub was_replaced : Log → File → Bool
unfolding size_of
was_replaced log f = elim log.identity [
  | none ↦ false
  | some i ↦ not (f.identity == i) || ltb (size_of f.lines) log.size
]

-- what the first `append` of a process asks of the whole file
unfoldable pub refuses_chain : Verdict → Option AuditError
refuses_chain (broken f p) = some (chain_is_broken f)
refuses_chain (sound p) = elim p.version [
  | none ↦ none
  | some v ↦ if v == 2 then none else some migration_required
]

-- writer_instance_id
unfoldable pub current_writer : Log → System → Log
current_writer log os =
    if log.writer_pid == os.pid
    then log
    else record log { writer_pid = os.pid; writer_instance = os.new_instance }

module _ (codec : Codec) where
  unfoldable pub tail_digest : Object → String → Option String → Tail
  tail_digest o claimed none = bad_tail invalid_tail
  tail_digest o claimed (some text) =
      if str_eq (codec.sha256_hex text) claimed
      then elim (version_of codec (o "schema_version")) [
        | none ↦ bad_tail migration_required
        | some v ↦ if v == 2 then tail o else bad_tail migration_required
      ]
      else bad_tail invalid_tail

  unfoldable pub tail_hash : Object → Option JsonValue → Tail
  unfolding tail_digest
  tail_hash o (some (json_str claimed)) = tail_digest o claimed (codec.canonical (without_hash o))
  tail_hash o _ = bad_tail invalid_tail

  unfoldable pub tail_object : Option Object → Tail
  unfolding tail_hash
  tail_object none = bad_tail invalid_tail
  tail_object (some o) = tail_hash o (o "record_hash")

  -- `_tail`
  unfoldable pub tail_of : List Line → Tail
  unfolding tail_object
  tail_of [] = no_tail
  tail_of (l ∷ older) =
      if l.ended then tail_object (codec.loads l.text) else bad_tail truncated_tail

  -- tail["sequence"] + 1; `none` is an exception
  unfoldable pub next_sequence : Option JsonValue → Option JsonValue
  next_sequence (some (json_int n)) = some (json_int (suc n))
  next_sequence (some (json_negative zero)) = some (json_int 0)
  next_sequence (some (json_negative (suc n))) = some (json_negative n)
  next_sequence (some (json_bool true)) = some (json_int 2)
  next_sequence (some (json_bool false)) = some (json_int 1)
  next_sequence (some (json_float t)) = some (json_float (codec.float_plus_one t))
  next_sequence _ = none

  -- the fields of a record that link it to the one before
  unfoldable pub links : Tail → System → Option (JsonValue × JsonValue × JsonValue)
  unfolding next_sequence
  links no_tail os = some (json_str os.new_chain, json_int 1, json_str "GENESIS")
  links (bad_tail e) os = none
  links (tail o) os = elim (o "chain_id") [
    | none ↦ none
    | some c ↦ elim (next_sequence (o "sequence")) [
      | none ↦ none
      | some n ↦ elim (o "record_hash") [ none ↦ none | some h ↦ some (c, n, h) ]
    ]
  ]

  -- `record` in `append`
  unfoldable pub record_of : Log → System → Entry → JsonValue × JsonValue × JsonValue → Object
  unfolding or_else or_null or_empty
  record_of log os e (c, n, h) key =
      if str_eq key "schema_version"
      then some (json_int 2)
      else if str_eq key "chain_id"
      then some c
      else if str_eq key "sequence"
      then some n
      else if str_eq key "timestamp"
      then some (json_str os.timestamp)
      else if str_eq key "writer_pid"
      then some (json_int os.pid)
      else if str_eq key "writer_instance_id"
      then some (json_str log.writer_instance)
      else if str_eq key "session_id"
      then some (json_str (or_else e.session_id log.writer_instance))
      else if str_eq key "request_id"
      then some (json_str (or_else e.request_id os.new_request))
      else if str_eq key "runtime_release"
      then some (json_str log.runtime_release)
      else if str_eq key "action"
      then some (json_str e.action)
      else if str_eq key "workspace_id"
      then some (or_null e.workspace_id)
      else if str_eq key "outcome"
      then some (json_str e.outcome)
      else if str_eq key "details"
      then some (or_empty e.details)
      else if str_eq key "previous_hash"
      then some h
      else none

  -- os.write, and what follows it
  unfoldable pub write_line : Log → File → Object → String → Option ℕ → Answer × Log × File
  unfolding size_of
  write_line log f stored bytes none =
      let lines = record { text = bytes; ended = true } ∷ f.lines in
      (
        appended stored,
        record log { identity = some f.identity; size = size_of lines },
        record f { lines = lines },
      )
  write_line log f stored bytes (some n) = (
    refused short_write,
    log,
    if n == 0
        then f
        else record f { lines = record { text = text_to n bytes; ended = false } ∷ f.lines },
  )

  unfoldable pub write_stored : Log → File → System → Object → Option String → Answer × Log × File
  unfolding write_line
  write_stored log f os stored none = (refused other_exception, log, f)
  write_stored log f os stored (some bytes) = write_line log f stored bytes os.torn

  unfoldable pub write_hashed : Log → File → System → Object → Option String → Answer × Log × File
  unfolding write_stored set_field
  write_hashed log f os r none = (refused other_exception, log, f)
  write_hashed log f os r (some text) =
      let stored = set_field r "record_hash" (json_str (codec.sha256_hex text)) in
      write_stored log f os stored (codec.canonical stored)

  unfoldable pub write_record : Log → File → System → Object → Answer × Log × File
  unfolding write_hashed
  write_record log f os r = write_hashed log f os r (codec.canonical r)

  unfoldable pub write_linked :
      Log → File → System → Entry → Option (JsonValue × JsonValue × JsonValue) → Answer × Log × File
  unfolding write_record record_of
  write_linked log f os e none = (refused other_exception, log, f)
  write_linked log f os e (some l) = write_record log f os (record_of log os e l)

  unfoldable pub append_after : Log → File → System → Entry → Tail → Answer × Log × File
  unfolding links current_writer write_linked
  append_after log f os e (bad_tail error) = (refused error, log, f)
  append_after log f os e t = write_linked (current_writer log os) f os e (links t os)

  -- the whole file is checked before the first append of a process
  unfoldable pub first_check : Log → File → Option AuditError
  unfolding refuses_chain
  first_check log f = elim log.identity [
    | none ↦ refuses_chain (verify_stream codec f.lines)
    | some i ↦ none
  ]

  unfoldable pub append_checked :
      Log → File → System → Entry → Option AuditError → Answer × Log × File
  unfolding append_after
  append_checked log f os e (some error) = (refused error, log, f)
  append_checked log f os e none = append_after log f os e (tail_of f.lines)

  -- `append`
  unfoldable pub append : Log → File → System → Entry → Answer × Log × File
  unfolding append_checked first_check was_replaced
  append log f os e =
      if log.has_freeze_file && os.latch_exists
      then (refused frozen, log, f)
      else if was_replaced log f
      then (refused replaced_or_truncated, log, f)
      else append_checked log f os e (first_check log f)

  -- `verify`: a missing file is a chain without records
  unfoldable pub verify : Option File → Verdict
  verify none = sound genesis
  verify (some f) = verify_stream codec f.lines
