-- ===== src/Audit/Tests.antt =====
-- Tests of the model of audit.py with small stand-ins for json and hashlib, and the theorems on them.
use universal_agent_middlewa.Prelude.{
  ◌≡◌, ◌⊎◌, refl, sym, ◌∙◌, String, true, false, Option, none, some, [], ◌∷◌, map,
}
use universal_agent_middlewa.Audit.Chain.{
  JsonValue, json_null, json_bool, json_int, json_negative, json_float, json_str, json_nested,
  Object, Codec, Line, Progress, sound, genesis, verify_stream, check_line, check_object,
  check_hash, without_hash, previous_is, check_digest, version_of, check_version, check_sequence,
  check_chain, and_then,
}
use universal_agent_middlewa.Audit.Log.{
  Log, File, System, Entry, Answer, appended, refused, frozen, append, set_field, record_of,
  refuses_chain,
}
use universal_agent_middlewa.Audit.Log
use universal_agent_middlewa.Audit.Proofs.Append.{GoesOn, append-GoesOn}
use universal_agent_middlewa.Audit.Proofs.Binding.{
  head_hash_binds, hashed_text, Collision, TellsPrevious,
}

abbrev digest : String
digest = "0123456789abcdef0123456789abcdef0123456789abcdef0123456789abcdef"

-- A canonical form that keeps the `previous_hash` only.
abbrev previous_text : Option JsonValue → Option String
previous_text (some (json_str s)) = some s
previous_text _ = none

abbrev writing_codec : Codec
writing_codec = record {
  loads = λ t. none;
  canonical = λ o. previous_text (o "previous_hash");
  sha256_hex = λ t. digest;
  float_nat = λ t. none;
  float_plus_one = λ t. t;
}

abbrev log : Log
log = record {
  identity = none;
  size = 0;
  writer_pid = 7;
  writer_instance = "writer";
  runtime_release = "v1";
  has_freeze_file = true;
}

abbrev os : System
os = record {
  latch_exists = false;
  pid = 7;
  timestamp = "now";
  new_instance = "other";
  new_chain = "chain";
  new_request = "request";
  torn = none;
}

abbrev entry : Entry
entry = record {
  action = "read_file";
  workspace_id = some "ws";
  outcome = "PASS";
  details = none;
  session_id = none;
  request_id = none;
}

abbrev stored : Object
stored =
    set_field
      (record_of writing_codec log os entry (json_str "chain", json_int 1, json_str "GENESIS"))
      "record_hash" (json_str digest)

-- It reads each line as the first record.
abbrev codec : Codec
codec = record writing_codec { loads = λ t. some stored }

abbrev empty_file : File
empty_file = record { identity = 3; lines = [] }

abbrev first_line : Line
first_line = record { text = "GENESIS"; ended = true }

abbrev after_first : Progress
after_first = record { previous = digest; count = 1; chain_id = some "chain"; version = some 2 }

append_run : (append codec log empty_file os entry).0 ≡ appended stored
unfolding append Log.append_checked Log.append_after Log.was_replaced Log.first_check verify_stream
    Log.tail_of Log.links Log.current_writer Log.write_linked Log.write_record Log.write_hashed
    Log.write_stored Log.write_line record_of set_field
append_run = refl

frozen_run :
    (append codec log empty_file (record os { latch_exists = true }) entry).0 ≡ refused frozen
unfolding append
frozen_run = refl

loaded : (b : String) → codec.canonical stored ≡ some b → codec.loads b ≡ some stored
loaded b h = refl

empty_checked : verify_stream codec [] ≡ sound genesis
unfolding verify_stream
empty_checked = refl

empty_accepted : refuses_chain (sound genesis) ≡ none
unfolding refuses_chain
empty_accepted = refl

append-GoesOn_example : GoesOn codec genesis stored (append codec log empty_file os entry).2.lines
append-GoesOn_example =
    append-GoesOn codec (λ t. refl) empty_file os log entry genesis stored loaded refl empty_checked
      empty_accepted append_run

known : (v : Option JsonValue) (t : String) → previous_text v ≡ some t → v ≡ some (json_str t)
known (some (json_str s)) t h = cc
known none t h = cc
known (some json_null) t h = cc
known (some (json_bool b)) t h = cc
known (some (json_int n)) t h = cc
known (some (json_negative n)) t h = cc
known (some (json_float s)) t h = cc
known (some (json_nested s)) t h = cc

codec-TellsPrevious : TellsPrevious codec
codec-TellsPrevious a b t at_a at_b =
    known (a "previous_hash") t at_a ∙ sym (known (b "previous_hash") t at_b)

checked_run : verify_stream codec (first_line ∷ []) ≡ sound after_first
unfolding verify_stream and_then check_line check_object check_hash without_hash previous_is
    check_digest version_of check_version check_sequence check_chain record_of set_field
checked_run = refl

head_hash_binds_example :
    (map (hashed_text codec) (first_line ∷ []) ≡ map (hashed_text codec) (first_line ∷ []))
    ⊎ Collision codec
head_hash_binds_example =
    head_hash_binds codec codec-TellsPrevious (first_line ∷ []) (first_line ∷ []) after_first
      after_first checked_run checked_run refl refl
