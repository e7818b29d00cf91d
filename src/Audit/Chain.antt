-- ===== src/Audit/Chain.antt =====
-- The records of audit.py and the check of a whole file (`_verify_stream`). A text stands for bytes,
-- one character for each. JSON objects are functions from keys; json, float and hashlib answer from
-- outside. The lines of a file are kept newest first.
use universal_agent_middlewa.Prelude.{
  ℕ, suc, String, Bool, true, false, not, ◌||◌, ◌&&◌, Option, none, some, List, [], ◌∷◌, ltb, ◌==◌,
  length, codes, if◌then◌else◌, str_eq,
}

-- What `json.loads` returns: a number with a decimal point by its text, an array or object inside a
-- record by its text.
pub data JsonValue : Type 0 where
  json_null : JsonValue
  json_bool : Bool → JsonValue
  -- `json_negative n` is the integer -(n + 1)
  json_int json_negative : ℕ → JsonValue
  json_float json_str json_nested : String → JsonValue

abbrev pub Object : Type 0
Object = String → Option JsonValue

-- The libraries that audit.py calls.
pub record Codec : Type 0 where
  -- `json.loads` of a line, if it is an object; `none` is an exception, or another value
  pub loads : String → Option Object
  -- `_canonical`; `none` is a ValueError or TypeError
  pub canonical : Object → Option String
  -- hashlib.sha256(...).hexdigest()
  pub sha256_hex : String → String
  -- the natural number that a float equals
  pub float_nat : String → Option ℕ
  -- float + 1
  pub float_plus_one : String → String

-- A line of the file, without the newline that ends it.
pub record Line : Type 0 where
  pub text : String
  pub ended : Bool

pub data Failure : Type 0 where
  truncated_record malformed_json missing_hash broken_previous_hash : Failure
  hash_mismatch schema_mismatch sequence_gap chain_id_mismatch : Failure

-- The variables of the loop of `_verify_stream`.
pub record Progress : Type 0 where
  pub previous : String
  pub count : ℕ
  pub chain_id : Option String
  pub version : Option ℕ

pub data Verdict : Type 0 where
  sound : Progress → Verdict
  -- the failure, and the variables before the line that has it
  broken : Failure → Progress → Verdict

-- stored.pop("record_hash")
unfoldable pub without_hash : Object → Object
without_hash o key = if str_eq key "record_hash" then none else o key

-- stored.get("previous_hash") != previous
unfoldable pub previous_is : String → Option JsonValue → Bool
previous_is previous (some (json_str s)) = str_eq s previous
previous_is previous _ = false

unfoldable pub same_version : Option ℕ → ℕ → Bool
same_version none v = false
same_version (some u) v = u == v

unfoldable pub same_chain : Option String → String → Bool
same_chain none c = false
same_chain (some d) c = str_eq d c

abbrev pub genesis : Progress
genesis = record { previous = "GENESIS"; count = 0; chain_id = none; version = none }

-- version, previous, count = current_version, claimed, count + 1
unfoldable pub advance : Progress → String → ℕ → Option String → Progress
advance p claimed v c = record {
  previous = claimed;
  count = suc p.count;
  chain_id = c;
  version = some v;
}

unfoldable pub check_chain : Progress → String → Option JsonValue → Verdict
unfolding same_chain advance
check_chain p claimed (some (json_str c)) =
    if str_eq c "" || (ltb 0 p.count && not (same_chain p.chain_id c))
    then broken chain_id_mismatch p
    else sound (advance p claimed 2 (some c))
check_chain p claimed _ = broken chain_id_mismatch p

unfoldable pub check_sequence : Progress → String → Option JsonValue → Option JsonValue → Verdict
unfolding check_chain
check_sequence p claimed (some (json_int n)) chain =
    if n == suc p.count then check_chain p claimed chain else broken sequence_gap p
check_sequence p claimed _ chain = broken sequence_gap p

module _ (codec : Codec) where
  -- stored.get("schema_version", 1), as a number: `==` takes True for 1 and 2.0 for 2
  unfoldable pub version_of : Option JsonValue → Option ℕ
  version_of none = some 1
  version_of (some (json_int n)) = some n
  version_of (some (json_bool true)) = some 1
  version_of (some (json_bool false)) = some 0
  version_of (some (json_float t)) = codec.float_nat t
  version_of (some _) = none

  unfoldable pub check_version : Progress → Object → String → Option ℕ → Verdict
  unfolding check_sequence same_version
  check_version p body claimed none = broken schema_mismatch p
  check_version p body claimed (some v) =
      if not (v == 1 || v == 2) || (ltb 0 p.count && not (same_version p.version v))
      then broken schema_mismatch p
      else if v == 2
      then check_sequence p claimed (body "sequence") (body "chain_id")
      else sound (advance p claimed v p.chain_id)

  unfoldable pub check_digest : Progress → Object → String → Option String → Verdict
  unfolding check_version version_of
  check_digest p body claimed none = broken malformed_json p
  check_digest p body claimed (some text) =
      if str_eq (codec.sha256_hex text) claimed
      then check_version p body claimed (version_of (body "schema_version"))
      else broken hash_mismatch p

  unfoldable pub check_hash : Progress → Object → Option JsonValue → Verdict
  unfolding check_digest previous_is
  check_hash p body (some (json_str claimed)) =
      if not (length (codes claimed) == 64)
      then broken missing_hash p
      else if previous_is p.previous (body "previous_hash")
      then check_digest p body claimed (codec.canonical body)
      else broken broken_previous_hash p
  check_hash p body _ = broken missing_hash p

  unfoldable pub check_object : Progress → Option Object → Verdict
  unfolding check_hash
  check_object p none = broken malformed_json p
  check_object p (some o) = check_hash p (without_hash o) (o "record_hash")

  -- the body of the loop of `_verify_stream`
  unfoldable pub check_line : Progress → Line → Verdict
  unfolding check_object
  check_line p l =
      if l.ended then check_object p (codec.loads l.text) else broken truncated_record p

  unfoldable pub and_then : Line → Verdict → Verdict
  and_then l (broken f p) = broken f p
  and_then l (sound p) = check_line p l

  -- `_verify_stream`: the first line that fails ends it
  unfoldable pub verify_stream : List Line → Verdict
  unfolding and_then
  verify_stream [] = sound genesis
  verify_stream (l ∷ older) = and_then l (verify_stream older)
