-- ===== src/TaskControl/Validate.antt =====
-- Argument validation of task_control.py. The patterns are full matches; a text that is too long
-- or has a character outside its class is `invalid_argument`.
use universal_agent_middlewa.Prelude.{
  ℕ, ◌+◌, String, ◌≡◌, refl, Bool, true, false, ◌&&◌, ◌||◌, Option, none, some, List, [], ◌∷◌, ltb,
  leb, ◌==◌, if◌then◌else◌, str_eq, not, codes, length, all, any, text_to, drop,
}
use universal_agent_middlewa.Prelude.PyValue.{PyValue, py_none, py_int, py_str}
use universal_agent_middlewa.TaskControl.Model.{
  Outcome, failed_before_effect, stopped, failed, invalid_argument, min_lease_seconds,
  max_lease_seconds, max_inbox,
}
use universal_agent_middlewa.TaskControl.Result.{Result, ok, err, ◌>>=◌}

unfoldable pub is_lower : ℕ → Bool
is_lower c = leb b'a' c && leb c b'z'

unfoldable pub is_upper : ℕ → Bool
is_upper c = leb b'A' c && leb c b'Z'

unfoldable pub is_digit : ℕ → Bool
is_digit c = leb b'0' c && leb c b'9'

-- [a-z0-9]
unfoldable pub principal_head : ℕ → Bool
unfolding is_lower is_digit
principal_head c = is_lower c || is_digit c

-- [a-z0-9._-]
unfoldable pub principal_char : ℕ → Bool
unfolding principal_head
principal_char c = principal_head c || c == b'.' || c == b'_' || c == b'-'

-- [A-Za-z0-9]
unfoldable pub key_head : ℕ → Bool
unfolding principal_head is_upper
key_head c = principal_head c || is_upper c

-- [A-Za-z0-9._:-]
unfoldable pub key_char : ℕ → Bool
unfolding key_head
key_char c = key_head c || c == b'.' || c == b'_' || c == b':' || c == b'-'

-- [0-9a-f]
hex_char : ℕ → Bool
unfolding is_digit
hex_char c = is_digit c || (leb b'a' c && leb c b'f')

-- One character of class `head`, then `low` to `high` of class `rest`.
unfoldable pub full_match : (ℕ → Bool) → (ℕ → Bool) → ℕ → ℕ → List ℕ → Bool
full_match head rest low high [] = false
full_match head rest low high (c ∷ cs) =
    head c && all rest cs && leb low (length cs) && leb (length cs) high

-- _PRINCIPAL = ^[a-z0-9][a-z0-9._-]{1,63}$
unfoldable pub is_principal : String → Bool
unfolding full_match principal_char
is_principal s = full_match principal_head principal_char 1 63 (codes s)

-- _IDEMPOTENCY_KEY = ^[A-Za-z0-9][A-Za-z0-9._:-]{7,127}$
unfoldable pub is_idempotency_key : String → Bool
unfolding full_match key_char
is_idempotency_key s = full_match key_head key_char 7 127 (codes s)

-- the rest of `_DELIVERY_ID` and of the head of `_ATTEMPT_REF`: 24 hexadecimal digits
is_hex24 : List ℕ → Bool
unfolding hex_char
is_hex24 cs = all hex_char cs && length cs == 24

-- _DELIVERY_ID = ^dlv-[0-9a-f]{24}$
unfoldable pub is_delivery_id : String → Bool
unfolding is_hex24
is_delivery_id s = str_eq (text_to 4 s) "dlv-" && is_hex24 (drop 4 (codes s))

-- \.([0-9]{1,6}) after the 24 digits of `_ATTEMPT_REF`
is_fence_suffix : List ℕ → Bool
unfolding is_digit
is_fence_suffix [] = false
is_fence_suffix (c ∷ cs) = c == b'.' && all is_digit cs && leb 1 (length cs) && leb (length cs) 6

take_codes : ℕ → List ℕ → List ℕ
take_codes n cs = universal_agent_middlewa.Prelude.take n cs

-- _ATTEMPT_REF = ^att-([0-9a-f]{24})\.([0-9]{1,6})$
unfoldable pub is_attempt_ref : String → Bool
unfolding is_hex24 is_fence_suffix take_codes
is_attempt_ref s =
    str_eq (text_to 4 s) "att-"
    && is_hex24 (take_codes 24 (drop 4 (codes s)))
    && is_fence_suffix (drop 28 (codes s))

-- what `_attempt_ref`, `_delivery_id` and `validate_principal` share: a text that matches
unfoldable pub matching : (String → Bool) → PyValue → Result String
matching test (py_str s) = if test s then ok s else err invalid_argument
matching test _ = err invalid_argument

unfoldable pub validate_principal : PyValue → Result String
unfolding matching
validate_principal v = matching is_principal v

unfoldable pub validate_idempotency_key : PyValue → Result String
unfolding matching
validate_idempotency_key v = matching is_idempotency_key v

unfoldable pub validate_delivery_id : PyValue → Result String
unfolding matching
validate_delivery_id v = matching is_delivery_id v

unfoldable pub validate_attempt_ref : PyValue → Result String
unfolding matching
validate_attempt_ref v = matching is_attempt_ref v

-- what `str.strip` drops: the whitespace characters below U+0100, and the other Unicode spaces
is_space : ℕ → Bool
is_space c =
    (leb 9 c && leb c 13)
    || (leb 28 c && leb c 32)
    || c == 0x85
    || c == 0xA0
    || c == 0x1680
    || (leb 0x2000 c && leb c 0x200A)
    || c == 0x2028
    || c == 0x2029
    || c == 0x202F
    || c == 0x205F
    || c == 0x3000

-- `_text`: required texts have a character that is not blank
unfoldable pub text : PyValue → ℕ → Bool → Result String
unfolding is_space
text (py_str s) limit required =
    if (required && all is_space (codes s)) || ltb limit (length (codes s))
    then err invalid_argument
    else ok s
text _ limit required = err invalid_argument

-- the second half of `_task_binding`
revision_of : String → PyValue → Result (Option String × Option ℕ)
revision_of ref (py_int n) = ok (some ref, some n)
revision_of ref _ = err invalid_argument

unfoldable pub task_binding : PyValue → PyValue → Result (Option String × Option ℕ)
unfolding revision_of text
task_binding py_none py_none = ok (none, none)
task_binding py_none _ = err invalid_argument
task_binding ref revision = text ref 200 true >>= λ r. revision_of r revision

-- `_fence`
unfoldable pub validate_fence : PyValue → Result ℕ
validate_fence (py_int n) = if ltb n 1 then err invalid_argument else ok n
validate_fence _ = err invalid_argument

-- `_lease`, and the test on the `limit` of `inbox`
in_range : ℕ → ℕ → PyValue → Result ℕ
in_range low high (py_int n) = if leb low n && leb n high then ok n else err invalid_argument
in_range low high _ = err invalid_argument

unfoldable pub validate_lease : PyValue → Result ℕ
unfolding in_range
validate_lease v = in_range min_lease_seconds max_lease_seconds v

unfoldable pub validate_limit : PyValue → Result ℕ
unfolding in_range
validate_limit v = in_range 1 max_inbox v

-- outcome in REPORTED_OUTCOMES
unfoldable pub validate_outcome : PyValue → Result Outcome
validate_outcome (py_str s) =
    if str_eq s "FAILED_BEFORE_EFFECT"
    then ok failed_before_effect
    else if str_eq s "STOPPED"
    then ok stopped
    else if str_eq s "FAILED"
    then ok failed
    else err invalid_argument
validate_outcome _ = err invalid_argument

-- [A-Z0-9_]
reason_char : ℕ → Bool
unfolding is_upper is_digit
reason_char c = is_upper c || is_digit c || c == b'_'

-- _REASON_CODE = ^[A-Z][A-Z0-9_]{0,63}$
is_reason_code : String → Bool
unfolding full_match reason_char
is_reason_code s = full_match is_upper reason_char 0 63 (codes s)

-- The reason of a verifier is kept only when it is a code.
unfoldable pub reason_code : PyValue → String
unfolding is_reason_code
reason_code (py_str s) = if is_reason_code s then s else "UNSPECIFIED"
reason_code _ = "UNSPECIFIED"
