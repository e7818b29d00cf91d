-- ===== src/Continuity/Validate.antt =====
-- The checks on the arguments of a version-2 operation: the validation part of task_continuity.py.
use universal_agent_middlewa.Prelude.{
  ℕ, String, Bool, true, false, ◌||◌, Option, none, some, List, [], ◌∷◌, any, ltb, length, str_eq,
  if◌then◌else◌, codes,
}
use universal_agent_middlewa.Prelude.PyValue.{PyValue, py_none, py_int, py_str}
use universal_agent_middlewa.Prelude.Sort.{sort, codes_before}
use universal_agent_middlewa.TaskControl.Model.{invalid_argument}
use universal_agent_middlewa.TaskControl.Result.{Result, ok, err, ◌>>=◌}
use universal_agent_middlewa.TaskControl.Validate.{
  full_match, principal_head, principal_char, key_head, key_char, text, validate_delivery_id,
}

-- _LABEL = ^[a-z0-9][a-z0-9._-]{1,63}$
unfoldable pub is_label : String → Bool
is_label s = full_match principal_head principal_char 1 63 (codes s)

-- _REGION = ^[A-Za-z0-9][A-Za-z0-9._:-]{0,63}$
unfoldable pub is_region : String → Bool
is_region s = full_match key_head key_char 0 63 (codes s)

unfoldable pub checked : (String → Bool) → PyValue → Result (Option String)
checked test (py_str s) = if test s then ok (some s) else err invalid_argument
checked test _ = err invalid_argument

-- `validate_label`
unfoldable pub validate_label : PyValue → Bool → Result (Option String)
validate_label py_none true = ok none
validate_label value optional = checked is_label value

-- `validate_region`
unfoldable pub validate_region : PyValue → Result (Option String)
validate_region py_none = ok none
validate_region value = checked is_region value

-- `validate_role`
unfoldable pub validate_role : PyValue → Result String
validate_role (py_str s) =
    if str_eq s "requester" || str_eq s "recipient" then ok s else err invalid_argument
validate_role _ = err invalid_argument

unfoldable pub positive : String → PyValue → Result (String × ℕ)
positive ref (py_int n) = if ltb n 1 then err invalid_argument else ok (ref, n)
positive ref _ = err invalid_argument

-- `validate_task`
unfoldable pub validate_task : PyValue → PyValue → Result (String × ℕ)
validate_task task_ref revision = text task_ref 200 true >>= λ ref. positive ref revision

-- What `continues` may be.
pub data Continues : Type 0 where
  not_given not_a_list : Continues
  given : List PyValue → Continues

abbrev pub max_continues : ℕ
max_continues = 8

unfoldable pub delivery_ids : List PyValue → Result (List String)
delivery_ids [] = ok []
delivery_ids (v ∷ values) =
    validate_delivery_id v >>= λ id. delivery_ids values >>= λ ids. ok (id ∷ ids)

-- len(set(ids)) != len(ids)
unfoldable pub repeats : List String → Bool
repeats [] = false
repeats (id ∷ ids) = any (str_eq id) ids || repeats ids

abbrev pub text_before : String → String → Bool
text_before a b = codes_before (codes a) (codes b)

unfoldable pub sorted_once : List String → Result (List String)
sorted_once ids = if repeats ids then err invalid_argument else ok (sort text_before ids)

-- `validate_continues`
unfoldable pub validate_continues : Continues → Result (List String)
validate_continues not_given = ok []
validate_continues not_a_list = err invalid_argument
validate_continues (given values) =
    if ltb max_continues (length values)
    then err invalid_argument
    else delivery_ids values >>= λ ids. sorted_once ids
