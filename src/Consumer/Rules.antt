-- ===== src/Consumer/Rules.antt =====
-- The policy of consumer.py: rules, their selectors, and which rule governs a delivery.
use universal_agent_middlewa.Prelude.{
  ℕ, suc, ◌+◌, String, Bool, true, false, not, ◌&&◌, ◌||◌, Option, none, some, List, [], ◌∷◌, ◌*◌,
  ltb, leb, str_eq, if◌then◌else◌, text_to, length, codes,
}

-- A refusal's code, its phase is in the record of the journal; a number of seconds is in microseconds.
pub record Rule : Type 0 where
  pub adapter : String
  pub cwd : Option String
  pub worker : Option String
  pub session : Option String
  pub lease_seconds : ℕ
  pub max_micros : ℕ
  pub verification_allowlist : List String
  pub owner_ref : Option String
  pub business_task_ref : Option String
  pub business_task_ref_prefix : Option String
  pub contract_id : Option String

-- The fields of an inbox item, or of a view, that rules and the consumer read.
pub record Item : Type 0 where
  pub delivery_id : String
  pub is_continuity : Bool
  pub is_attempt_active : Bool
  pub owner_ref : Option String
  pub business_task_ref : Option String
  pub contract_id : Option String

-- a selector that is set and not empty
unfoldable pub is_set : Option String → Bool
is_set none = false
is_set (some s) = not (str_eq s "")

-- `__post_init__`: `none` passes, else the code of the refusal
unfoldable pub rule_refusal : Rule → Option String
unfolding is_set
rule_refusal r =
    if not (
      is_set r.owner_ref
      || is_set r.business_task_ref
      || is_set r.business_task_ref_prefix
      || is_set r.contract_id)
    then some "RULE_WITHOUT_SELECTOR"
    else if not (leb 10 r.lease_seconds && leb r.lease_seconds 3600)
    then some "RULE_LEASE_OUT_OF_RANGE"
    else if not (ltb 0 r.max_micros && leb (r.max_micros + 5_000_000) (r.lease_seconds * 1_000_000))
    then some "RULE_MAX_SECONDS_EXCEEDS_LEASE"
    else none

-- wanted is not None and wanted != actual
unfoldable pub differs : Option String → Option String → Bool
differs none actual = false
differs (some wanted) none = true
differs (some wanted) (some actual) = not (str_eq wanted actual)

-- str(item.get("business_task_ref", "")): a key that is there with None gives "None"
unfoldable pub ref_text : Option String → String
ref_text none = "None"
ref_text (some s) = s

unfoldable pub has_prefix : Option String → Option String → Bool
unfolding ref_text
has_prefix none ref = true
has_prefix (some prefix) ref = str_eq (text_to (length (codes prefix)) (ref_text ref)) prefix

-- `Rule.matches`
unfoldable pub matches : Rule → Item → Bool
unfolding differs has_prefix
matches r i =
    if differs r.owner_ref i.owner_ref
      || differs r.business_task_ref i.business_task_ref
      || differs r.contract_id i.contract_id
    then false
    else has_prefix r.business_task_ref_prefix i.business_task_ref

-- `Policy.match`: the first rule that matches, with its index
unfoldable pub match_from : ℕ → List Rule → Item → Option (ℕ × Rule)
unfolding matches
match_from n [] i = none
match_from n (r ∷ rules) i =
    let rest = match_from (suc n) rules i in if matches r i then some (n, r) else rest

unfoldable pub match_rule : List Rule → Item → Option (ℕ × Rule)
unfolding match_from
match_rule rules i = match_from 0 rules i
