-- ===== src/Consumer/Port.antt =====
-- What the consumer of consumer.py is wired to, and what it changes. ContinuityControl, the gateway, the
-- adapters, the policy file, the process table, the files of a job and the clock answer from outside, each
-- question anew. The World holds the consumer's journal, what it asked of the control object, the commands it
-- ran, and its backing off.
mod Messages
pub use Messages.*
use universal_agent_middlewa.Prelude.{
  ℕ, suc, ◌+◌, String, Bool, Option, none, some, List, [], ◌∷◌, ◌++◌, if◌then◌else◌, leb,
}
use universal_agent_middlewa.Prelude.Dict.{Dict, get, put}
use universal_agent_middlewa.Consumer.Journal.{Record, Phase, Handle, StopReport, Identity}
use universal_agent_middlewa.Consumer.Rules.{Rule}

pub record World : Type 0 where
  pub questions : ℕ
  pub journal : List Record
  -- newest first
  pub calls : List UamCall
  pub commands : List String
  pub strikes : Dict ℕ
  pub not_before : Dict ℕ
  pub errors : Dict (String × String)

pub record Env : Type 0 where
  pub principal : String
  pub clock : ℕ → ℕ
  pub backoff : ℕ
  -- `control.get`; `none` is an exception
  pub view_of : ℕ → String → Option View
  pub start : ℕ → String → ℕ → StartAnswer
  pub end_attempt : ℕ → UamCall → CallAnswer
  pub submit : ℕ → UamCall → CallAnswer
  pub policy : ℕ → List Rule
  pub adapters : String → Option Adapter
  -- the adapter's preflight, or the cached one: the code of a hold
  pub preflight : ℕ → String → Option String
  pub is_absolute : String → Bool
  -- Path(cwd).resolve()
  pub resolve : String → String
  -- `_root_of`; `none` is a WorkspaceError
  pub root_of : ℕ → String → Option String
  pub target_locks : ℕ → String → List String → Bool
  pub run : ℕ → String → AttemptView → RunAnswer
  pub group_alive : ℕ → ℕ → Bool
  -- `still_running` of the recorded processes: for each one that is there its pid, and whether its command
  -- changed; `none` is an OSError
  pub still_running : ℕ → List Identity → Option (List (ℕ × Bool))
  pub outcome_file : ℕ → String → Option Outcome
  pub job_file : ℕ → String → Bool
  pub job_dir : String → String → String
  pub prepared : ℕ → String → Option Payload
  -- `_live_state`; `none` is an exception
  pub live_state : ℕ → String → String → Option FileState
  -- in which directory, and the command
  pub run_command : ℕ → String → String → Receipt
  pub result_id : String → ℕ → String
  -- the type and the text of an exception
  pub error_of : ℕ → String × String
  -- whether the journal's append in the handler of an exception returns
  pub journal_appends : ℕ → Bool
  -- strip().lower()
  pub plain : String → String

pub record Refusal : Type 0 where
  pub code : String
  pub phase : Phase
  pub retry : Option ℕ

-- A method returns, raises a Refusal, or raises another exception.
pub data Ran (A : Type 0) : Type 0 where
  done : A → Ran A
  refused : Refusal → Ran A
  raised : Ran A

abbrev pub Proc : Type 0 → Type 0
Proc A = World → Ran A × World

abbrev pub continue : {A B : Type 0} → Ran A → World → (A → Proc B) → Ran B × World
continue (done a) w f = f a w
continue (refused r) w f = (refused r, w)
continue raised w f = (raised, w)

infixl 5 ◌>>=◌ ◌>>◌
unfoldable pub ◌>>=◌ : {A B : Type 0} → Proc A → (A → Proc B) → Proc B
◌>>=◌ m f w = let r = m w in continue r.0 r.1 f

abbrev pub ◌>>◌ : {A B : Type 0} → Proc A → Proc B → Proc B
m >> n = m >>= λ _. n

unfoldable pub pure : {A : Type 0} → A → Proc A
pure a w = (done a, w)

unfoldable pub refuse : {A : Type 0} → Refusal → Proc A
refuse r w = (refused r, w)

unfoldable pub fail : {A : Type 0} → Proc A
fail w = (raised, w)

-- One question to the outside.
unfoldable pub ask : {A : Type 0} → (ℕ → A) → Proc A
ask answer w = (done (answer w.questions), record w { questions = suc w.questions })

-- `journal.append`
unfoldable pub append : Record → Proc (Unit {0})
append r w = (done tt, record w { journal = w.journal ++ (r ∷ []) })

unfoldable pub or_fail : {A : Type 0} → Option A → Proc A
or_fail none = fail
or_fail (some a) = pure a

abbrev pub plain_record : String → Phase → Record
plain_record id phase = record {
  delivery_id = some id;
  phase = phase;
  attempt_ref = none;
  fence = 0;
  job_dir = "";
  handle = none;
  stopped = none;
  stop_report = none;
  code = "";
}

-- 2 ** n
unfoldable pub doubled : ℕ → ℕ → ℕ
doubled ℕ.zero base = base
doubled (suc n) base = doubled n (base + base)

unfoldable pub count_of : Option ℕ → ℕ
count_of none = 0
count_of (some n) = n

-- min(strikes, 6)
unfoldable pub at_most_six : ℕ → ℕ
at_most_six n = if leb n 6 then n else 6

module _ (env : Env) where
  -- `_defer`
  unfoldable pub defer : String → ℕ → Proc (Unit {0})
  defer id micros w = (
    done tt,
    record w {
      questions = suc w.questions;
      not_before = put w.not_before id (env.clock w.questions + micros);
    },
  )

  -- `_back_off`
  unfoldable pub back_off : String → Proc (Unit {0})
  unfolding defer
  back_off id w =
      let strikes = count_of (get w.strikes id) in
      defer id (doubled (at_most_six strikes) env.backoff)
        (record w { strikes = put w.strikes id (suc strikes) })
