-- ===== src/Consumer/Guard.antt =====
-- A delivery's thread, and which deliveries get one: `_guarded` and `poll_once` of consumer.py. What the threads do
-- to the pool of running jobs is a sequence of events, in any order.
use universal_agent_middlewa.Prelude.{
  ℕ, String, Bool, true, false, not, ◌&&◌, Option, none, some, List, ◌∷◌, any, keep, length, ltb,
  leb, str_eq, if◌then◌else◌,
}
use universal_agent_middlewa.Prelude.Dict.{Dict, get, put}
use universal_agent_middlewa.Consumer.Journal.{consumer_error}
use universal_agent_middlewa.Consumer.Rules.{Item}
use universal_agent_middlewa.Consumer.Port.{
  Env, Proc, Ran, done, refused, raised, ◌>>=◌, ◌>>◌, pure, fail, ask, append, plain_record,
  back_off, count_of,
}
use universal_agent_middlewa.Consumer.Handle.{handle}

unfoldable pub is_known_error : Option (String × String) → String × String → Bool
is_known_error none e = false
is_known_error (some k) e = str_eq k.0 e.0 && str_eq k.1 e.1

module _ (env : Env) where
  unfoldable pub remember : String → String × String → Proc (Unit {0})
  remember id e w = (done tt, record w { errors = put w.errors id e })

  -- the append of the handler, which may raise: then the thread ends with the exception, and nothing is put off
  unfoldable pub journal_error : String → String × String → Bool → Proc (Unit {0})
  journal_error id e true = append (record (plain_record id consumer_error) { code = e.0 })
  journal_error id e false = fail

  -- the same error is journalled once
  unfoldable pub report_error : String → String × String → Proc (Unit {0})
  unfolding journal_error
  report_error id e w =
      (if is_known_error (get w.errors id) e
          then pure tt
          else remember id e >> (ask env.journal_appends >>= λ b. journal_error id e b))
        w

  unfoldable pub failed : String → Proc (Unit {0})
  failed id = ask env.error_of >>= λ e. report_error id e >> back_off env id

  -- except Exception: a Refusal is one too
  unfoldable pub contained : String → Ran (Unit {0}) → Proc (Unit {0})
  contained id (done u) = pure tt
  contained id (refused r) = failed id
  contained id raised = failed id

  -- `_guarded`
  unfoldable pub guarded : Item → Proc (Unit {0})
  guarded item w = let r = handle env item w in contained item.delivery_id r.0 r.1

-- The jobs that run, and when a delivery may be tried again.
pub record Pool : Type 0 where
  pub inflight : List String
  pub waiting : Dict ℕ

-- the tests of `poll_once` on one delivery
unfoldable pub may_start : ℕ → ℕ → Pool → String → Bool
may_start most now p id =
    not (ltb now (count_of (get p.waiting id)))
    && not (any (str_eq id) p.inflight)
    && not (leb most (length p.inflight))

unfoldable pub consider : ℕ → ℕ → String → Pool → Pool
consider most now id p =
    if may_start most now p id then record p { inflight = id ∷ p.inflight } else p

-- self._inflight.discard(delivery_id)
unfoldable pub discard : String → Pool → Pool
discard id p = record p { inflight = keep (λ other. not (str_eq id other)) p.inflight }

unfoldable pub hold_off : String → ℕ → Pool → Pool
hold_off id until p = record p { waiting = put p.waiting id until }

-- The poll considers a delivery at an instant; a thread defers its delivery, or ends.
pub data Event : Type 0 where
  considered : ℕ → String → Event
  deferred : String → ℕ → Event
  job_ended : String → Event

unfoldable pub step : ℕ → Event → Pool → Pool
step most (considered now id) p = consider most now id p
step most (deferred id until) p = hold_off id until p
step most (job_ended id) p = discard id p

-- The pools that are reached, event by event.
pub data Reaches (most : ℕ) : Pool → Pool → Type 0 where
  no_event : {p : Pool} → Reaches most p p
  then_event : {p q : Pool} (e : Event) → Reaches most p q → Reaches most p (step most e q)
