-- ===== src/Consumer/Proofs/Pools.antt =====
-- The jobs of the consumer of consumer.py: how many run.
use universal_agent_middlewa.Prelude.{
  ℕ, ◌≡◌, refl, ◌≤◌, String, Bool, false, not, ◌||◌, List, [], ◌∷◌, any, keep, length, leb→le,
  str_eq, arith,
}
use universal_agent_middlewa.Consumer.Guard.{
  Pool, may_start, consider, discard, hold_off, Event, considered, deferred, job_ended, step,
  Reaches, no_event, then_event,
}

-- No delivery has two jobs.
abbrev pub has_twice : List String → Bool
has_twice [] = false
has_twice (id ∷ ids) = any (str_eq id) ids || has_twice ids

pub record IsWithinLimit (most : ℕ) (p : Pool) : Type 0 where
  pub one_each : has_twice p.inflight ≡ false
  pub at_most : length p.inflight ≤ most

module _ (test : String → Bool) where
  any-keep : (p : String → Bool) (l : List String) → any p l ≡ false → any p (keep test l) ≡ false
  any-keep p [] h = refl
  any-keep p (x ∷ l) h = ground (arith, any-keep p l)

  twice-keep : (l : List String) → has_twice l ≡ false → has_twice (keep test l) ≡ false
  twice-keep [] h = refl
  twice-keep (x ∷ l) h = ground (arith, any-keep (str_eq x) l, twice-keep l)

  length-keep : (l : List String) → length (keep test l) ≤ length l
  length-keep [] = omega arith
  length-keep (x ∷ l) = ground (arith, length-keep l)

consider-IsWithinLimit :
    (most now : ℕ) (id : String) (p : Pool)
    → IsWithinLimit most p
    → IsWithinLimit most (consider most now id p)
unfolding consider may_start
consider-IsWithinLimit most now id p h = record {
  one_each = ground (arith, h.one_each);
  at_most = ground (arith, h.at_most, leb→le most (length p.inflight));
}

step-IsWithinLimit :
    (most : ℕ) (e : Event) (p : Pool) → IsWithinLimit most p → IsWithinLimit most (step most e p)
unfolding step discard hold_off
step-IsWithinLimit most (considered now id) p h = consider-IsWithinLimit most now id p h
step-IsWithinLimit most (deferred id until) p h = record {
  one_each = h.one_each;
  at_most = h.at_most;
}
step-IsWithinLimit most (job_ended id) p h = record {
  one_each = twice-keep (λ other. not (str_eq id other)) p.inflight h.one_each;
  at_most = omega (arith, length-keep (λ other. not (str_eq id other)) p.inflight, h.at_most);
}

-- Whatever order the poll and the threads act in, from a pool with one job for each delivery and no more than the
-- limit every pool that is reached has one job for each delivery and no more than the limit.
pub Reaches-IsWithinLimit :
    {most : ℕ} {p q : Pool} → Reaches most p q → IsWithinLimit most p → IsWithinLimit most q
Reaches-IsWithinLimit no_event h = h
Reaches-IsWithinLimit {most = most} (then_event {q = q} e r) h =
    step-IsWithinLimit most e q (Reaches-IsWithinLimit r h)
