-- ===== src/Consumer/Proofs/Ledgers.antt =====
-- How long a delivery waits once `_back_off` of consumer.py has put it off.
use universal_agent_middlewa.Prelude.{ℕ, zero, suc, ◌≡◌, ◌+◌, ◌*◌, ◌≤◌, String, some, arith, leb→le}
use universal_agent_middlewa.Prelude.Dict.{get, get-put_same}
use universal_agent_middlewa.Consumer.Port.{
  World, Env, doubled, at_most_six, count_of, defer, back_off,
}

doubled-bounds : (n b : ℕ) → n ≤ 6 → (b ≤ doubled n b) × (doubled n b ≤ 64 * b)
unfolding doubled
doubled-bounds zero b h = (omega arith, omega arith)
doubled-bounds (suc zero) b h = (omega arith, omega arith)
doubled-bounds (suc (suc zero)) b h = (omega arith, omega arith)
doubled-bounds (suc (suc (suc zero))) b h = (omega arith, omega arith)
doubled-bounds (suc (suc (suc (suc zero)))) b h = (omega arith, omega arith)
doubled-bounds (suc (suc (suc (suc (suc zero))))) b h = (omega arith, omega arith)
doubled-bounds (suc (suc (suc (suc (suc (suc zero)))))) b h = (omega arith, omega arith)
doubled-bounds (suc (suc (suc (suc (suc (suc (suc n))))))) b h = omega arith

at_most_six-le : (n : ℕ) → at_most_six n ≤ 6
unfolding at_most_six
at_most_six-le n = ground (arith, leb→le n 6)

-- The delivery waits until this instant, and has refused once more.
pub record Waits (env : Env) (id : String) (w v : World) : Type 0 where
  pub strikes : get v.strikes id ≡ some (suc (count_of (get w.strikes id)))
  pub until : ℕ
  pub is_until : get v.not_before id ≡ some until
  pub at_least : env.clock w.questions + env.backoff ≤ until
  pub at_most : until ≤ env.clock w.questions + 64 * env.backoff

-- `_back_off` puts a delivery off by at least the base backoff and by at most 64 times it, and
-- counts one more refusal of it.
pub back_off-Waits : (env : Env) (id : String) (w : World) → Waits env id w (back_off env id w).1
unfolding back_off defer
back_off-Waits env id w =
    let n = at_most_six (count_of (get w.strikes id)) in
    let b = doubled-bounds n env.backoff (at_most_six-le (count_of (get w.strikes id))) in
    record {
      strikes = get-put_same w.strikes id _;
      until = env.clock w.questions + doubled n env.backoff;
      is_until = get-put_same w.not_before id _;
      at_least = omega (arith, b.0);
      at_most = omega (arith, b.1);
    }
