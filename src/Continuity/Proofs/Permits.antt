-- ===== src/Continuity/Proofs/Permits.antt =====
-- When the record of a delivery permits another attempt, and when its effects are settled: task_continuity.py.
use universal_agent_middlewa.Prelude.{
  ◌≡◌, refl, ap, ◌∙◌, ◌<◌, Bool, true, false, not, ◌&&◌, ◌||◌, Option, none, some, List, [], ◌∷◌,
  ◌++◌, leb, leb→le, length, arith, if◌then◌else◌,
}
use universal_agent_middlewa.TaskControl.Model.{
  AttemptState, active, ended, with_result, EndHow, lease_expired, handed_over, reported, by_result,
  AttemptEnd, is_result_recorded, is_cancelled, is_active_attempt, max_attempts,
}
use universal_agent_middlewa.Continuity.Model.{
  Stop, Attempt, Delivery, Blocker, blocked_by_result, blocked_by_active, blocked_by_limit,
}
use universal_agent_middlewa.Continuity.Evidence.{
  has, not_confirmed, stop_of_how, stop_of_end, stop_of, stop_of_attempts, attempt_stop_evidence,
  is_unconfirmed_how, unconfirmed_how, unconfirmed_of, unconfirmed_end, blocker_of,
  stop_blockers_of, stop_blockers, when, is_last_active, Permission, is_nil, blockers_of,
  permission_with, new_effect_permission, is_confirmed,
}

-- The attempt is closed by its executor's own word or by a result.
pub record IsConfirmed (a : Attempt) : Type 0 where
  pub stop : Stop
  pub is_stop : attempt_stop_evidence a ≡ some stop
  pub is_confirmed : is_confirmed stop ≡ true

-- Nothing stands against another attempt after these.
pub data IsLastSettled : List Attempt → Type 0 where
  unattempted : IsLastSettled []
  last_confirmed : {a : Attempt} {l : List Attempt} → IsConfirmed a → IsLastSettled (a ∷ l)

pub record IsPermitted (d : Delivery) : Type 0 where
  pub no_result : d.result ≡ none
  pub not_recorded : is_result_recorded d.state ≡ false
  pub no_cancel : d.cancel ≡ none
  pub not_cancelled : is_cancelled d.state ≡ false
  pub last_settled : IsLastSettled d.attempts
  pub below_limit : length d.attempts < max_attempts

confirmed_how :
    (how : EndHow) (late : Bool) {stop : Stop}
    → stop_of_how how late ≡ some stop
    → (if is_unconfirmed_how how && not late then some how else none) ≡ none
    → is_confirmed stop ≡ true
unfolding stop_of_how not_confirmed is_unconfirmed_how is_confirmed
confirmed_how reported late h b = cc
confirmed_how lease_expired true h b = cc
confirmed_how lease_expired false h b = cc
confirmed_how handed_over true h b = cc
confirmed_how handed_over false h b = cc
confirmed_how by_result true h b = cc
confirmed_how by_result false h b = cc

unblocked-none : (o : Option EndHow) → blocker_of (some o) ≡ some [] → o ≡ none
unfolding blocker_of
unblocked-none none h = refl
unblocked-none (some how) h = cc

-- Where the stop evidence of an attempt can be told, an attempt that is not active and does not block is confirmed.
confirmed_of :
    (s : AttemptState) (e : Option AttemptEnd) (late : Bool) {stop : Stop}
    → stop_of s e late ≡ some stop
    → is_active_attempt s ≡ false
    → blocker_of (unconfirmed_of s e late) ≡ some []
    → is_confirmed stop ≡ true
unfolding stop_of stop_of_end unconfirmed_of unconfirmed_how is_confirmed
confirmed_of active e late h a b = cc
confirmed_of with_result e late h a b = cc
confirmed_of ended none late h a b = cc
confirmed_of ended (some e) late h a b = confirmed_how e.how late h (unblocked-none _ b)

last_settled :
    (l : List Attempt) {stop : Stop}
    → stop_of_attempts l ≡ some stop
    → is_last_active l ≡ false
    → stop_blockers_of l ≡ some []
    → IsLastSettled l
unfolding stop_of_attempts is_last_active stop_blockers_of attempt_stop_evidence unconfirmed_end
last_settled [] h a b = unattempted
last_settled (x ∷ l) {stop = stop} h a b = last_confirmed (record {
  stop = stop;
  is_stop = h;
  is_confirmed = confirmed_of x.state x.end (has x.late_stop_report) h a b;
})

nil-append :
    {A : Type 0} (xs ys : List A)
    → is_nil (xs ++ ys) ≡ true
    → (is_nil xs ≡ true) × (is_nil ys ≡ true)
unfolding is_nil
nil-append [] ys h = (refl, h)
nil-append (x ∷ xs) ys h = cc

when-nil : (b : Bool) (x : Blocker) → when b x ≡ [] → b ≡ false
unfolding when
when-nil true x h = cc
when-nil false x h = refl

nil-is : {A : Type 0} (xs : List A) → is_nil xs ≡ true → xs ≡ []
unfolding is_nil
nil-is [] h = refl
nil-is (x ∷ xs) h = cc

neither : (a b : Bool) → a || b ≡ false → (a ≡ false) × (b ≡ false)
neither true b h = cc
neither false b h = (refl, h)

has-none : {A : Type 0} (o : Option A) → has o ≡ false → o ≡ none
unfolding has
has-none none h = refl
has-none (some a) h = cc

-- A permission that permits was made of no blocker.
record Unblocked (d : Delivery) (o : Option (List Blocker)) : Type 0 where
  stops : o ≡ some []
  result : has d.result || is_result_recorded d.state ≡ false
  cancel : has d.cancel || is_cancelled d.state ≡ false
  active : is_last_active d.attempts ≡ false
  limit : leb max_attempts (length d.attempts) ≡ false

blockers-Unblocked :
    (d : Delivery) (stops : List Blocker)
    → is_nil (blockers_of d stops) ≡ true
    → Unblocked d (some stops)
unfolding blockers_of
blockers-Unblocked d stops h =
    let l = nil-append _ (when (leb max_attempts (length d.attempts)) blocked_by_limit) h in
    let s = nil-append _ stops l.0 in
    let a = nil-append _ (when (is_last_active d.attempts) blocked_by_active) s.0 in
    let r =
      nil-append (when (has d.result || is_result_recorded d.state) blocked_by_result) _ a.0 in
    record {
      stops = ap some (nil-is stops s.1);
      result = when-nil _ _ (nil-is _ r.0);
      cancel = when-nil _ _ (nil-is _ r.1);
      active = when-nil _ _ (nil-is _ a.1);
      limit = when-nil _ _ (nil-is _ l.1);
    }

permits_of : Option Permission → Bool
permits_of none = false
permits_of (some p) = p.record_permits_new_attempt

permission-Unblocked :
    (d : Delivery) (o : Option (List Blocker))
    → permits_of (permission_with d o) ≡ true
    → Unblocked d o
unfolding permission_with permits_of
permission-Unblocked d none t = cc
permission-Unblocked d (some stops) t = blockers-Unblocked d stops t

-- Where the stop evidence of a delivery's last attempt can be told, its record permits another attempt only if no
-- result and no cancellation is recorded, fewer than 20 attempts are, and the last of them is closed by its
-- executor's own word or by a result.
pub permission-IsPermitted :
    (d : Delivery) {stop : Stop} {p : Permission}
    → stop_of_attempts d.attempts ≡ some stop
    → new_effect_permission d ≡ some p
    → p.record_permits_new_attempt ≡ true
    → IsPermitted d
unfolding new_effect_permission stop_blockers permits_of
permission-IsPermitted d h e t =
    let u = permission-Unblocked d (stop_blockers_of d.attempts) (ap permits_of e ∙ t) in
    let r = neither _ _ u.result in
    let c = neither _ _ u.cancel in
    record {
      no_result = has-none d.result r.0;
      not_recorded = r.1;
      no_cancel = has-none d.cancel c.0;
      not_cancelled = c.1;
      last_settled = last_settled d.attempts h u.active u.stops;
      below_limit = ground (arith, leb→le max_attempts (length d.attempts), u.limit);
    }
