-- ===== src/Continuity/Proofs/Requests.antt =====
-- What a version-2 request carries: `make_request`, `compute_binding_digest` and `validate_continues` of
-- task_continuity.py.
use universal_agent_middlewa.Prelude.{
  suc, ◌≡◌, refl, sym, ap, ◌∙◌, subst, ◌≤◌, ltb→lt, String, Bool, true, false, ◌&&◌, ◌||◌, some,
  List, [], ◌∷◌, any, all, ltb, length, str_eq, str_eq_iff, Bool-cases, inl, inr, arith, codes,
}
use universal_agent_middlewa.Prelude.PyValue.{
  PyValue, py_str, py_none, py_bool, py_int, py_negative, py_other,
}
use universal_agent_middlewa.Prelude.Sort.{insert, sort}
use universal_agent_middlewa.Prelude.Ordered.{
  any-insert, any-sort, IsSorted, sort_id, sort-IsSorted, codes_before-asym,
}
use universal_agent_middlewa.TaskControl.Model.{invalid_argument}
use universal_agent_middlewa.TaskControl.Result.{Result, ok, err, ◌>>=◌}
use universal_agent_middlewa.TaskControl.Validate.{is_delivery_id, validate_delivery_id, matching}
use universal_agent_middlewa.Continuity.Validate.{
  text_before, Continues, not_given, not_a_list, given, max_continues, delivery_ids, repeats,
  sorted_once, validate_continues,
}
use universal_agent_middlewa.Continuity.Binding.{
  Arguments, Digests, pending_evidence_digest, binding_of, compute_binding_digest, unsigned,
  make_request,
}

text_before-asym : (a b : String) → text_before a b ≡ true → text_before b a ≡ false
text_before-asym a b h = codes_before-asym (codes a) (codes b) h

sort_texts-IsSorted : (l : List String) → IsSorted text_before (sort text_before l)
sort_texts-IsSorted l = sort-IsSorted text_before text_before-asym l

some_inj : {A : Type 0} {x y : A} → some x ≡ some y → x ≡ y
some_inj e = cc

-- The two calls of `make_request` ask about one transition.
pub record SameTransition (digests : Digests) (a b : Arguments) : Type 0 where
  pub effect : a.effect ≡ b.effect
  pub authority_ref : a.authority_ref ≡ b.authority_ref
  pub principal : a.principal ≡ b.principal
  pub initiator : a.initiator ≡ b.initiator
  pub role : a.role ≡ b.role
  pub endpoint_ref : a.endpoint_ref ≡ b.endpoint_ref
  pub owner_ref : a.owner_ref ≡ b.owner_ref
  pub requester : a.requester ≡ b.requester
  pub recipient : a.recipient ≡ b.recipient
  pub from_principal : a.from_principal ≡ b.from_principal
  pub to_principal : a.to_principal ≡ b.to_principal
  pub handover_seq : a.handover_seq ≡ b.handover_seq
  pub delivery_id : a.delivery_id ≡ b.delivery_id
  pub contract_id : a.contract_id ≡ b.contract_id
  pub contract_digest : a.contract_digest ≡ b.contract_digest
  pub workspace_id : a.workspace_id ≡ b.workspace_id
  pub business_task_ref : a.business_task_ref ≡ b.business_task_ref
  pub task_revision : a.task_revision ≡ b.task_revision
  pub attempt_ref : a.attempt_ref ≡ b.attempt_ref
  pub fence : a.fence ≡ b.fence
  pub original_executor : a.original_executor ≡ b.original_executor
  pub late_after_attempt_end : a.late_after_attempt_end ≡ b.late_after_attempt_end
  pub data_scope : a.data_scope ≡ b.data_scope
  pub continues : sort text_before a.continues ≡ sort text_before b.continues
  pub pending :
      pending_evidence_digest digests a.pending_evidence
      ≡ pending_evidence_digest digests b.pending_evidence

-- The digest that a verifier recomputes from the request that was made.
recomputed :
    (digests : Digests) (a : Arguments)
    → (make_request digests a).binding_digest
      ≡ some (compute_binding_digest digests (make_request digests a))
unfolding make_request compute_binding_digest binding_of
recomputed digests a = refl

same_binding :
    (digests : Digests) (a b : Arguments)
    → binding_of digests (make_request digests a) ≡ binding_of digests (make_request digests b)
    → SameTransition digests a b
unfolding binding_of make_request unsigned
same_binding digests a b e = record {
  effect = ap (λ x. x.effect) e;
  authority_ref = ap (λ x. x.authority_ref) e;
  principal = ap (λ x. x.principal) e;
  initiator = ap (λ x. x.initiator) e;
  role = some_inj (ap (λ x. x.role) e);
  endpoint_ref = ap (λ x. x.endpoint_ref) e;
  owner_ref = some_inj (ap (λ x. x.owner_ref) e);
  requester = some_inj (ap (λ x. x.requester) e);
  recipient = some_inj (ap (λ x. x.recipient) e);
  from_principal = ap (λ x. x.from_principal) e;
  to_principal = ap (λ x. x.to_principal) e;
  handover_seq = ap (λ x. x.handover_seq) e;
  delivery_id = some_inj (ap (λ x. x.delivery_id) e);
  contract_id = ap (λ x. x.contract_id) e;
  contract_digest = ap (λ x. x.contract_digest) e;
  workspace_id = ap (λ x. x.workspace_id) e;
  business_task_ref = some_inj (ap (λ x. x.business_task_ref) e);
  task_revision = some_inj (ap (λ x. x.task_revision) e);
  attempt_ref = ap (λ x. x.attempt_ref) e;
  fence = ap (λ x. x.fence) e;
  original_executor = ap (λ x. x.original_executor) e;
  late_after_attempt_end = ap (λ x. x.late_after_attempt_end) e;
  data_scope = some_inj (ap (λ x. x.data_scope) e);
  continues =
      sym (sort_id text_before (sort text_before a.continues) (sort_texts-IsSorted a.continues))
      ∙ ap (λ x. x.continues) e
      ∙ sort_id text_before (sort text_before b.continues) (sort_texts-IsSorted b.continues);
  pending = ap (λ x. x.pending_evidence_digest) e;
}

-- If the canonical digest tells the bindings of two requests apart wherever they differ, then two
-- requests that UAM makes carry one binding digest only for one transition: every field of the
-- binding is the same, the continued deliveries are the same up to their order, and so is the
-- digest of the pending evidence.
pub make_request-SameTransition :
    (digests : Digests) (a b : Arguments)
    → (compute_binding_digest digests (make_request digests a)
          ≡ compute_binding_digest digests (make_request digests b)
        → binding_of digests (make_request digests a) ≡ binding_of digests (make_request digests b))
    → (make_request digests a).binding_digest ≡ (make_request digests b).binding_digest
    → SameTransition digests a b
make_request-SameTransition digests a b distinct h =
    same_binding digests a b
      (distinct (some_inj (sym (recomputed digests a) ∙ h ∙ recomputed digests b)))

module _ (before : String → String → Bool) where
  length-insert : (x : String) (l : List String) → length (insert before x l) ≡ suc (length l)
  unfolding insert
  length-insert x [] = refl
  length-insert x (y ∷ l) = ground (arith, length-insert x l)

  length-sort : (l : List String) → length (sort before l) ≡ length l
  unfolding sort
  length-sort [] = refl
  length-sort (x ∷ l) = length-insert x (sort before l) ∙ ap suc (length-sort l)

  repeats-insert :
      (x : String) (l : List String) → repeats (insert before x l) ≡ any (str_eq x) l || repeats l
  unfolding insert repeats
  repeats-insert x [] = refl
  repeats-insert x (y ∷ l) =
      ground (
        arith,
        repeats-insert x l,
        any-insert before (str_eq y) x l,
        str_eq_iff x y,
        str_eq_iff y x,
      )

  repeats-sort : (l : List String) → repeats (sort before l) ≡ repeats l
  unfolding sort repeats
  repeats-sort [] = refl
  repeats-sort (x ∷ l) =
      repeats-insert x (sort before l)
      ∙ ap (λ b. b || repeats (sort before l)) (any-sort before (str_eq x) l)
      ∙ ap (λ b. any (str_eq x) l || b) (repeats-sort l)

  all-insert :
      (p : String → Bool) (x : String) (l : List String)
      → all p (insert before x l) ≡ p x && all p l
  unfolding insert
  all-insert p x [] = refl
  all-insert p x (y ∷ l) = ground (arith, all-insert p x l)

  all-sort : (p : String → Bool) (l : List String) → all p (sort before l) ≡ all p l
  unfolding sort
  all-sort p [] = refl
  all-sort p (x ∷ l) = all-insert p x (sort before l) ∙ ap (λ b. p x && b) (all-sort p l)

-- The delivery ids of a list, if each of its items is one.
record AreIds (values : List PyValue) (ids : List String) : Type 0 where
  same_length : length ids ≡ length values
  are_ids : all is_delivery_id ids ≡ true

ok_inj : {A : Type 0} {a b : A} → ok a ≡ ok b → a ≡ b
ok_inj e = cc

validate-is_id :
    (v : PyValue) (id : String) → validate_delivery_id v ≡ ok id → is_delivery_id id ≡ true
unfolding validate_delivery_id matching
validate-is_id (py_str s) id e = elim (Bool-cases (is_delivery_id s)) [
  | inl t ↦ subst (λ x. is_delivery_id x ≡ true) (ok_inj (rw t at e)) t
  | inr f ↦ let h : err invalid_argument ≡ ok id = (rw f at e) in cc
]
validate-is_id py_none id e = cc
validate-is_id (py_bool b) id e = cc
validate-is_id (py_int n) id e = cc
validate-is_id (py_negative n) id e = cc
validate-is_id py_other id e = cc

ids-cons :
    (v : PyValue) (values : List PyValue) (id : String) (o : Result (List String))
    (ids : List String)
    → validate_delivery_id v ≡ ok id
    → ((rest : List String) → o ≡ ok rest → AreIds values rest)
    → (o >>= λ rest. ok (id ∷ rest)) ≡ ok ids
    → AreIds (v ∷ values) ids
ids-cons v values id (err c) ids f h e = cc
ids-cons v values id (ok rest) ids f h e =
    let r = h rest refl in
    subst (AreIds (v ∷ values)) (ok_inj e) (record {
      same_length = ap suc r.same_length;
      are_ids = ground (arith, r.are_ids, validate-is_id v id f);
    })

ids-first :
    (v : PyValue) (values : List PyValue) (o : Result String) (ids : List String)
    → validate_delivery_id v ≡ o
    → ((rest : List String) → delivery_ids values ≡ ok rest → AreIds values rest)
    → (o >>= λ id. delivery_ids values >>= λ rest. ok (id ∷ rest)) ≡ ok ids
    → AreIds (v ∷ values) ids
ids-first v values (err c) ids f h e = cc
ids-first v values (ok id) ids f h e = ids-cons v values id (delivery_ids values) ids f h e

delivery_ids-AreIds :
    (values : List PyValue) (ids : List String) → delivery_ids values ≡ ok ids → AreIds values ids
unfolding delivery_ids
delivery_ids-AreIds [] ids e =
    subst (AreIds []) (ok_inj e) (record { same_length = refl; are_ids = refl })
delivery_ids-AreIds (v ∷ values) ids e =
    ids-first v values (validate_delivery_id v) ids refl (delivery_ids-AreIds values) e

none_repeats : repeats [] ≡ false
unfolding repeats
none_repeats = refl

-- What `continues` is once it was checked.
pub record AreAccepted (ids : List String) : Type 0 where
  pub sorted : IsSorted text_before ids
  pub once : repeats ids ≡ false
  pub at_most : length ids ≤ max_continues
  pub are_ids : all is_delivery_id ids ≡ true

accepted :
    (values : List PyValue) (o : Result (List String)) (ids : List String)
    → length values ≤ max_continues
    → ((l : List String) → o ≡ ok l → AreIds values l)
    → (o >>= λ l. sorted_once l) ≡ ok ids
    → AreAccepted ids
unfolding sorted_once
accepted values (err c) ids n h e = cc
accepted values (ok l) ids n h e = elim (Bool-cases (repeats l)) [
  | inl t ↦ let z : err invalid_argument ≡ ok ids = (rw t at e) in cc
  | inr f ↦
      let i = h l refl in
      subst AreAccepted (ok_inj (rw f at e)) (record {
        sorted = sort_texts-IsSorted l;
        once = repeats-sort text_before l ∙ f;
        at_most = omega (arith, length-sort text_before l, i.same_length, n);
        are_ids = all-sort text_before is_delivery_id l ∙ i.are_ids;
      })
]

-- An accepted `continues` is a sorted list of at most eight different delivery ids.
pub validate_continues-AreAccepted :
    (value : Continues) (ids : List String) → validate_continues value ≡ ok ids → AreAccepted ids
unfolding validate_continues
validate_continues-AreAccepted not_given ids e =
    subst AreAccepted (ok_inj e)
      (record { sorted = tt; once = none_repeats; at_most = omega arith; are_ids = refl })
validate_continues-AreAccepted not_a_list ids e = cc
validate_continues-AreAccepted (given values) ids e =
    elim (Bool-cases (ltb max_continues (length values))) [
      | inl t ↦ let z : err invalid_argument ≡ ok ids = (rw t at e) in cc
      | inr f ↦
          accepted values (delivery_ids values) ids
            (ground (arith, ltb→lt max_continues (length values))) (delivery_ids-AreIds values)
            (rw f at e)
    ]
