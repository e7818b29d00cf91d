-- ===== src/Scopes/Proofs.antt =====
-- What root_scope.py and path_authority.py grant: the lemmas on positions, and the theorems.
use universal_agent_middlewa.Prelude.{
  ◌⊎◌, ℕ, suc, ◌≤◌, ◌≡◌, ◌↔◌, refl, Bool, true, false, ◌&&◌, Option, none, some, List, [], ◌∷◌, all,
  ◌==◌, ==→eq, if◌then◌else◌, arith, Bool-cases, inl, inr,
}
use universal_agent_middlewa.Scopes.Root.{
  RootScopeAuthority, RootScope, PathParts, FileSystem, meet, first_at, deepest, covers, both,
  effective_authority, can_read,
}
use universal_agent_middlewa.Scopes.Policy.{
  Operation, Zone, Guard, passes, zone_allows, governing, allows, require, require_zones,
}

some-eq : {A : Type 0} {a b : A} → some a ≡ some b → a ≡ b
some-eq h = cc

-- The element of a list whose positions count from `n`.
pub nth_from : {A : Type 0} → ℕ → List A → ℕ → Option A
nth_from n [] i = none
nth_from n (x ∷ l) i = if n == i then some x else nth_from (suc n) l i

module _ {A : Type 0} (test : A → Bool) where
  later_one :
      (n : ℕ) (l : List A) {i : ℕ} {y x : A}
      → first_at test n (y ∷ l) ≡ some (i, x)
      → test y ≡ false
      → first_at test (suc n) l ≡ some (i, x)
  unfolding first_at
  later_one n l h fails = ground arith

  pub first_at-nth_from :
      (n : ℕ) (l : List A) {i : ℕ} {x : A}
      → first_at test n l ≡ some (i, x)
      → (n ≤ i) × (nth_from n l i ≡ some x) × (test x ≡ true)
  unfolding first_at nth_from
  first_at-nth_from n [] h = cc
  first_at-nth_from n (y ∷ l) {i} {x} h = elim (Bool-cases (test y)) [
    | inl holds ↦ ground arith
    | inr fails ↦
        let (later, there, passed) = first_at-nth_from (suc n) l (later_one n l h fails) in
        (omega arith, ground arith, passed)
  ]

-- A path that may be read: the most specific scope that covers it as it is spelled grants reading, and so
-- does the deepest one that covers it with letter case folded, where that is another scope.
pub record IsReadable (fs : FileSystem) (scopes : List RootScope) (path : PathParts) : Type 0 where
  pub exact_at : ℕ
  pub exact : RootScope
  pub folded_depth : ℕ
  pub folded_at : ℕ
  pub folded : RootScope
  pub exact_is : first_at (covers fs path) 0 scopes ≡ some (exact_at, exact)
  pub folded_is : deepest fs path 0 scopes ≡ some (folded_depth, folded_at, folded)
  pub covers_path : covers fs path exact ≡ true
  pub exact_grants : exact.authority.content_read ≡ true
  pub folded_grants : (exact_at ≡ folded_at) ⊎ (folded.authority.content_read ≡ true)

abbrev content_read_of : Option RootScopeAuthority → Bool
content_read_of none = false
content_read_of (some a) = a.content_read

readable :
    (fs : FileSystem) (scopes : List RootScope) (path : PathParts) (e : Option (ℕ × RootScope))
    (f : Option (ℕ × ℕ × RootScope))
    → first_at (covers fs path) 0 scopes ≡ e
    → deepest fs path 0 scopes ≡ f
    → content_read_of (both fs e f) ≡ true
    → IsReadable fs scopes path
unfolding both meet
readable fs scopes path none f he hf h = cc
readable fs scopes path (some e) none he hf h = cc
readable fs scopes path (some (i, s)) (some (m, j, t)) he hf h =
    let (later, there, covered) = first_at-nth_from (covers fs path) 0 scopes he in
    elim (Bool-cases (i == j)) [
      | inl one ↦ record {
        exact_at = i;
        exact = s;
        folded_depth = m;
        folded_at = j;
        folded = t;
        exact_is = he;
        folded_is = hf;
        covers_path = covered;
        exact_grants = ground arith;
        folded_grants = inl (==→eq i j one);
      }
      | inr two ↦ record {
        exact_at = i;
        exact = s;
        folded_depth = m;
        folded_at = j;
        folded = t;
        exact_is = he;
        folded_is = hf;
        covers_path = covered;
        exact_grants = ground arith;
        folded_grants = inr (ground arith);
      }
    ]

-- A path that `can_read` accepts is readable by both readings of its spelling.
pub can_read-IsReadable :
    (fs : FileSystem) (scopes : List RootScope) (path : PathParts)
    → can_read fs scopes path ≡ true
    → IsReadable fs scopes path
unfolding can_read effective_authority
can_read-IsReadable fs scopes path h =
    readable fs scopes path (first_at (covers fs path) 0 scopes) (deepest fs path 0 scopes) refl
      refl (as_option (both fs (first_at (covers fs path) 0 scopes) (deepest fs path 0 scopes)) h)
  where
    as_option :
        (o : Option RootScopeAuthority)
        → (elim o [ none ↦ false | some a ↦ a.content_read ]) ≡ true
        → content_read_of o ≡ true
    as_option none h = h
    as_option (some a) h = h

require_zones-all :
    (op : Operation) (zones : List Zone) (rest : Guard)
    → (require_zones op zones rest ≡ passes)
      ↔ ((all (zone_allows op) zones ≡ true) × (rest ≡ passes))
unfolding require_zones
require_zones-all op [] rest = (λ h. (refl, h), λ h. h.1)
require_zones-all op (z ∷ zones) rest = elim (Bool-cases (zone_allows op z)) [
  | inl holds ↦ rw holds (require_zones-all op zones rest)
  | inr fails ↦ rw fails (λ h. cc, λ h. cc)
]

and_left : (a b : Bool) → (a && b) ≡ true → a ≡ true
and_left true b h = refl
and_left false b h = h

and_right : (a b : Bool) → (a && b) ≡ true → b ≡ true
and_right true b h = h
and_right false b h = cc

-- The guard on several paths passes exactly when the operation is allowed on every one of them.
pub require-allows :
    (fs : FileSystem) (zones : List Zone) (op : Operation) (paths : List PathParts)
    → (require fs zones op paths ≡ passes) ↔ (all (allows fs zones op) paths ≡ true)
unfolding require allows
require-allows fs zones op [] = (λ h. refl, λ h. refl)
require-allows fs zones op (path ∷ paths) =
    let first = require_zones-all op (governing fs zones path) (require fs zones op paths) in
    let rest = require-allows fs zones op paths in
    (
      λ h. let (here, after) = first.0 h in rw (here, rest.0 after) refl,
      λ h. first.1 (
        and_left (all (zone_allows op) (governing fs zones path)) (all (allows fs zones op) paths)
            h,
        rest.1 (
            and_right (all (zone_allows op) (governing fs zones path))
              (all (allows fs zones op) paths) h),
      ),
    )
