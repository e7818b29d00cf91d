-- ===== src/Scopes/Specific.antt =====
-- The scope that root_scope.py finds for a path as it is spelled is the most specific one of the registry.
use universal_agent_middlewa.Prelude.{
  ℕ, suc, ◌≤◌, ◌<◌, ◌≡◌, refl, sym, ap, subst, ◌∙◌, Bool, true, false, ◌&&◌, Option, none, some,
  List, [], ◌∷◌, any, ltb, ltb→lt, length, str_eq_iff, arith, Bool-cases, inl, inr,
}
use universal_agent_middlewa.Prelude.Sort.{sort}
use universal_agent_middlewa.Prelude.Ordered.{IsSorted, sort-IsSorted, any-sort}
use universal_agent_middlewa.Scopes.Root.{
  RootScope, PathParts, FileSystem, starts_with, first_at, covers, depth,
}
use universal_agent_middlewa.Scopes.Order.{text_length, root_length, is_longer, longest_first}
use universal_agent_middlewa.Scopes.Proofs.{first_at-nth_from}

-- Of two beginnings of one path, the one with more parts has the longer text.
longer_beginning :
    (a b path : PathParts)
    → starts_with a path ≡ true
    → starts_with b path ≡ true
    → length a < length b
    → text_length a < text_length b
unfolding starts_with text_length
longer_beginning [] [] path h k n = absurd (no_less n)
  where
    no_less : 0 < 0 → ⊥
    no_less m = omega arith
longer_beginning [] (y ∷ b) path h k n = omega arith
longer_beginning (x ∷ a) [] path h k n = omega arith
longer_beginning (x ∷ a) (y ∷ b) [] h k n = cc
longer_beginning (x ∷ a) (y ∷ b) (p ∷ path) h k n =
    grind (arith, longer_beginning a b path, str_eq_iff x p, str_eq_iff y p)

module _ {A : Type 0} (key : A → ℕ) where
  abbrev by_key : A → A → Bool
  by_key x y = ltb (key y) (key x)

  not_after :
      (x y : A) (m : ℕ) → by_key y x ≡ false → key x ≤ m → (ltb m (key y) ≡ false) × (key y ≤ m)
  not_after x y m h n = elim (Bool-cases (ltb m (key y))) [
    | inl t ↦ absurd (apart (ltb→lt m (key y) t))
    | inr f ↦ (f, bounded)
  ]
    where
      bounded : key y ≤ m
      bounded = ground (arith, h, n)

      apart : m < key y → ⊥
      apart k = omega (arith, bounded)

  none_before :
      (x : A) (l : List A) (m : ℕ)
      → IsSorted by_key (x ∷ l)
      → key x ≤ m
      → any (λ t. ltb m (key t)) l ≡ false
  none_before x [] m h n = refl
  none_before x (y ∷ l) m h n =
      let (here, bound) = not_after x y m h.0 n in ground (arith, here, none_before y l m h.1 bound)

  any-and : (p q : A → Bool) (l : List A) → any q l ≡ false → any (λ t. p t && q t) l ≡ false
  any-and p q [] h = refl
  any-and p q (x ∷ l) h = ground (arith, any-and p q l)

  tail-IsSorted : (x : A) (l : List A) → IsSorted by_key (x ∷ l) → IsSorted by_key l
  tail-IsSorted x [] h = tt
  tail-IsSorted x (y ∷ l) h = h.1

  no_self : (m : ℕ) → ltb m m ≡ false
  no_self m = ground arith

  second_is :
      (p : Option (ℕ × A)) {i : ℕ} {x s : A} {n : ℕ} → p ≡ some (n, x) → p ≡ some (i, s) → x ≡ s
  second_is none h e = cc
  second_is (some q) h e = cc

  first_is_greatest :
      (test : A → Bool) (n : ℕ) (l : List A) {i : ℕ} {s : A}
      → IsSorted by_key l
      → first_at test n l ≡ some (i, s)
      → any (λ t. test t && ltb (key s) (key t)) l ≡ false
  unfolding first_at
  first_is_greatest test n [] h e = refl
  first_is_greatest test n (x ∷ l) {i} {s} h e = elim (Bool-cases (test x)) [
    | inl holds ↦
        let same : x ≡ s = second_is (some (n, x)) refl (rw holds at e) in
        subst (λ y. any (λ t. test t && ltb (key y) (key t)) (x ∷ l) ≡ false) same
          (rw (no_self (key x)) (
            ground (
              arith,
              any-and test (λ t. ltb (key x) (key t)) l (none_before x l (key x) h (omega arith)),
            )))
    | inr fails ↦ rw fails (first_is_greatest test (suc n) l (tail-IsSorted x l h) (rw fails at e))
  ]

  any-implied :
      (p q : A → Bool) (l : List A)
      → ((t : A) → p t ≡ true → q t ≡ true)
      → any q l ≡ false
      → any p l ≡ false
  any-implied p q [] h e = refl
  any-implied p q (x ∷ l) h e = elim (Bool-cases (p x)) [
    | inl t ↦ let z = h x t in ground arith
    | inr f ↦ ground (arith, f, any-implied p q l h)
  ]

ltb-asym : (m n : ℕ) → ltb m n ≡ true → ltb n m ≡ false
ltb-asym m n h = ground arith

lt-ltb : (m n : ℕ) → m < n → ltb m n ≡ true
lt-ltb m n h = ground arith

both_true : (a b : Bool) → (a && b) ≡ true → (a ≡ true) × (b ≡ true)
both_true true b h = (refl, h)
both_true false b h = cc

pair_true : (a b : Bool) → a ≡ true → b ≡ true → (a && b) ≡ true
pair_true a b h k = rw (h, k) refl

roots_longer :
    (path : PathParts) (o p : Option PathParts)
    → (elim o [ none ↦ false | some root ↦ starts_with root path ]) ≡ true
    → (elim p [ none ↦ false | some root ↦ starts_with root path ]) ≡ true
    → (elim o [ none ↦ 0 | some root ↦ length root ])
      < (elim p [ none ↦ 0 | some root ↦ length root ])
    → (elim o [ none ↦ 0 | some root ↦ text_length root ])
      < (elim p [ none ↦ 0 | some root ↦ text_length root ])
roots_longer path none p h k n = cc
roots_longer path (some a) none h k n = cc
roots_longer path (some a) (some b) h k n = longer_beginning a b path h k n

deeper_is_longer :
    (fs : FileSystem) (path : PathParts) (s t : RootScope)
    → covers fs path s ≡ true
    → (covers fs path t && ltb (depth fs s) (depth fs t)) ≡ true
    → (covers fs path t && ltb (root_length fs s) (root_length fs t)) ≡ true
unfolding covers depth root_length
deeper_is_longer fs path s t h e =
    let (covering, deep) = both_true (covers fs path t) (ltb (depth fs s) (depth fs t)) e in
    pair_true (covers fs path t) (ltb (root_length fs s) (root_length fs t)) covering (
      lt-ltb (root_length fs s) (root_length fs t) (
        roots_longer path (fs.resolve s.root) (fs.resolve t.root) h covering
          (ltb→lt (depth fs s) (depth fs t) deep)))

-- The scope `s` of the registry covers the path, and none that covers it lies deeper.
pub record IsMostSpecific (fs : FileSystem) (scopes : List RootScope) (path : PathParts)
    (s : RootScope) : Type 0 where
  pub covers_path : covers fs path s ≡ true
  pub none_deeper : any (λ t. covers fs path t && ltb (depth fs s) (depth fs t)) scopes ≡ false

longest_is_sorted :
    (fs : FileSystem) (scopes : List RootScope) {sorted : List RootScope}
    → longest_first fs scopes ≡ some sorted
    → sorted ≡ sort (is_longer fs) scopes
unfolding longest_first
longest_is_sorted fs scopes h = ground arith

is_longer-IsSorted :
    (fs : FileSystem) (scopes : List RootScope)
    → IsSorted (λ x y. ltb (root_length fs y) (root_length fs x)) (sort (is_longer fs) scopes)
unfolding is_longer
is_longer-IsSorted fs scopes =
    sort-IsSorted (is_longer fs) (λ x y. ltb-asym (root_length fs y) (root_length fs x)) scopes

-- Where the scopes of a registry stand in the order of the lengths of their texts, the longest
-- first: the scope that is found for a path as it is spelled covers the path, and no scope of the
-- registry that covers it lies deeper.
pub longest_first-IsMostSpecific :
    (fs : FileSystem) (scopes : List RootScope) (path : PathParts) {sorted : List RootScope} {i : ℕ}
    {s : RootScope}
    → longest_first fs scopes ≡ some sorted
    → first_at (covers fs path) 0 sorted ≡ some (i, s)
    → IsMostSpecific fs scopes path s
longest_first-IsMostSpecific fs scopes path {sorted} {i} {s} h e =
    let is_sort = longest_is_sorted fs scopes h in
    let found : first_at (covers fs path) 0 (sort (is_longer fs) scopes) ≡ some (i, s) =
      ap (first_at (covers fs path) 0) (sym is_sort) ∙ e in
    let (low, there, covering) =
      first_at-nth_from (covers fs path) 0 (sort (is_longer fs) scopes) found in
    let q = λ (t : RootScope). covers fs path t && ltb (root_length fs s) (root_length fs t) in
    let p = λ (t : RootScope). covers fs path t && ltb (depth fs s) (depth fs t) in
    record {
      covers_path = covering;
      none_deeper =
          any-implied (root_length fs) p q scopes (λ t d. deeper_is_longer fs path s t covering d)
            (sym (any-sort (is_longer fs) q scopes)
              ∙ first_is_greatest (root_length fs) (covers fs path) 0 (sort (is_longer fs) scopes)
                  (is_longer-IsSorted fs scopes) found);
    }
