-- ===== src/Prelude/Ordered.antt =====
-- What `sort` gives, for an order in which no two items are each before the other.
use Prim.Native.Nat.{ℕ}
use mathlib.Core.Path.{◌≡◌, refl, ap, ◌∙◌}
use mathlib.Core.Logic.{inl, inr}
use mathlib.Core.Bool.{Bool, true, false, ◌||◌}
use mathlib.Core.List.{List, [], ◌∷◌}
use native.Mathlib.Omega.{arith}
use universal_agent_middlewa.Prelude.Tests.{Bool-cases}
use universal_agent_middlewa.Prelude.Lists.{any}
use universal_agent_middlewa.Prelude.Sort.{insert, sort, codes_before}

module _ {A : Type 0} (before : A → A → Bool) where
  -- No item is before the one in front of it.
  abbrev pub IsSorted : List A → Type 0
  IsSorted [] = Unit
  IsSorted (x ∷ []) = Unit
  IsSorted (x ∷ y ∷ l) = (before y x ≡ false) × IsSorted (y ∷ l)

  tail-IsSorted : (x : A) (l : List A) → IsSorted (x ∷ l) → IsSorted l
  tail-IsSorted x [] h = tt
  tail-IsSorted x (y ∷ l) h = h.1

  insert-nil : (x : A) → insert before x [] ≡ x ∷ []
  unfolding insert
  insert-nil x = refl

  insert-front : (x y : A) (l : List A) → before y x ≡ false → insert before x (y ∷ l) ≡ x ∷ y ∷ l
  unfolding insert
  insert-front x y l f = rw f

  pub sort_id : (l : List A) → IsSorted l → sort before l ≡ l
  unfolding sort
  sort_id [] h = refl
  sort_id (x ∷ []) h = insert-nil x
  sort_id (x ∷ y ∷ l) h = ap (insert before x) (sort_id (y ∷ l) h.1) ∙ insert-front x y l h.0

  module _ (asym : (x y : A) → before x y ≡ true → before y x ≡ false) where
    before_inserted :
        (x y : A) (l : List A)
        → before y x ≡ true
        → IsSorted (y ∷ l)
        → IsSorted (insert before x l)
        → IsSorted (y ∷ insert before x l)
    unfolding insert
    before_inserted x y [] e h r = (asym y x e, tt)
    before_inserted x y (z ∷ l) e h r = elim (Bool-cases (before z x)) [
      | inl t ↦ rw t (h.0, (rw t at r))
      | inr f ↦ rw f (asym y x e, (rw f at r))
    ]

    insert-IsSorted : (x : A) (l : List A) → IsSorted l → IsSorted (insert before x l)
    unfolding insert
    insert-IsSorted x [] h = tt
    insert-IsSorted x (y ∷ l) h = elim (Bool-cases (before y x)) [
      | inl t ↦ rw t (before_inserted x y l t h (insert-IsSorted x l (tail-IsSorted y l h)))
      | inr f ↦ rw f (f, h)
    ]

    pub sort-IsSorted : (l : List A) → IsSorted (sort before l)
    unfolding sort
    sort-IsSorted [] = tt
    sort-IsSorted (x ∷ l) = insert-IsSorted x (sort before l) (sort-IsSorted l)

module _ {A : Type 0} (before : A → A → Bool) (p : A → Bool) where
  pub any-insert : (x : A) (l : List A) → any p (insert before x l) ≡ p x || any p l
  unfolding insert
  any-insert x [] = refl
  any-insert x (y ∷ l) = ground (arith, any-insert x l)

  pub any-sort : (l : List A) → any p (sort before l) ≡ any p l
  unfolding sort
  any-sort [] = refl
  any-sort (x ∷ l) = any-insert x (sort before l) ∙ ap (λ b. p x || b) (any-sort l)

pub codes_before-asym : (a b : List ℕ) → codes_before a b ≡ true → codes_before b a ≡ false
codes_before-asym [] [] h = refl
codes_before-asym [] (d ∷ b) h = refl
codes_before-asym (c ∷ a) [] h = cc
codes_before-asym (c ∷ a) (d ∷ b) h = ground (arith, codes_before-asym a b)
