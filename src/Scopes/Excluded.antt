-- ===== src/Scopes/Excluded.antt =====
-- The subtrees that `excluded_subtrees` of path_authority.py lists hold every zone that denies the operation.
use universal_agent_middlewa.Prelude.{
  ℕ, zero, suc, ◌≡◌, refl, ap, ◌∙◌, subst, ◌≤◌, ◌<◌, String, Bool, true, false, not, Option, none,
  some, List, [], ◌∷◌, any, keep, drop, length, ltb→lt, str_eq, str_eq_iff, str_eq_self, Bool-cases,
  inl, inr, arith,
}
use universal_agent_middlewa.Prelude.Ordered.{any-sort}
use universal_agent_middlewa.Scopes.Root.{PathParts, FileSystem, starts_with, fold_path}
use universal_agent_middlewa.Scopes.Policy.{Operation, Zone, zone_allows, above}
use universal_agent_middlewa.Scopes.Subtrees.{
  posix, below_base, add_path, all_below, add_text, texts_of, text_order, sorted_texts,
  denied_zones, outermost, excluded_subtrees,
}

-- The item is one of the list.
pub data IsIn {A : Type 0} (x : A) : List A → Type 0 where
  here : {l : List A} → IsIn x (x ∷ l)
  later : {y : A} {l : List A} → IsIn x l → IsIn x (y ∷ l)

module _ {A : Type 0} (test : A → Bool) where
  IsIn-keep : {x : A} {l : List A} → IsIn x l → test x ≡ true → IsIn x (keep test l)
  IsIn-keep {x = x} here t = rw t here
  IsIn-keep (later {y = y} i) t = elim (Bool-cases (test y)) [
    | inl e ↦ rw e (later (IsIn-keep i t))
    | inr e ↦ rw e (IsIn-keep i t)
  ]

  record Found (l : List A) : Type 0 where
    item : A
    is_in : IsIn item l
    passes : test item ≡ true

  any-Found : (l : List A) → any test l ≡ true → Found l
  any-Found [] h = cc
  any-Found (y ∷ l) h = elim (Bool-cases (test y)) [
    | inl e ↦ record { item = y; is_in = here; passes = e }
    | inr e ↦
        let f = any-Found l (rw e at h) in
        record { item = f.item; is_in = later f.is_in; passes = f.passes }
  ]

starts_self : (l : PathParts) → starts_with l l ≡ true
unfolding starts_with
starts_self [] = refl
starts_self (x ∷ l) = rw (str_eq_self x) (starts_self l)

starts_trans :
    (a b c : PathParts) → starts_with a b ≡ true → starts_with b c ≡ true → starts_with a c ≡ true
unfolding starts_with
starts_trans [] b c h k = refl
starts_trans (x ∷ a) [] c h k = cc
starts_trans (x ∷ a) (y ∷ b) [] h k = cc
starts_trans (x ∷ a) (y ∷ b) (z ∷ c) h k =
    ground (arith, str_eq_iff x y, str_eq_iff y z, str_eq_iff x z, starts_trans a b c)

-- An outermost zone that holds the given one.
record Holder (denied : List Zone) (z : Zone) : Type 0 where
  holder : Zone
  is_in : IsIn holder denied
  is_outermost : any (λ (o : Zone). above o.root holder) denied ≡ false
  holds : starts_with holder.root z.root ≡ true

above-shorter :
    (o z : Zone)
    → above o.root z ≡ true
    → (length o.root < length z.root) × (starts_with o.root z.root ≡ true)
unfolding above
above-shorter o z h = (ground (arith, ltb→lt (length o.root) (length z.root)), ground arith)

-- The zone itself, or the holder of one above it.
hold_by :
    (denied : List Zone) (z : Zone)
    → IsIn z denied
    → ((o : Zone) → IsIn o denied → length o.root < length z.root → Holder denied o)
    → Holder denied z
hold_by denied z i shorter = elim (Bool-cases (any (λ (o : Zone). above o.root z) denied)) [
  | inr e ↦ record { holder = z; is_in = i; is_outermost = e; holds = starts_self z.root }
  | inl e ↦
      let f = any-Found (λ (o : Zone). above o.root z) denied e in
      let a = above-shorter f.item z f.passes in
      let k = shorter f.item f.is_in a.0 in
      record {
        holder = k.holder;
        is_in = k.is_in;
        is_outermost = k.is_outermost;
        holds = starts_trans (k.holder).root (f.item).root z.root k.holds a.1;
      }
]

holding-Holder :
    (n : ℕ) (denied : List Zone) (z : Zone) → IsIn z denied → length z.root ≤ n → Holder denied z
holding-Holder zero denied z i h = hold_by denied z i (λ o j lt.
    let f : length o.root < length o.root = omega (arith, lt, h) in absurd (omega (arith, f)))
holding-Holder (suc n) denied z i h =
    hold_by denied z i (λ o j lt. holding-Holder n denied o j (omega (arith, lt, h)))

record Added (a : Option PathParts) (b : Option (List PathParts)) (paths : List PathParts)
    : Type 0 where
  path : PathParts
  others : List PathParts
  path_is : a ≡ some path
  others_are : b ≡ some others
  paths_are : path ∷ others ≡ paths

some_inj : {A : Type 0} {x y : A} → some x ≡ some y → x ≡ y
some_inj e = cc

add_path-Added :
    (a : Option PathParts) (b : Option (List PathParts)) {paths : List PathParts}
    → add_path a b ≡ some paths
    → Added a b paths
unfolding add_path
add_path-Added none b e = cc
add_path-Added (some p) none e = cc
add_path-Added (some p) (some l) e = record {
  path = p;
  others = l;
  path_is = refl;
  others_are = refl;
  paths_are = some_inj e;
}

below_base-is :
    (base folded : PathParts) (z : Zone) {p : PathParts}
    → below_base base folded z ≡ some p
    → drop (length base) z.root ≡ p
unfolding below_base
below_base-is base folded z e = ground (arith, e)

-- What is listed of the zones.
all_below-IsIn :
    (base folded : PathParts) (zones : List Zone) (paths : List PathParts) {z : Zone}
    → all_below base folded zones ≡ some paths
    → IsIn z zones
    → IsIn (drop (length base) z.root) paths
unfolding all_below
all_below-IsIn base folded [] paths e i = elim i [ ]
all_below-IsIn base folded (z ∷ zones) paths e here =
    let a = add_path-Added (below_base base folded z) (all_below base folded zones) e in
    subst (IsIn (drop (length base) z.root)) a.paths_are
      (rw (below_base-is base folded z a.path_is) here)
all_below-IsIn base folded (y ∷ zones) paths {z = z} e (later i) =
    let a = add_path-Added (below_base base folded y) (all_below base folded zones) e in
    subst (IsIn (drop (length base) z.root)) a.paths_are
      (later (all_below-IsIn base folded zones a.others a.others_are i))

add_text-listed :
    (s t : String) (l : List String)
    → any (str_eq t) l ≡ true
    → any (str_eq t) (add_text s l) ≡ true
unfolding add_text
add_text-listed s t l h = ground (arith, h)

add_text-own : (s : String) (l : List String) → any (str_eq s) (add_text s l) ≡ true
unfolding add_text
add_text-own s l = ground (arith, str_eq_self s)

texts_of-listed :
    (p : PathParts) (l : List PathParts) → IsIn p l → any (str_eq (posix p)) (texts_of l) ≡ true
unfolding texts_of
texts_of-listed p [] i = elim i [ ]
texts_of-listed p (q ∷ l) here = add_text-own (posix p) (texts_of l)
texts_of-listed p (q ∷ l) (later i) =
    add_text-listed (posix q) (posix p) (texts_of l) (texts_of-listed p l i)

-- A listed subtree holds the zone.
pub record IsExcluded (zones : List Zone) (op : Operation) (base : PathParts)
    (subtrees : List String) (z : Zone) : Type 0 where
  pub holder : Zone
  pub is_in : IsIn holder (denied_zones op zones)
  pub holds : starts_with holder.root z.root ≡ true
  pub listed : any (str_eq (posix (drop (length base) holder.root))) subtrees ≡ true

listed_of :
    (base folded : PathParts) (denied : List Zone) (o : Option (List PathParts))
    {subtrees : List String} {h : Zone}
    → all_below base folded (outermost denied) ≡ o
    → sorted_texts o ≡ some subtrees
    → IsIn h (outermost denied)
    → any (str_eq (posix (drop (length base) h.root))) subtrees ≡ true
unfolding sorted_texts
listed_of base folded denied none e s i = cc
listed_of base folded denied (some paths) {h = h} e s i =
    let p = drop (length base) h.root in
    subst (λ l. any (str_eq (posix p)) l ≡ true) (some_inj s)
      (any-sort text_order (str_eq (posix p)) (texts_of paths)
        ∙ texts_of-listed p paths (all_below-IsIn base folded (outermost denied) paths e i))

-- When `excluded_subtrees` answers, every zone that denies the operation lies within a zone that denies it and whose
-- subtree is in the answer.
pub excluded_subtrees-IsExcluded :
    (fs : FileSystem) (zones : List Zone) (op : Operation) (base : PathParts)
    {subtrees : List String} (z : Zone)
    → excluded_subtrees fs zones op base ≡ some subtrees
    → IsIn z zones
    → zone_allows op z ≡ false
    → IsExcluded zones op base subtrees z
unfolding excluded_subtrees denied_zones outermost
excluded_subtrees-IsExcluded fs zones op base z e i d =
    let denied = denied_zones op zones in
    let j : IsIn z denied = IsIn-keep (λ z. not (zone_allows op z)) i (ap not d) in
    let k = holding-Holder (length z.root) denied z j (omega arith) in
    let outer : IsIn k.holder (outermost denied) =
      IsIn-keep (λ z. not (any (λ (o : Zone). above o.root z) denied)) k.is_in
        (ap not k.is_outermost) in
    record {
      holder = k.holder;
      is_in = k.is_in;
      holds = k.holds;
      listed =
          listed_of base (fold_path fs base) denied
            (all_below base (fold_path fs base) (outermost denied)) refl e outer;
    }
