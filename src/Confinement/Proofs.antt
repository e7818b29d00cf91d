-- ===== src/Confinement/Proofs.antt =====
-- What policy.py denies and what it lets through.
use universal_agent_middlewa.Prelude.{
  ◌≡◌, refl, ◌∙◌, String, Bool, false, ◌||◌, Option, none, some, List, [], ◌∷◌, ◌++◌, any, str_eq,
  str_eq_iff, arith, Option-cases, inl, inr,
}
use universal_agent_middlewa.Confinement.Names.{Unicode, is_denied_component}
use universal_agent_middlewa.Confinement.Paths.{
  unresolvable, Files, Checked, passed, refused, relative_to, first_denied, ensure_relative_path,
  check_resolved, resolve_below, resolve_checked, resolve_safe_path,
}

relative_to-append :
    (root path inner : List String) → relative_to root path ≡ some inner → path ≡ root ++ inner
unfolding relative_to
relative_to-append [] path inner h = cc
relative_to-append (r ∷ root) [] inner h = cc
relative_to-append (r ∷ root) (p ∷ path) inner h =
    ground (arith, str_eq_iff r p, relative_to-append root path inner)

-- A path that was let through.
pub record IsConfined (u : Unicode) (files : Files) (root raw : String) (path : List String)
    : Type 0 where
  pub base : List String
  pub inner : List String
  pub base_is : files.resolve_root root ≡ some base
  pub lies_below : path ≡ base ++ inner
  pub inner_allowed : any (is_denied_component u) inner ≡ false
  pub relative : files.is_absolute raw ≡ false
  pub no_traversal : any (λ p. str_eq p ".." || str_eq p "~") (files.parts raw) ≡ false
  pub spelled_allowed : any (is_denied_component u) (files.parts raw) ≡ false

module _ (u : Unicode) (files : Files) where
  first_denied-any :
      (l : List String) → first_denied u files l ≡ none → any (is_denied_component u) l ≡ false
  unfolding first_denied
  first_denied-any [] h = refl
  first_denied-any (p ∷ l) h = ground (arith, first_denied-any l)

  -- What a text holds that `ensure_relative_path` lets through.
  record IsRelative (raw : String) (parts : List String) : Type 0 where
    parts_are : parts ≡ files.parts raw
    relative : files.is_absolute raw ≡ false
    no_traversal : any (λ p. str_eq p ".." || str_eq p "~") (files.parts raw) ≡ false
    allowed : any (is_denied_component u) (files.parts raw) ≡ false

  ensure_relative_path-IsRelative :
      (raw : String) {parts : List String}
      → ensure_relative_path u files raw ≡ passed parts
      → IsRelative raw parts
  unfolding ensure_relative_path
  ensure_relative_path-IsRelative raw h =
      elim (Option-cases (first_denied u files (files.parts raw))) [
        | inl clean ↦ record {
          parts_are = ground arith;
          relative = ground arith;
          no_traversal = ground arith;
          allowed = first_denied-any (files.parts raw) clean;
        }
        | inr (p, found) ↦ ground arith
      ]

  resolve_safe_path-confined :
      (root : List String) (candidate : List String) (o : Option (List String)) {path : List String}
      → relative_to root candidate ≡ o
      → check_resolved u files candidate o ≡ passed path
      → (path ≡ candidate)
        × (inner : List String) × (candidate ≡ root ++ inner)
        × (any (is_denied_component u) inner ≡ false)
  unfolding check_resolved
  resolve_safe_path-confined root candidate none e h = cc
  resolve_safe_path-confined root candidate (some inner) e h =
      (ground arith, inner, relative_to-append root candidate inner e, ground arith)

  below :
      (root parts : List String) (must_exist : Bool) (o : Option (List String)) {path : List String}
      → (elim o as (λ _. Checked (List String)) [
        | none ↦ refused unresolvable
        | some candidate ↦ check_resolved u files candidate (relative_to root candidate)
      ])
        ≡ passed path
      → (inner : List String) × (path ≡ root ++ inner) × (any (is_denied_component u) inner ≡ false)
  below root parts must_exist none h = cc
  below root parts must_exist (some candidate) h =
      let (same, inner, placed, allowed) =
        resolve_safe_path-confined root candidate (relative_to root candidate) refl h in
      (inner, same ∙ placed, allowed)

  checked-IsConfined :
      (root raw : String) (base : List String) (must_exist : Bool) (c : Checked (List String))
      {path : List String}
      → files.resolve_root root ≡ some base
      → ensure_relative_path u files raw ≡ c
      → resolve_checked u files base must_exist c ≡ passed path
      → IsConfined u files root raw path
  unfolding resolve_checked resolve_below
  checked-IsConfined root raw base must_exist (refused e) at_root said h = cc
  checked-IsConfined root raw base must_exist (passed parts) at_root said h =
      let r = ensure_relative_path-IsRelative raw said in
      let (inner, placed, allowed) =
        below base parts must_exist (files.resolve must_exist base parts) h in
      record {
        base = base;
        inner = inner;
        base_is = at_root;
        lies_below = placed;
        inner_allowed = allowed;
        relative = r.relative;
        no_traversal = r.no_traversal;
        spelled_allowed = r.allowed;
      }

  -- A path that `resolve_safe_path` returns lies below the resolved root, no part of it below the root is a sensitive
  -- name, and the text it came from is relative, climbs nowhere and has no sensitive part.
  pub resolve_safe_path-IsConfined :
      (root raw : String) (must_exist : Bool) (path : List String)
      → resolve_safe_path u files root raw must_exist ≡ passed path
      → IsConfined u files root raw path
  unfolding resolve_safe_path
  resolve_safe_path-IsConfined root raw must_exist path h =
      elim (Option-cases (files.resolve_root root)) [
        | inl unknown ↦ ground arith
        | inr (base, found) ↦
            checked-IsConfined root raw base must_exist (ensure_relative_path u files raw) found
              refl (ground arith)
      ]
