-- ===== src/Confinement/Paths.antt =====
-- policy.py: the checks of a relative path, as it is written and as it resolves. What pathlib makes of a text,
-- and what the file system resolves, is a parameter; a path is the list of its parts.
use universal_agent_middlewa.Prelude.{
  String, Bool, true, ◌||◌, Option, none, some, List, [], ◌∷◌, any, ◌==◌, codes, str_eq,
  if◌then◌else◌,
}
use universal_agent_middlewa.Confinement.Names.{Unicode, is_denied_component}

-- PathPolicyError, by its message; the last one is an exception of the file system
pub data PathError : Type 0 where
  nul_byte absolute_path traversal escapes_workspace denied_resolved unresolvable : PathError
  denied_component : String → PathError

pub data Checked {ℓ} (A : Type ℓ) : Type ℓ where
  passed : A → Checked A
  refused : PathError → Checked A

pub record Files : Type 0 where
  -- Path(raw or "."): its parts, and whether it is absolute
  pub parts : String → List String
  pub is_absolute : String → Bool
  -- Path(root).expanduser().resolve(strict=True)
  pub resolve_root : String → Option (List String)
  -- (root / parts).resolve(strict=must_exist)
  pub resolve : Bool → List String → List String → Option (List String)

-- candidate.relative_to(root)
unfoldable pub relative_to : List String → List String → Option (List String)
relative_to [] path = some path
relative_to (r ∷ root) [] = none
relative_to (r ∷ root) (p ∷ path) = if str_eq r p then relative_to root path else none

module _ (u : Unicode) (files : Files) where
  -- `is_denied_path`
  unfoldable pub is_denied_path : String → Bool
  is_denied_path path = any (is_denied_component u) (files.parts path)

  -- the loop over the parts of `ensure_relative_path`
  unfoldable pub first_denied : List String → Option String
  first_denied [] = none
  first_denied (p ∷ parts) =
      let rest = first_denied parts in if is_denied_component u p then some p else rest

  -- `ensure_relative_path`
  unfoldable pub ensure_relative_path : String → Checked (List String)
  unfolding first_denied
  ensure_relative_path raw =
      if any (λ c. c == 0) (codes raw)
      then refused nul_byte
      else if files.is_absolute raw
      then refused absolute_path
      else if any (λ p. str_eq p ".." || str_eq p "~") (files.parts raw)
      then refused traversal
      else elim (first_denied (files.parts raw)) [
        | some p ↦ refused (denied_component p)
        | none ↦ passed (files.parts raw)
      ]

  unfoldable pub check_resolved : List String → Option (List String) → Checked (List String)
  check_resolved candidate none = refused escapes_workspace
  check_resolved candidate (some inner) =
      if any (is_denied_component u) inner then refused denied_resolved else passed candidate

  unfoldable pub resolve_below : List String → Bool → List String → Checked (List String)
  unfolding check_resolved relative_to
  resolve_below root must_exist parts = elim (files.resolve must_exist root parts) [
    | none ↦ refused unresolvable
    | some candidate ↦ check_resolved candidate (relative_to root candidate)
  ]

  unfoldable pub resolve_checked :
      List String → Bool → Checked (List String) → Checked (List String)
  unfolding resolve_below
  resolve_checked root must_exist (refused e) = refused e
  resolve_checked root must_exist (passed parts) = resolve_below root must_exist parts

  -- `resolve_safe_path`
  unfoldable pub resolve_safe_path : String → String → Bool → Checked (List String)
  unfolding resolve_checked ensure_relative_path
  resolve_safe_path root raw must_exist = elim (files.resolve_root root) [
    | none ↦ refused unresolvable
    | some r ↦ resolve_checked r must_exist (ensure_relative_path raw)
  ]

  -- `should_hide_path`, with the resolved root
  unfoldable pub should_hide_path : List String → List String → Bool
  unfolding relative_to
  should_hide_path root path = elim (relative_to root path) [
    | none ↦ true
    | some inner ↦ any (is_denied_component u) inner
  ]

-- `is_loopback_host`
unfoldable pub is_loopback_host : String → Bool
is_loopback_host host = str_eq host "127.0.0.1" || str_eq host "::1" || str_eq host "localhost"
