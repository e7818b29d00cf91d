-- ===== src/Scopes/Root.antt =====
-- root_scope.py: scopes, and the authority of a path. A resolved path is the list of its components. What
-- `Path.resolve` and `fold_name` answer is a parameter; a registry's scopes stand in its order.
use universal_agent_middlewa.Prelude.{
  ℕ, suc, String, Bool, true, false, ◌&&◌, Option, none, some, List, [], ◌∷◌, map, length, ltb,
  ◌==◌, str_eq, if◌then◌else◌,
}

pub record RootScopeAuthority : Type 0 where
  pub discover : Bool
  pub metadata_read : Bool
  pub content_read : Bool
  pub text_search : Bool
  pub git_observe : Bool
  pub classify : Bool
  pub index : Bool
  pub relate : Bool
  pub auto_admit : Bool
  pub directory_admit : Bool

-- a flag is set only when both set it
unfoldable pub meet : RootScopeAuthority → RootScopeAuthority → RootScopeAuthority
meet a b = record {
  discover = a.discover && b.discover;
  metadata_read = a.metadata_read && b.metadata_read;
  content_read = a.content_read && b.content_read;
  text_search = a.text_search && b.text_search;
  git_observe = a.git_observe && b.git_observe;
  classify = a.classify && b.classify;
  index = a.index && b.index;
  relate = a.relate && b.relate;
  auto_admit = a.auto_admit && b.auto_admit;
  directory_admit = a.directory_admit && b.directory_admit;
}

pub record RootScope : Type 0 where
  pub scope_id : String
  pub root : String
  pub authority : RootScopeAuthority
  pub description : String

abbrev pub PathParts : Type 0
PathParts = List String

pub record FileSystem : Type 0 where
  -- `Path(root).resolve()`; `none` is an OSError
  pub resolve : String → Option PathParts
  -- policy.fold_name
  pub fold_name : String → String

-- path[: len(root)] == root
unfoldable pub starts_with : PathParts → PathParts → Bool
starts_with [] path = true
starts_with (r ∷ root) [] = false
starts_with (r ∷ root) (p ∷ path) = str_eq r p && starts_with root path

-- The first element that passes a test, with its position: two objects are one when the positions are.
unfoldable pub first_at : {A : Type 0} → (A → Bool) → ℕ → List A → Option (ℕ × A)
first_at test n [] = none
first_at test n (x ∷ l) = if test x then some (n, x) else first_at test (suc n) l

unfoldable pub deeper :
    Option (ℕ × ℕ × RootScope) → Option (ℕ × ℕ × RootScope) → Option (ℕ × ℕ × RootScope)
deeper none best = best
deeper (some x) none = some x
deeper (some (m, i, s)) (some (n, j, t)) = if ltb m n then some (n, j, t) else some (m, i, s)

module _ (fs : FileSystem) where
  unfoldable pub fold_path : PathParts → PathParts
  fold_path path = map fs.fold_name path

  unfoldable pub covers : PathParts → RootScope → Bool
  unfolding starts_with
  covers path s = elim (fs.resolve s.root) [ none ↦ false | some root ↦ starts_with root path ]

  unfoldable pub covers_folded : PathParts → RootScope → Bool
  unfolding starts_with fold_path
  covers_folded path s = elim (fs.resolve s.root) [
    | none ↦ false
    | some root ↦ starts_with (fold_path root) (fold_path path)
  ]

  -- `len(Path(scope.root).resolve().parts)`
  unfoldable pub depth : RootScope → ℕ
  depth s = elim (fs.resolve s.root) [ none ↦ 0 | some root ↦ length root ]

  -- `max(..., key=..., default=None)`: the first one of the greatest depth, with its depth and position
  unfoldable pub deepest : PathParts → ℕ → List RootScope → Option (ℕ × ℕ × RootScope)
  unfolding deeper covers_folded depth
  deepest path n [] = none
  deepest path n (s ∷ scopes) =
      let rest = deepest path (suc n) scopes in
      if covers_folded path s then deeper (some (depth s, n, s)) rest else rest

  unfoldable pub both :
      Option (ℕ × RootScope) → Option (ℕ × ℕ × RootScope) → Option RootScopeAuthority
  unfolding meet
  both none folded = none
  both (some exact) none = none
  both (some (i, s)) (some (m, j, t)) =
      if i == j then some s.authority else some (meet s.authority t.authority)

  -- `effective_authority`
  unfoldable pub effective_authority : List RootScope → PathParts → Option RootScopeAuthority
  unfolding both first_at deepest covers
  effective_authority scopes path = both (first_at (covers path) 0 scopes) (deepest path 0 scopes)

  unfoldable pub can_read : List RootScope → PathParts → Bool
  unfolding effective_authority
  can_read scopes path = elim (effective_authority scopes path) [
    | none ↦ false
    | some a ↦ a.content_read
  ]

  unfoldable pub can_search : List RootScope → PathParts → Bool
  unfolding effective_authority
  can_search scopes path = elim (effective_authority scopes path) [
    | none ↦ false
    | some a ↦ a.text_search
  ]

  unfoldable pub lies_inside : PathParts → PathParts → Bool
  unfolding starts_with fold_path
  lies_inside base root =
      ltb (length (fold_path base)) (length (fold_path root))
      && starts_with (fold_path base) (fold_path root)

  -- `nested_scopes`: the scopes whose root lies strictly inside `base`, in the registry's order
  unfoldable pub nested_scopes : List RootScope → PathParts → List (PathParts × RootScope)
  unfolding lies_inside
  nested_scopes [] base = []
  nested_scopes (s ∷ scopes) base =
      let rest = nested_scopes scopes base in
      elim (fs.resolve s.root) [
        | none ↦ rest
        | some root ↦ if lies_inside base root then (root, s) ∷ rest else rest
      ]
