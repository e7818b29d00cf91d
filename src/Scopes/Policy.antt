-- ===== src/Scopes/Policy.antt =====
-- path_authority.py: the zones nested beneath a workspace root, and what they allow on a path.
use universal_agent_middlewa.Prelude.{
  ℕ, String, Bool, true, false, not, ◌&&◌, ◌||◌, Option, none, some, List, [], ◌∷◌, map, all, any,
  length, ltb, ◌==◌, if◌then◌else◌,
}
use universal_agent_middlewa.Scopes.Root.{
  RootScopeAuthority, RootScope, PathParts, FileSystem, starts_with, first_at, fold_path,
  nested_scopes,
}

pub data Operation : Type 0 where
  read_op search_op enumerate_op scope_search_op : Operation

-- `_Zone`
pub record Zone : Type 0 where
  pub root : PathParts
  pub folded_root : PathParts
  pub scope_id : String
  pub authority : RootScopeAuthority

-- os.stat_result, as far as it is read
pub record FileInfo : Type 0 where
  pub is_regular : Bool
  pub links : ℕ

-- A guard passes, or raises ScopeAuthorityError with the scope; the flag is `reason="hard_linked_file"`.
pub data Guard : Type 0 where
  passes : Guard
  refuses : Operation → String → Bool → Guard

-- `_Zone.allows`
unfoldable pub zone_allows : Operation → Zone → Bool
zone_allows read_op z = z.authority.content_read
zone_allows search_op z = z.authority.content_read && z.authority.text_search
zone_allows enumerate_op z = z.authority.content_read || z.authority.metadata_read
zone_allows scope_search_op z = z.authority.text_search

-- `path == self.root or self.root in path.parents`
unfoldable pub zone_covers : PathParts → Zone → Bool
unfolding starts_with
zone_covers path z = starts_with z.root path

unfoldable pub zone_covers_folded : PathParts → Zone → Bool
unfolding starts_with
zone_covers_folded folded z = starts_with z.folded_root folded

-- the two zones of `_governing`: one if they are the same object
unfoldable pub govern : Option (ℕ × Zone) → Option (ℕ × Zone) → List Zone
govern none none = []
govern (some (i, e)) none = e ∷ []
govern none (some (j, f)) = f ∷ []
govern (some (i, e)) (some (j, f)) = if i == j then e ∷ [] else e ∷ f ∷ []

-- the directory is a proper parent of the zone's root
unfoldable pub above : PathParts → Zone → Bool
unfolding starts_with
above directory z = ltb (length directory) (length z.root) && starts_with directory z.root

unfoldable pub denying_of : Option (ℕ × Zone) → Option Zone
denying_of none = none
denying_of (some (i, z)) = some z

-- `_denying_zone`
unfoldable pub denying_zone : List Zone → Operation → Option Zone
unfolding first_at zone_allows denying_of
denying_zone zones op = denying_of (first_at (λ z. not (zone_allows op z)) 0 zones)

unfoldable pub denies : List Zone → Operation → Bool
unfolding denying_zone
denies zones op = elim (denying_zone zones op) [ none ↦ false | some z ↦ true ]

-- `_has_other_names`
unfoldable pub has_links : FileInfo → Bool
has_links i = i.is_regular && ltb 1 i.links

-- `has_other_names`; the information is `none` when the path cannot be inspected
unfoldable pub has_other_names : List Zone → Operation → Option FileInfo → Bool
unfolding denies has_links
has_other_names zones op none = false
has_other_names zones op (some i) = denies zones op && has_links i

-- `require_single_name` and `require_single_object_name`
unfoldable pub require_single_name : List Zone → Operation → Option FileInfo → Guard
unfolding denying_zone has_links
require_single_name zones op none = passes
require_single_name zones op (some i) = elim (denying_zone zones op) [
  | none ↦ passes
  | some z ↦ if has_links i then refuses op z.scope_id true else passes
]

unfoldable pub require_zones : Operation → List Zone → Guard → Guard
require_zones op [] rest = rest
require_zones op (z ∷ zones) rest =
    let later = require_zones op zones rest in
    if zone_allows op z then later else refuses op z.scope_id false

module _ (fs : FileSystem) where
  -- `beneath`
  unfoldable pub beneath : List RootScope → PathParts → List Zone
  unfolding nested_scopes fold_path
  beneath scopes workspace_root =
      map
        (λ (p : PathParts × RootScope). record {
          root = p.0;
          folded_root = fold_path fs p.0;
          scope_id = (p.1).scope_id;
          authority = (p.1).authority;
        })
        (nested_scopes fs scopes workspace_root)

  -- `_governing`
  unfoldable pub governing : List Zone → PathParts → List Zone
  unfolding govern first_at zone_covers zone_covers_folded fold_path
  governing zones path =
      govern (first_at (zone_covers path) 0 zones)
        (first_at (zone_covers_folded (fold_path fs path)) 0 zones)

  -- `allows`
  unfoldable pub allows : List Zone → Operation → PathParts → Bool
  unfolding governing zone_allows
  allows zones op path = all (zone_allows op) (governing zones path)

  -- `require`
  unfoldable pub require : List Zone → Operation → List PathParts → Guard
  unfolding require_zones governing
  require zones op [] = passes
  require zones op (path ∷ paths) = require_zones op (governing zones path) (require zones op paths)

  -- `descends`
  unfoldable pub descends : List Zone → Operation → PathParts → Bool
  unfolding allows above
  descends zones op directory =
      allows zones op directory || any (λ z. zone_allows op z && above directory z) zones
