-- ===== src/Scopes/Subtrees.antt =====
-- path_authority.py: the subtrees that deny an operation, and the allowed scopes inside them, as paths below the
-- workspace root. `none` is the ValueError of a zone that does not lie beneath that root.
use universal_agent_middlewa.Prelude.{
  String, Bool, true, false, not, ◌&&◌, ◌||◌, Option, none, some, List, [], ◌∷◌, any, keep, drop,
  length, leb, str_eq, if◌then◌else◌, codes, ◌^^◌,
}
use universal_agent_middlewa.Prelude.Sort.{sort, codes_before}
use universal_agent_middlewa.Scopes.Root.{PathParts, FileSystem, starts_with, fold_path}
use universal_agent_middlewa.Scopes.Policy.{Operation, Zone, zone_allows, above, allows}

-- the components of a path's parent
unfoldable pub parent : PathParts → PathParts
parent [] = []
parent (x ∷ []) = x ∷ []
parent (x ∷ y ∷ l) = x ∷ parent (y ∷ l)

-- as_posix
unfoldable pub posix : PathParts → String
posix [] = "."
posix (x ∷ []) = x
posix (x ∷ y ∷ l) = x ^^ "/" ^^ posix (y ∷ l)

-- the root of a zone below the base, by position
unfoldable pub below_base : PathParts → PathParts → Zone → Option PathParts
below_base base folded z =
    if not (starts_with folded z.folded_root) || leb (length z.root) (length base)
    then none
    else some (drop (length base) z.root)

unfoldable pub add_path : Option PathParts → Option (List PathParts) → Option (List PathParts)
add_path (some p) (some l) = some (p ∷ l)
add_path _ _ = none

unfoldable pub all_below : PathParts → PathParts → List Zone → Option (List PathParts)
all_below base folded [] = some []
all_below base folded (z ∷ zones) =
    add_path (below_base base folded z) (all_below base folded zones)

-- a set's items, each once
unfoldable pub add_text : String → List String → List String
add_text s l = if any (str_eq s) l then l else s ∷ l

unfoldable pub texts_of : List PathParts → List String
texts_of [] = []
texts_of (p ∷ l) = add_text (posix p) (texts_of l)

abbrev pub text_order : String → String → Bool
text_order a b = codes_before (codes a) (codes b)

unfoldable pub sorted_texts : Option (List PathParts) → Option (List String)
sorted_texts none = none
sorted_texts (some l) = some (sort text_order (texts_of l))

unfoldable pub denied_zones : Operation → List Zone → List Zone
denied_zones op zones = keep (λ z. not (zone_allows op z)) zones

-- the denied zones that are in no other denied zone
unfoldable pub outermost : List Zone → List Zone
outermost denied = keep (λ z. not (any (λ (o : Zone). above o.root z) denied)) denied

-- the order of tuples of texts, and their equality
unfoldable pub parts_before : PathParts → PathParts → Bool
parts_before [] [] = false
parts_before [] (y ∷ m) = true
parts_before (x ∷ l) [] = false
parts_before (x ∷ l) (y ∷ m) = text_order x y || (str_eq x y && parts_before l m)

unfoldable pub same_parts : PathParts → PathParts → Bool
same_parts [] [] = true
same_parts (x ∷ l) (y ∷ m) = str_eq x y && same_parts l m
same_parts _ _ = false

unfoldable pub distinct_parts : List PathParts → List PathParts
distinct_parts [] = []
distinct_parts (p ∷ l) =
    let rest = distinct_parts l in if any (same_parts p) rest then rest else p ∷ rest

unfoldable pub sorted_parts : Option (List PathParts) → Option (List PathParts)
sorted_parts none = none
sorted_parts (some l) = some (sort parts_before (distinct_parts l))

module _ (fs : FileSystem) where
  -- `excluded_subtrees`, for the resolved workspace root `base`
  unfoldable pub excluded_subtrees : List Zone → Operation → PathParts → Option (List String)
  excluded_subtrees zones op base =
      sorted_texts (all_below base (fold_path fs base) (outermost (denied_zones op zones)))

  -- the zones that allow the operation inside a directory that denies it
  unfoldable pub pocket_zones : List Zone → Operation → List Zone
  pocket_zones zones op =
      keep (λ z. allows fs zones op z.root && not (allows fs zones op (parent z.root))) zones

  -- `pockets`, for the resolved workspace root `base`
  unfoldable pub pockets : List Zone → Operation → PathParts → Option (List PathParts)
  pockets zones op base = sorted_parts (all_below base (fold_path fs base) (pocket_zones zones op))
