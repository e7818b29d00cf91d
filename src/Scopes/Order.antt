-- ===== src/Scopes/Order.antt =====
-- The order in which root_scope.py keeps the scopes of a registry: `add_scope`, `replace_scopes` and the loading sort
-- them by the length of the text of their resolved root, the longest first.
use universal_agent_middlewa.Prelude.{
  ℕ, suc, ◌+◌, Bool, true, false, Option, none, some, List, [], ◌∷◌, all, ltb, length, codes,
  if◌then◌else◌,
}
use universal_agent_middlewa.Prelude.Sort.{sort}
use universal_agent_middlewa.Scopes.Root.{RootScope, PathParts, FileSystem}

-- len(str(path)), where each part stands behind a separator; the root of the file system, whose text has length 1, is
-- the one path that has 0 here, and still the shortest
unfoldable pub text_length : PathParts → ℕ
text_length [] = 0
text_length (p ∷ path) = suc (length (codes p)) + text_length path

module _ (fs : FileSystem) where
  unfoldable pub root_length : RootScope → ℕ
  unfolding text_length
  root_length s = elim (fs.resolve s.root) [ none ↦ 0 | some root ↦ text_length root ]

  unfoldable pub is_longer : RootScope → RootScope → Bool
  unfolding root_length
  is_longer s t = ltb (root_length t) (root_length s)

  unfoldable pub is_resolved : RootScope → Bool
  is_resolved s = elim (fs.resolve s.root) [ none ↦ false | some root ↦ true ]

  -- the sort by `key=lambda s: len(str(Path(s.root).resolve()))`; `none` is the OSError of a root
  unfoldable pub longest_first : List RootScope → Option (List RootScope)
  unfolding is_longer is_resolved
  longest_first scopes = if all is_resolved scopes then some (sort is_longer scopes) else none
