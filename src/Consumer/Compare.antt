-- ===== src/Consumer/Compare.antt =====
-- What changed in the workspace since a contract's baseline: `declares_no_change`, `_changed_artifacts` and
-- `_baseline_differences` of consumer.py.
use universal_agent_middlewa.Prelude.{
  String, Bool, true, false, not, ◌&&◌, Option, none, some, List, [], ◌∷◌, any, map, ◌==◌, str_eq,
  if◌then◌else◌, codes,
}
use universal_agent_middlewa.Prelude.Dict.{Dict, get}
use universal_agent_middlewa.Prelude.Sort.{sort, codes_before}
use universal_agent_middlewa.Consumer.Port.{Env, Proc, ◌>>=◌, pure, ask, FileState, absent, present}

unfoldable pub same_state : FileState → FileState → Bool
same_state absent absent = true
same_state (present a m) (present b n) = str_eq a b && m == n
same_state _ _ = false

-- state != baseline.get(path)
unfoldable pub is_baseline : FileState → Option FileState → Bool
unfolding same_state
is_baseline s none = false
is_baseline s (some t) = same_state s t

unfoldable pub is_absent : FileState → Bool
is_absent absent = true
is_absent (present s n) = false

-- `declares_no_change`
unfoldable pub declares_no_change : (String → String) → List String → Bool
declares_no_change plain (item ∷ []) = str_eq (plain item) "none"
declares_no_change plain _ = false

unfoldable pub add_key : String → List String → List String
add_key k l = if any (str_eq k) l then l else k ∷ l

unfoldable pub union : List String → List String → List String
unfolding add_key
union [] l = l
union (k ∷ keys) l = add_key k (union keys l)

abbrev pub keys_of : {V : Type 0} → Dict V → List String
keys_of d = map (λ p. p.0) d

-- sorted(set(baseline) | set(allowed))
unfoldable pub compared_paths : Dict FileState → List String → List String
unfolding union
compared_paths baseline allowed =
    sort (λ a b. codes_before (codes a) (codes b)) (union (keys_of baseline) (union allowed []))

module _ (env : Env) where
  -- the path's own answer with those of the paths after it
  unfoldable pub add_artifact :
      Option FileState
      → String
      → FileState
      → Option (List (String × FileState))
      → Option (List (String × FileState))
  unfolding is_baseline is_absent
  add_artifact before path s none = none
  add_artifact before path s (some l) =
      if not (is_baseline s before) && not (is_absent s) then some ((path, s) ∷ l) else some l

  unfoldable pub add_difference :
      Option FileState → String → FileState → Option (List String) → Option (List String)
  unfolding is_baseline
  add_difference before path s none = none
  add_difference before path s (some l) = if is_baseline s before then some l else some (path ∷ l)

  -- the first path whose state cannot be read ends the reading
  unfoldable pub then_rest :
      {A : Type 0}
      → Option FileState
      → (FileState → Option A → Option A)
      → Proc (Option A)
      → Proc (Option A)
  then_rest none join rest = pure none
  then_rest (some s) join rest = rest >>= λ found. pure (join s found)

  -- `_changed_artifacts`; `none` is a Refusal or a WorkspaceError
  unfoldable pub changed_artifacts :
      String → Dict FileState → List String → Proc (Option (List (String × FileState)))
  changed_artifacts workspace baseline [] = pure (some [])
  changed_artifacts workspace baseline (path ∷ allowed) =
      ask (λ n. env.live_state n workspace path) >>= λ found.
      then_rest found (add_artifact (get baseline path) path)
        (changed_artifacts workspace baseline allowed)

  -- `_baseline_differences`
  unfoldable pub baseline_differences :
      String → Dict FileState → List String → Proc (Option (List String))
  baseline_differences workspace baseline [] = pure (some [])
  baseline_differences workspace baseline (path ∷ paths) =
      ask (λ n. env.live_state n workspace path) >>= λ found.
      then_rest found (add_difference (get baseline path) path)
        (baseline_differences workspace baseline paths)
