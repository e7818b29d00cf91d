-- ===== src/Prelude/Dict.antt =====
-- Python's `dict`, and a directory of files, with text keys: an association list with one entry
-- for each key. The program asks for, sets and removes keys, and lists them in the order of the keys
-- or of insertion.
use Prim.Native.String.{String}
use mathlib.Core.Path.{◌≡◌, refl, ◌∙◌}
use mathlib.Core.Option.{Option, none, some}
use mathlib.Core.List.{List, [], ◌∷◌}
use native.Mathlib.Omega.{arith}
use universal_agent_middlewa.Prelude.Tests.{if◌then◌else◌, str_eq, str_eq_iff, str_eq_self}

abbrev pub Dict {ℓ} : Type ℓ → Type ℓ
Dict V = List (String × V)

module _ {ℓ} {V : Type ℓ} where
  unfoldable pub get : Dict V → String → Option V
  get [] k = none
  get ((j, v) ∷ d) k = if str_eq j k then some v else get d k

  unfoldable pub put : Dict V → String → V → Dict V
  put [] k v = (k, v) ∷ []
  put ((j, w) ∷ d) k v = if str_eq j k then (j, v) ∷ d else (j, w) ∷ put d k v

  pub get-put :
      (d : Dict V) (k j : String) (v : V)
      → get (put d k v) j ≡ (if str_eq k j then some v else get d j)
  unfolding get put
  get-put [] k j v = refl
  get-put ((i, w) ∷ d) k j v =
      ground (arith, str_eq_iff k j, str_eq_iff i k, str_eq_iff i j, get-put d k j v)

  pub get-put_same : (d : Dict V) (k : String) (v : V) → get (put d k v) k ≡ some v
  get-put_same d k v = get-put d k k v ∙ rw (str_eq_self k) refl
