-- ===== src/Prelude/Text.antt =====
-- Texts: their code points, prefixes, and the decimal form of a number (Python's `str(n)`).
use Prim.Native.Nat.{ℕ, zero, suc, ◌/◌, ◌%◌}
use Prim.Native.Char.{code}
use Prim.Native.String.{String}
use mathlib.Core.List.{List, [], ◌∷◌}
use universal_agent_middlewa.Prelude.Tests.{if◌then◌else◌, ltb}

-- The code points of a text.
abbrev pub codes : String → List ℕ
codes String.[] = []
codes (String.◌∷◌ c s) = code c ∷ codes s

infixr 65 ◌^^◌
-- Python's `+` of two texts.
abbrev pub ◌^^◌ : String → String → String
String.[] ^^ t = t
(String.◌∷◌ c s) ^^ t = String.◌∷◌ c (s ^^ t)

-- s[n:]
abbrev pub text_from : ℕ → String → String
text_from zero s = s
text_from (suc n) String.[] = String.[]
text_from (suc n) (String.◌∷◌ c s) = text_from n s

-- s[:n]
abbrev pub text_to : ℕ → String → String
text_to zero s = String.[]
text_to (suc n) String.[] = String.[]
text_to (suc n) (String.◌∷◌ c s) = String.◌∷◌ c (text_to n s)

digit : ℕ → String
digit zero = "0"
digit (suc zero) = "1"
digit (suc (suc zero)) = "2"
digit (suc (suc (suc zero))) = "3"
digit (suc (suc (suc (suc zero)))) = "4"
digit (suc (suc (suc (suc (suc zero))))) = "5"
digit (suc (suc (suc (suc (suc (suc zero)))))) = "6"
digit (suc (suc (suc (suc (suc (suc (suc zero))))))) = "7"
digit (suc (suc (suc (suc (suc (suc (suc (suc zero)))))))) = "8"
digit n = "9"

-- One digit for each round; `n + 1` rounds are enough for `n`.
decimal_from : ℕ → ℕ → String
decimal_from zero n = ""
decimal_from (suc rounds) n =
    let rest = decimal_from rounds (n / 10) in if ltb n 10 then digit n else rest ^^ digit (n % 10)

unfoldable pub decimal : ℕ → String
unfolding decimal_from digit
decimal n = decimal_from (suc n) n
