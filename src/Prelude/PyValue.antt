-- ===== src/Prelude/PyValue.antt =====
-- The Python values that an entry point of the program is handed before it has validated them
-- (`value: Any`): what `isinstance` tells apart. `bool` is apart from `int`, since each check of
-- the program on an integer also excludes `bool`.
use Prim.Native.Nat.{ℕ}
use Prim.Native.String.{String}
use mathlib.Core.Bool.{Bool}

pub data PyValue : Type 0 where
  py_none : PyValue
  py_bool : Bool → PyValue
  -- `py_negative n` is the integer -(n + 1)
  py_int py_negative : ℕ → PyValue
  py_str : String → PyValue
  -- any other object: a float, a list, a dict
  py_other : PyValue
