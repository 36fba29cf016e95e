-- ===== src/Prelude/Value.antt =====
-- The dynamic values that the program reads from decoded JSON, and Python's integers.
use Prim.Native.Nat.{ℕ}
use Prim.Native.String.{String}
use mathlib.Core.Bool.{Bool, false}
use mathlib.Core.Option.{Option, none, some}
use text.Mathlib.Text.{◌==◌}

-- `negsuc n` is -(n + 1).
pub data ℤ : Type 0 where
  pos : ℕ → ℤ
  negsuc : ℕ → ℤ

-- `other` stands for a value of any type that the code only rejects (a float, …).
mutual
  pub data Value : Type 0 where
    null : Value
    bool : Bool → Value
    int : ℤ → Value
    str : String → Value
    arr : Items → Value
    obj : Fields → Value
    other : ℕ → Value

  pub data Items : Type 0 where
    nil : Items
    cons : Value → Items → Items

  -- the fields of an object, in order
  pub data Fields : Type 0 where
    empty : Fields
    field : String → Value → Fields → Fields

-- `isinstance(v, str)`, with the text.
abbrev pub as_text : Value → Option String
as_text (str s) = some s
as_text _ = none

-- `v == s`, for a text `s`.
abbrev pub is_text : String → Value → Bool
is_text s (str t) = t == s
is_text s _ = false

-- `d.get(k) == s`, for what `d.get(k)` returns.
abbrev pub has_text : String → Option Value → Bool
has_text s none = false
has_text s (some v) = is_text s v
