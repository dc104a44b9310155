-- ===== src/Prelude/Json.antt =====
-- JavaScript values as JSON has them. Numbers are natural numbers.
use Prim.Native.Nat.{ℕ}
use Prim.Native.String.{String}
use mathlib.Core.Bool.{Bool, true, false, not}
use civitas.Prelude.Tests.{◌==◌}
use civitas.Prelude.Text.{is_empty}

mutual
  pub data Value : Type 0 where
    object : Members → Value
    array : Elements → Value
    text : String → Value
    boolean : Bool → Value
    number : ℕ → Value
    null : Value

  pub data Members : Type 0 where
    no_members : Members
    member : (key : String) → Value → Members → Members

  pub data Elements : Type 0 where
    no_elements : Elements
    element : Value → Elements → Elements

-- `v != null && typeof v === "object" && !Array.isArray(v)`
abbrev pub is_plain_object : Value → Bool
is_plain_object (object _) = true
is_plain_object _ = false

abbrev pub is_null : Value → Bool
is_null null = true
is_null _ = false

-- A value as a condition.
abbrev pub is_truthy : Value → Bool
is_truthy (text s) = not (is_empty s)
is_truthy (boolean b) = b
is_truthy (number n) = not (n == 0)
is_truthy null = false
is_truthy _ = true
