-- ===== src/Base/Values.antt =====
-- JSON values as the code reads them. A number is a natural one, as are the turns, steps, sequence
-- numbers and token counts that are read, or `not_finite`, which the readers refuse.
use Prim.Native.Nat.{ℕ}
use Prim.Native.String.{String}
use mathlib.Core.Bool.{Bool}
use mathlib.Core.Option.{Option, none, some}
use mathlib.Core.List.{List, [], ◌∷◌}
use text.Mathlib.Text.{◌==◌ as str_eq}
use dsh_ai_coding.Base.Tests.{if◌then◌else◌}

mutual
  pub data Json : Type 0 where
    null : Json
    boolean : Bool → Json
    number : ℕ → Json
    not_finite : Json
    string : String → Json
    array : JsonItems → Json
    object : JsonFields → Json

  pub data JsonItems : Type 0 where
    stop : JsonItems
    item : Json → JsonItems → JsonItems

  pub data JsonFields : Type 0 where
    closed : JsonFields
    field : String → Json → JsonFields → JsonFields

-- The value of a field; `none` is `undefined`. A key stands once in a value that was parsed.
abbrev pub field_of : String → JsonFields → Option Json
field_of key closed = none
field_of key (field k v rest) =
    let later = field_of key rest in if str_eq k key then some v else later

abbrev pub items_of : JsonItems → List Json
items_of stop = []
items_of (item x xs) = x ∷ items_of xs

-- `typeof value === 'object' && value !== null && !Array.isArray(value)`.
abbrev pub record_of : Option Json → Option JsonFields
record_of (some (object fields)) = some fields
record_of _ = none

-- A text that is not empty.
abbrev pub nonempty : Option Json → Option String
nonempty (some (string String.[])) = none
nonempty (some (string s)) = some s
nonempty _ = none

abbrev pub boolean_of : Option Json → Option Bool
boolean_of (some (boolean b)) = some b
boolean_of _ = none

abbrev pub finite_of : Option Json → Option ℕ
finite_of (some (number n)) = some n
finite_of _ = none
