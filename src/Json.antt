-- ===== src/Json.antt =====
-- JSON values as the modules under src/modules read them: the answers of the RPC, the arguments of a
-- contract call, and what `JSON.parse` returns. The keys of an object are in the order of the text,
-- each once; those of an array are its indices. A number is a natural number.
use fast_auth_indexer_api.Prelude.{
  ℕ, Bool, true, false, Option, none, some, List, [], ◌∷◌, ltb, if◌then◌else◌, Text, eq_text,
}

mutual
  pub data Json : Type 0 where
    null : Json
    boolean : Bool → Json
    numeral : ℕ → Json
    string : Text → Json
    array : Fields → Json
    object : Fields → Json

  pub data Fields : Type 0 where
    end : Fields
    field : Text → Json → Fields → Fields

unfoldable pub lookup : Text → Fields → Option Json
lookup name end = none
lookup name (field n value fields) = if eq_text n name then some value else lookup name fields

-- A value that `!value` lets pass.
unfoldable pub is_truthy : Json → Bool
is_truthy null = false
is_truthy (boolean b) = b
is_truthy (numeral n) = ltb 0 n
is_truthy (string []) = false
is_truthy (string (c ∷ s)) = true
is_truthy (array items) = true
is_truthy (object fields) = true

-- `value.name`, where `value` is of the type "object": an array has its indices only.
unfoldable pub member : Text → Json → Option Json
unfolding lookup
member name (object fields) = lookup name fields
member name (array items) = lookup name items
member name _ = none

-- `value && typeof value === "object"`
unfoldable pub object_like : Option Json → Option Json
object_like (some (object fields)) = some (object fields)
object_like (some (array items)) = some (array items)
object_like _ = none

-- `typeof value === "string" ? value : null`
unfoldable pub as_string : Option Json → Option Text
as_string (some (string s)) = some s
as_string _ = none

-- `const [name] = Object.keys(value)`
unfoldable pub first_key : Json → Option Text
first_key (object (field name value fields)) = some name
first_key (array (field name value fields)) = some name
first_key _ = none

-- The items of an array.
unfoldable pub items_of : Fields → List Json
items_of end = []
items_of (field name value fields) = value ∷ items_of fields
