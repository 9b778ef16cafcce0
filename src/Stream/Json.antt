-- ===== src/Stream/Json.antt =====
-- JSON values as `JSON.parse` gives them, and the reads of `unknown` values that the stream code makes
-- (deepseek-stream.ts: `record`, `safeString`). The provider's numbers are codes, times and indices: they
-- are whole and not negative here.
use chat2api_web_gateway.Prelude.{
  ◌==◌, ◌===◌, if◌then◌else◌, ℕ, String, Bool, false, Option, none, some, List, [], ◌∷◌,
}

mutual
  pub data Json : Type 0 where
    null : Json
    boolean : Bool → Json
    number : ℕ → Json
    text : String → Json
    array : Items → Json
    object : Fields → Json

  pub data Items : Type 0 where
    no_items : Items
    item : Json → Items → Items

  pub data Fields : Type 0 where
    no_fields : Fields
    field : String → Json → Fields → Fields

unfoldable pub to_list : Items → List Json
to_list no_items = []
to_list (item value rest) = value ∷ to_list rest

-- `value.name`, where `none` is `undefined`.
unfoldable pub get_field : String → Fields → Option Json
get_field name no_fields = none
get_field name (field key value rest) = if key === name then some value else get_field name rest

unfoldable pub record_of : Option Json → Option Fields
record_of (some (object fields)) = some fields
record_of (some other) = none
record_of none = none

unfoldable pub safe_string : Option Json → String
safe_string (some (text s)) = s
safe_string (some other) = ""
safe_string none = ""

-- `root?.name`.
abbrev pub member : Option Fields → String → Option Json
member none name = none
member (some fields) name = get_field name fields

-- `typeof value === 'number' ? value : undefined`.
unfoldable pub number_of : Option Json → Option ℕ
number_of (some (number n)) = some n
number_of (some other) = none
number_of none = none

-- `typeof value === 'boolean' ? value : undefined`.
unfoldable pub boolean_of : Option Json → Option Bool
boolean_of (some (boolean b)) = some b
boolean_of (some other) = none
boolean_of none = none

-- `Array.isArray(value) ? value : undefined`.
unfoldable pub array_of : Option Json → Option (List Json)
unfolding to_list
array_of (some (array items)) = some (to_list items)
array_of (some other) = none
array_of none = none

-- `value === 'word'`.
unfoldable pub is_text : Option Json → String → Bool
is_text (some (text s)) word = s === word
is_text (some other) word = false
is_text none word = false

-- `value === true || value === 1`.
unfoldable pub is_true_or_1 : Option Json → Bool
is_true_or_1 (some (boolean b)) = b
is_true_or_1 (some (number n)) = n == 1
is_true_or_1 (some other) = false
is_true_or_1 none = false

-- `left ?? right`: `null` gives way as `undefined` does.
unfoldable pub or_else : Option Json → Option Json → Option Json
or_else none right = right
or_else (some null) right = right
or_else (some value) right = some value

-- `left ?? right` where the left side is a value or `undefined`.
abbrev pub first_of {ℓ} : {A : Type ℓ} → Option A → Option A → Option A
first_of none right = right
first_of (some value) right = some value
