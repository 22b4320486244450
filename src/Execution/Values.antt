-- ===== src/Execution/Values.antt =====
-- The values that requests and responses are made of, `undefined` among them, and what the
-- source asks of them.
use lrzwasnla.Common.{
  [], ◌∷◌, Dict, ℕ, suc, String, Bool, true, false, not, Option, none, some, ℤ, pos, codes, length,
  ◌==◌, ◌===◌, if◌then◌else◌,
}

mutual
  pub data Json : Type 0 where
    undefined null : Json
    boolean : Bool → Json
    number : ℤ → Json
    text : String → Json
    array : Items → Json
    object : Members → Json

  pub data Items : Type 0 where
    end : Items
    item : Json → Items → Items

  pub data Members : Type 0 where
    empty : Members
    member : String → Json → Members → Members

abbrev pub is_zero : ℤ → Bool
is_zero (pos n) = n == 0
is_zero _ = false

-- `!!value`
unfoldable pub is_true : Json → Bool
is_true undefined = false
is_true null = false
is_true (boolean b) = b
is_true (number n) = not (is_zero n)
is_true (text s) = not (s === "")
is_true (array _) = true
is_true (object _) = true

-- `value === undefined`
unfoldable pub is_undefined : Json → Bool
is_undefined undefined = true
is_undefined _ = false

unfoldable pub is_null : Json → Bool
is_null null = true
is_null _ = false

-- `Array.isArray(value)`
unfoldable pub is_array : Json → Bool
is_array (array _) = true
is_array _ = false

-- `typeof value === 'object'`
unfoldable pub is_object : Json → Bool
is_object null = true
is_object (array _) = true
is_object (object _) = true
is_object _ = false

unfoldable pub find : Members → String → Json
find empty name = undefined
find (member other value rest) name = if other === name then value else find rest name

-- `value?.name`, for names that no text, number or array has
unfoldable pub get : Json → String → Json
unfolding find
get (object members) name = find members name
get _ name = undefined

unfoldable pub count : Members → ℕ
count empty = 0
count (member name value rest) = suc (count rest)

unfoldable pub count_items : Items → ℕ
count_items end = 0
count_items (item value rest) = suc (count_items rest)

-- `Object.keys(value).length`, which throws on `undefined` and `null`
unfoldable pub count_keys : Json → Option ℕ
unfolding count count_items
count_keys undefined = none
count_keys null = none
count_keys (text s) = some (length (codes s))
count_keys (array items) = some (count_items items)
count_keys (object members) = some (count members)
count_keys _ = some 0

-- `value.length > 0 ? value[0] : undefined` on what can have a length, none where there is none
unfoldable pub first : Json → Option Json
first (array (item value rest)) = some value
first (text (String.◌∷◌ c s)) = some (text (String.◌∷◌ c String.[]))
first _ = none

abbrev pub to_members : Dict Json → Members
to_members [] = empty
to_members ((name, value) ∷ rest) = member name value (to_members rest)

abbrev pub to_json : Option String → Json
to_json none = undefined
to_json (some s) = text s
