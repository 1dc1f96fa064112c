-- ===== src/Json.antt =====
-- serde_json's `Value` and `Map`: a map is a list of fields in the order of its keys, as the
-- `BTreeMap` behind it is. A number is an integer, or a float by its shortest decimal text.
pub mod Laws
use centaur_context.Common.{
  ◌==◌, Bool, true, false, ◌&&◌, ◌||◌, not, List, [], ◌∷◌, Option, none, some, ltb, if◌then◌else◌,
}
use centaur_context.Common.Integer.{ℤ, eq_ℤ}
use centaur_context.Text.{Text, text_eq}

mutual
  pub data Value : Type 0 where
    null : Value
    bool : Bool → Value
    int : ℤ → Value
    float : Text → Value
    string : Text → Value
    array : Items → Value
    object : Fields → Value

  pub data Items : Type 0 where
    nil : Items
    cons : Value → Items → Items

  pub data Fields : Type 0 where
    end : Fields
    field : Text → Value → Fields → Fields

-- The order of texts by their bytes, which is that of their scalar values.
unfoldable pub text_lt : Text → Text → Bool
text_lt [] [] = false
text_lt [] (_ ∷ _) = true
text_lt (_ ∷ _) [] = false
text_lt (a ∷ s) (b ∷ t) = ltb a b || a == b && text_lt s t

-- `map.get(key)`
unfoldable pub get : Text → Fields → Option Value
get key end = none
get key (field k v fs) = if text_eq k key then some v else get key fs

-- `map.insert(key, value)`
unfoldable pub insert : Text → Value → Fields → Fields
unfolding text_lt
insert key value end = field key value end
insert key value (field k v fs) =
    if text_eq k key
    then field key value fs
    else let later = field k v (insert key value fs) in
      if text_lt key k then field key value (field k v fs) else later

-- `map.remove(key)`
unfoldable pub remove : Text → Fields → Fields
remove key end = end
remove key (field k v fs) = let rest = remove key fs in if text_eq k key then fs else field k v rest

-- `a || b` of two jsonb objects: the fields of `b` win.
unfoldable pub merge : Fields → Fields → Fields
merge fs end = fs
merge fs (field k v gs) = merge (insert k v fs) gs

-- `value.as_str()`
abbrev pub as_str : Value → Option Text
as_str (string s) = some s
as_str _ = none

abbrev pub as_array : Value → Option Items
as_array (array xs) = some xs
as_array _ = none

abbrev pub as_object : Value → Option Fields
as_object (object fs) = some fs
as_object _ = none

abbrev pub is_object : Value → Bool
is_object (object _) = true
is_object _ = false

abbrev pub is_boolean : Value → Bool
is_boolean (bool _) = true
is_boolean _ = false

abbrev pub is_null : Value → Bool
is_null null = true
is_null _ = false

abbrev pub items : Items → List Value
items nil = []
items (cons v vs) = v ∷ items vs

abbrev pub to_items : List Value → Items
to_items [] = nil
to_items (v ∷ vs) = cons v (to_items vs)

abbrev pub keys : Fields → List Text
keys end = []
keys (field k _ fs) = k ∷ keys fs

abbrev pub map_is_empty : Fields → Bool
map_is_empty end = true
map_is_empty (field _ _ _) = false

abbrev bool_eq : Bool → Bool → Bool
bool_eq true b = b
bool_eq false b = not b

-- `==` on values.
unfoldable mutual
  pub value_eq : Value → Value → Bool
  value_eq null null = true
  value_eq (bool a) (bool b) = bool_eq a b
  value_eq (int m) (int n) = eq_ℤ m n
  value_eq (float s) (float t) = text_eq s t
  value_eq (string s) (string t) = text_eq s t
  value_eq (array xs) (array ys) = items_eq xs ys
  value_eq (object fs) (object gs) = fields_eq fs gs
  value_eq _ _ = false

  pub items_eq : Items → Items → Bool
  items_eq nil nil = true
  items_eq (cons v vs) (cons w ws) = value_eq v w && items_eq vs ws
  items_eq _ _ = false

  pub fields_eq : Fields → Fields → Bool
  fields_eq end end = true
  fields_eq (field j v fs) (field k w gs) = text_eq j k && value_eq v w && fields_eq fs gs
  fields_eq _ _ = false

-- A value that comes back from a `jsonb` column, whose numbers are decimal: `number` stands for what
-- a float is read back as.
unfoldable mutual
  pub jsonb : (Text → Value) → Value → Value
  jsonb number null = null
  jsonb number (bool b) = bool b
  jsonb number (int n) = int n
  jsonb number (float s) = number s
  jsonb number (string s) = string s
  jsonb number (array xs) = array (jsonb_items number xs)
  jsonb number (object fs) = object (jsonb_fields number fs)

  pub jsonb_items : (Text → Value) → Items → Items
  jsonb_items number nil = nil
  jsonb_items number (cons v vs) = cons (jsonb number v) (jsonb_items number vs)

  pub jsonb_fields : (Text → Value) → Fields → Fields
  jsonb_fields number end = end
  jsonb_fields number (field k v fs) = field k (jsonb number v) (jsonb_fields number fs)
