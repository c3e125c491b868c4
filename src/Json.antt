-- ===== src/Json.antt =====
-- The values that the program keeps in its JSON columns and passes between operations, with the
-- Python operations on them that the modelled code uses. Numbers are whole.
use nd3x.Prelude.{
  ℕ, zero, ◌≡◌, Bool, true, false, Option, none, some, String, arith, str_eq, eq_iff, if◌then◌else◌,
}

pub data ℤ : Type 0 where
  pos : ℕ → ℤ
  negsuc : ℕ → ℤ

mutual
  -- A dict in insertion order.
  pub data Fields : Type 0 where
    field : String → Value → Fields → Fields
    end : Fields

  pub data Value : Type 0 where
    obj : Fields → Value
    arr : Items → Value
    str : String → Value
    num : ℤ → Value
    bool : Bool → Value
    null : Value

  pub data Items : Type 0 where
    cons : Value → Items → Items
    nil : Items

-- bool(value)
abbrev pub truthy : Value → Bool
truthy null = false
truthy (bool b) = b
truthy (num (pos zero)) = false
truthy (num _) = true
truthy (str String.[]) = false
truthy (str _) = true
truthy (arr nil) = false
truthy (arr _) = true
truthy (obj end) = false
truthy (obj _) = true

-- `a or b`
abbrev pub or_value : Value → Value → Value
or_value a b = if truthy a then a else b

abbrev pub empty_dict : Value
empty_dict = obj end

-- d.get(key), with None where the key is missing
abbrev pub get_field : String → Fields → Value
get_field k end = null
get_field k (field j v fs) = if str_eq j k then v else get_field k fs

-- d.get(key) of a value that should be a dict; the model reads any other value as having no keys.
abbrev pub get_key : String → Value → Value
get_key k (obj fs) = get_field k fs
get_key k _ = null

-- key in d
abbrev pub has_key : String → Fields → Bool
has_key k end = false
has_key k (field j v fs) = if str_eq j k then true else has_key k fs

-- d[key] = v
unfoldable pub put_field : String → Value → Fields → Fields
put_field k v end = field k v end
put_field k v (field j w fs) = if str_eq j k then field k v fs else field j w (put_field k v fs)

abbrev pub append_items : Items → Items → Items
append_items nil ys = ys
append_items (cons x xs) ys = cons x (append_items xs ys)

pub get_field-put_field_self :
    (k : String) (v : Value) (fs : Fields) → get_field k (put_field k v fs) ≡ v
unfolding put_field
get_field-put_field_self k v end = ground (arith, eq_iff k k)
get_field-put_field_self k v (field j w fs) =
    ground (arith, eq_iff k k, eq_iff j k, get_field-put_field_self k v fs)

-- list(v): the items of a list, the keys of a dict, the characters of a text, and a TypeError
-- (`none`) for a value that cannot be iterated.
abbrev characters : String → Items
characters String.[] = nil
characters (String.◌∷◌ c s) = cons (str (String.◌∷◌ c String.[])) (characters s)

abbrev keys : Fields → Items
keys end = nil
keys (field k v fs) = cons (str k) (keys fs)

abbrev pub list_of : Value → Option Items
list_of (arr xs) = some xs
list_of (obj fs) = some (keys fs)
list_of (str s) = some (characters s)
list_of _ = none

-- list(v or [])
abbrev pub list_or_empty : Value → Option Items
list_or_empty v = if truthy v then list_of v else some nil
