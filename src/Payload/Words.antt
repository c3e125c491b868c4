-- ===== src/Payload/Words.antt =====
-- The Python operations on texts and JSON values that the resolution of payloads uses. Digits are
-- those of ASCII.
use Prim.Native.Char.{Char, code}
use nd3x.Prelude.{
  ℕ, zero, suc, ◌+◌, ◌-◌, ◌*◌, Bool, true, false, ◌&&◌, String, Option, none, some, List, [], ◌∷◌,
  ◌==◌, leb, str_eq, if◌then◌else◌,
}
use nd3x.Json.{
  ℤ, pos, negsuc, Value, obj, arr, str, num, bool, null, Fields, field, end, Items, cons, nil,
}
use nd3x.Policy.Text.{strip}

-- A character in front of the words that are split already: a dot starts a new word.
abbrev pub push_char : Char → List String → List String
push_char c [] = "" ∷ []
push_char c (word ∷ words) = if code c == b'.' then "" ∷ word ∷ words else String.◌∷◌ c word ∷ words

-- s.split(".")
unfoldable pub split_dots : String → List String
split_dots String.[] = "" ∷ []
split_dots (String.◌∷◌ c s) = push_char c (split_dots s)

abbrev pub is_digit : Char → Bool
is_digit c = leb b'0' (code c) && leb (code c) b'9'

abbrev pub all_digits : String → Bool
all_digits String.[] = true
all_digits (String.◌∷◌ c s) = is_digit c && all_digits s

-- s.isdigit()
abbrev pub isdigit : String → Bool
isdigit String.[] = false
isdigit (String.◌∷◌ c s) = is_digit c && all_digits s

unfoldable pub digits_from : ℕ → String → ℕ
digits_from n String.[] = n
digits_from n (String.◌∷◌ c s) = digits_from (n * 10 + (code c - b'0')) s

-- int(s) of digits
abbrev pub number_of : String → ℕ
number_of = digits_from 0

-- s[len(prefix):], if s.startswith(prefix)
unfoldable pub after_prefix : String → String → Option String
after_prefix String.[] s = some s
after_prefix (String.◌∷◌ c p) String.[] = none
after_prefix (String.◌∷◌ c p) (String.◌∷◌ d s) =
    let rest = after_prefix p s in if code c == code d then rest else none

-- s.lstrip(".")
unfoldable pub strip_dots : String → String
strip_dots String.[] = ""
strip_dots (String.◌∷◌ c s) =
    let rest = strip_dots s in if code c == b'.' then rest else String.◌∷◌ c s

-- s.partition("."), without the dot
unfoldable pub partition_dot : String → String × String
partition_dot String.[] = ("", "")
partition_dot (String.◌∷◌ c s) =
    let (before, after) = partition_dot s in
    if code c == b'.' then ("", s) else (String.◌∷◌ c before, after)

abbrev signed : ℕ → ℤ
signed zero = pos 0
signed (suc n) = negsuc n

abbrev digits_to : (ℕ → ℤ) → String → Option ℤ
digits_to sign s = if isdigit s then some (sign (number_of s)) else none

abbrev int_text : String → Option ℤ
int_text String.[] = none
int_text (String.◌∷◌ c s) =
    if code c == b'-'
    then digits_to signed s
    else (if code c == b'+' then digits_to pos s else digits_to pos (String.◌∷◌ c s))

-- int(value), with the exception that it raises as a missing result; no underscores
unfoldable pub int_of : Value → Option ℤ
unfolding digits_from
int_of (num n) = some n
int_of (bool true) = some (pos 1)
int_of (bool false) = some (pos 0)
int_of (str s) = int_text (strip s)
int_of _ = none

abbrev pub int_eq : ℤ → ℤ → Bool
int_eq (pos m) (pos n) = m == n
int_eq (negsuc m) (negsuc n) = m == n
int_eq _ _ = false

abbrev pub of_bool : Bool → ℤ
of_bool true = pos 1
of_bool false = pos 0

-- An int or a bool is compared with a number as a number.
abbrev pub is_number : ℤ → Value → Bool
is_number n (num m) = int_eq n m
is_number n (bool b) = int_eq n (of_bool b)
is_number n _ = false

abbrev pub is_text_value : String → Value → Bool
is_text_value s (str t) = str_eq s t
is_text_value s _ = false

abbrev pub is_null : Value → Bool
is_null null = true
is_null _ = false

abbrev pub field? : String → Fields → Option Value
field? k end = none
field? k (field j v fs) = if str_eq j k then some v else field? k fs

abbrev pub item? : ℕ → Items → Option Value
item? n nil = none
item? zero (cons v xs) = some v
item? (suc n) (cons v xs) = item? n xs

abbrev pub size : Fields → ℕ
size end = 0
size (field k v fs) = suc (size fs)

unfoldable mutual
  -- left == right: dicts are equal whatever the order of their keys.
  pub value_eq : Value → Value → Bool
  value_eq null w = is_null w
  value_eq (bool b) w = is_number (of_bool b) w
  value_eq (num n) w = is_number n w
  value_eq (str s) w = is_text_value s w
  value_eq (arr xs) (arr ys) = items_eq xs ys
  value_eq (arr xs) _ = false
  value_eq (obj fs) (obj gs) = (size fs == size gs) && fields_eq fs gs
  value_eq (obj fs) _ = false

  pub items_eq : Items → Items → Bool
  items_eq nil nil = true
  items_eq nil (cons w ys) = false
  items_eq (cons v xs) nil = false
  items_eq (cons v xs) (cons w ys) = value_eq v w && items_eq xs ys

  pub fields_eq : Fields → Fields → Bool
  fields_eq end gs = true
  fields_eq (field k v fs) gs =
      elim (field? k gs) [ none ↦ false | some w ↦ value_eq v w ] && fields_eq fs gs
