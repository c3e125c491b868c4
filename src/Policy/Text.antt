-- ===== src/Policy/Text.antt =====
-- The Python text operations of the policy: strip, replace, and the preview of a command.
use Prim.Native.Char.{Char, code}
use nd3x.Prelude.{
  ℕ, zero, suc, ◌-◌, Bool, true, false, ◌&&◌, ◌||◌, String, Option, none, some, ◌==◌, leb,
  if◌then◌else◌,
}
use text.Mathlib.Text.{starts_with, find?}
use Prim.Native.String.{◌++◌, count}

-- str.isspace() of one character
abbrev pub is_space : Char → Bool
is_space c =
    let n = code c in
    (leb 9 n && leb n 13)
    || (leb 28 n && leb n 32)
    || n == 133
    || n == 160
    || n == 5760
    || (leb 8192 n && leb n 8202)
    || n == 8232
    || n == 8233
    || n == 8239
    || n == 8287
    || n == 12288

abbrev pub is_empty_text : String → Bool
is_empty_text String.[] = true
is_empty_text _ = false

unfoldable pub strip_left : String → String
strip_left String.[] = ""
strip_left (String.◌∷◌ c s) = let rest = strip_left s in if is_space c then rest else String.◌∷◌ c s

unfoldable pub strip_right : String → String
strip_right String.[] = ""
strip_right (String.◌∷◌ c s) =
    let rest = strip_right s in if is_empty_text rest && is_space c then "" else String.◌∷◌ c rest

-- s.strip()
unfoldable pub strip : String → String
unfolding strip_left strip_right
strip s = strip_right (strip_left s)

-- not s.strip()
abbrev pub is_blank : String → Bool
is_blank s = is_empty_text (strip s)

abbrev pub is_some {ℓ} : {A : Type ℓ} → Option A → Bool
is_some none = false
is_some (some a) = true

-- part in s
abbrev pub contains : String → String → Bool
contains part s = is_some (find? s part)

-- s.replace(old, new) for an `old` that is not empty: `skip` is what is left of an occurrence.
unfoldable pub replace_from : ℕ → String → String → String → String
replace_from skip old new String.[] = ""
replace_from (suc skip) old new (String.◌∷◌ c s) = replace_from skip old new s
replace_from zero old new (String.◌∷◌ c s) =
    let inside = replace_from (count old - 1) old new s in
    let outside = replace_from zero old new s in
    if starts_with (String.◌∷◌ c s) old then new ++ inside else String.◌∷◌ c outside

abbrev pub replace : String → String → String → String
replace = replace_from zero

-- " ".join(s.split()), where `gap` says that white space was passed after a word
unfoldable pub join_words : Bool → Bool → String → String
join_words started gap String.[] = ""
join_words started gap (String.◌∷◌ c s) =
    let after_space = join_words started started s in
    let after_char = join_words true false s in
    if is_space c
    then after_space
    else (if gap then " " ++ String.◌∷◌ c after_char else String.◌∷◌ c after_char)

-- s[:n]
unfoldable pub take_chars : ℕ → String → String
take_chars zero s = ""
take_chars (suc n) String.[] = ""
take_chars (suc n) (String.◌∷◌ c s) = String.◌∷◌ c (take_chars n s)

-- _command_preview, with its default length
unfoldable pub command_preview : String → String
unfolding join_words take_chars
command_preview command =
    let compact = join_words false false command in
    if leb (count compact) 200 then compact else take_chars (200 - 3) compact ++ "..."
