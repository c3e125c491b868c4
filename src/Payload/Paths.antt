-- ===== src/Payload/Paths.antt =====
-- Paths into JSON values compose.
use Prim.Native.Char.{Char, code}
use Prim.Native.String.{◌++◌}
use Prim.Native.String.append
use nd3x.Prelude.{
  ◌≡◌, ◌≢◌, refl, ap, ◌∙◌, sym, inl, inr, ◌==◌, String, Option, none, some, List, [], ◌∷◌,
  Bool-cases, Option-cases,
}
use mathlib.Core.List
use nd3x.Json.{Value}
use nd3x.Payload.{get_part, walk, path_get}
use nd3x.Payload.Words.{push_char, split_dots}

-- A text has at least one word.
split_dots-some : (s : String) → (w : String) × (ws : List String) × (split_dots s ≡ w ∷ ws)
unfolding split_dots
split_dots-some String.[] = ("", [], refl)
split_dots-some (String.◌∷◌ c s) =
    let (w, ws, e) = split_dots-some s in
    elim (Bool-cases (code c == b'.')) [
      | inl d ↦ ("", w ∷ ws, rw e (rw d refl))
      | inr d ↦ (String.◌∷◌ c w, ws, rw e (rw d refl))
    ]

push_char-append :
    (c : Char) (w : String) (ws more : List String)
    → push_char c (w ∷ List.◌++◌ ws more) ≡ List.◌++◌ (push_char c (w ∷ ws)) more
push_char-append c w ws more = elim (Bool-cases (code c == b'.')) [
  | inl d ↦ rw d refl
  | inr d ↦ rw d refl
]

split_dots-join :
    (p q : String) → split_dots (p ++ ("." ++ q)) ≡ List.◌++◌ (split_dots p) (split_dots q)
unfolding split_dots
split_dots-join String.[] q =
    let dot : Char = "." in
    let (w, ws, e) = split_dots-some q in
    ap split_dots (
      append.nil ("." ++ q)
      ∙ append.cons dot "" q
      ∙ ap (λ (t : String). String.◌∷◌ dot t) (append.nil q))
    ∙ ap (push_char dot) e
    ∙ ap (λ (l : List String). "" ∷ l) (sym e)
split_dots-join (String.◌∷◌ c p) q =
    let (w, ws, e) = split_dots-some p in
    ap split_dots (append.cons c p ("." ++ q))
    ∙ ap (push_char c) (split_dots-join p q ∙ ap (λ l. List.◌++◌ l (split_dots q)) e)
    ∙ push_char-append c w ws (split_dots q)
    ∙ ap (λ l. List.◌++◌ (push_char c l) (split_dots q)) (sym e)

abbrev pub walk_option : List String → Option Value → Option Value
walk_option parts none = none
walk_option parts (some v) = walk parts v

walk-append :
    (ps qs : List String) (v : Value) → walk (List.◌++◌ ps qs) v ≡ walk_option qs (walk ps v)
unfolding walk
walk-append [] qs v = refl
walk-append (p ∷ ps) qs v = elim (Option-cases (get_part p v)) [
  | inl e ↦ rw (e, walk) refl
  | inr (w, e) ↦ rw (e, walk) (walk-append ps qs w)
]

abbrev pub below : Option String → Option Value → Option Value
below path none = none
below path (some v) = path_get v path

path_get-walk : (s : String) (v : Value) → s ≢ "" → path_get v (some s) ≡ walk (split_dots s) v
unfolding path_get
path_get-walk String.[] v h = absurd (h refl)
path_get-walk (String.◌∷◌ c s) v h = refl

walk-below :
    (q : String) (o : Option Value) → q ≢ "" → walk_option (split_dots q) o ≡ below (some q) o
walk-below q none h = refl
walk-below q (some v) h = sym (path_get-walk q v h)

-- A path `p.q` leads from a value to where the path `q` leads from what is found at `p`, and to
-- nothing where `p` does, if neither of the two is empty.
path_get-join :
    (p q : String) (v : Value)
    → p ≢ ""
    → q ≢ ""
    → path_get v (some (p ++ ("." ++ q))) ≡ below (some q) (path_get v (some p))
path_get-join String.[] q v hp hq = absurd (hp refl)
path_get-join (String.◌∷◌ c p) q v hp hq =
    ap (λ (s : String). path_get v (some s)) (append.cons c p ("." ++ q))
    ∙ path_get-walk (String.◌∷◌ c (p ++ ("." ++ q))) v cons-ne
    ∙ ap (λ (l : List String). walk l v)
        (ap split_dots (sym (append.cons c p ("." ++ q))) ∙ split_dots-join (String.◌∷◌ c p) q)
    ∙ walk-append (split_dots (String.◌∷◌ c p)) (split_dots q) v
    ∙ ap (walk_option (split_dots q)) (sym (path_get-walk (String.◌∷◌ c p) v hp))
    ∙ walk-below q (path_get v (some (String.◌∷◌ c p))) hq
  where
    cons-ne : String.◌∷◌ c (p ++ ("." ++ q)) ≢ ""
    cons-ne h = cc
