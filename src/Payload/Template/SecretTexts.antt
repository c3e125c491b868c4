-- ===== src/Payload/Template/SecretTexts.antt =====
-- The matches of `\$\{([^}]+)\}` in a text that holds placeholders of secrets.
use Prim.Native.Char.{Char, code}
use Prim.Native.String.{◌++◌}
use Prim.Native.String.append
use text.Mathlib.TextLemmas.{append-nil, append_assoc}
use nd3x.Prelude.{
  suc, sym, subst, List, ◌∷◌, zero, ◌≡◌, refl, ap, ◌∙◌, Bool, false, ◌||◌, inl, inr, arith, ◌==◌,
  String, none, some, [], Option-cases,
}
use nd3x.Policy.Text.{strip}
use nd3x.Payload.{secret, read_reference}
use nd3x.Payload.Words.{after_prefix}
use nd3x.Payload.Template.{text_length, spans, until_brace, match_here, matches_from}

abbrev pub has_brace : String → Bool
has_brace String.[] = false
has_brace (String.◌∷◌ c s) = code c == b'}' || has_brace s

abbrev pub has_dollar : String → Bool
has_dollar String.[] = false
has_dollar (String.◌∷◌ c s) = code c == b'$' || has_dollar s

abbrev pub placeholder : String → String
placeholder expression = "${" ++ (expression ++ "}")

-- The expression names a secret, by one of the two prefixes, without white space around it.
pub data NamesSecret (e : String) : Type 0 where
  of_secret :
      (name : String) → e ≡ "secret." ++ name → strip e ≡ e → has_brace e ≡ false → NamesSecret e
  of_secrets :
      (name : String) → e ≡ "secrets." ++ name → strip e ≡ e → has_brace e ≡ false → NamesSecret e

after_prefix-append : (p s : String) → after_prefix p (p ++ s) ≡ some s
unfolding after_prefix
after_prefix-append String.[] s = ap (after_prefix "") (append.nil s)
after_prefix-append (String.◌∷◌ c p) s =
    ap (after_prefix (String.◌∷◌ c p)) (append.cons c p s) ∙ ground (arith, after_prefix-append p s)

pub read-secret : (e : String) → NamesSecret e → read_reference e ≡ secret
unfolding read_reference
read-secret e (of_secret name is h k) =
    rw (ap (after_prefix "secret.") is ∙ after_prefix-append "secret." name, read_reference) refl
read-secret e (of_secrets name is h k) = elim (Option-cases (after_prefix "secret." e)) [
  | inr (rest, f) ↦ rw (f, read_reference) refl
  | inl f ↦
      rw (f, ap (after_prefix "secrets.") is ∙ after_prefix-append "secrets." name, read_reference)
        refl
]

abbrev closed : String → String → String
closed e rest = e ++ String.◌∷◌ "}" rest

until_brace-closed :
    (e rest : String) → has_brace e ≡ false → until_brace (closed e rest) ≡ some (e, rest)
unfolding until_brace
until_brace-closed String.[] rest h = ap until_brace (append.nil (String.◌∷◌ "}" rest))
until_brace-closed (String.◌∷◌ c e) rest h =
    let none_here : (code c == b'}') ≡ false = ground arith in
    let none_later : has_brace e ≡ false = ground arith in
    ap until_brace (append.cons c e (String.◌∷◌ "}" rest))
    ∙ rw (none_here, until_brace) (rw (until_brace-closed e rest none_later) refl)

closed-append : (e rest : String) → (e ++ "}") ++ rest ≡ closed e rest
closed-append e rest =
    append_assoc e "}" rest
    ∙ ap (λ (x : String). e ++ x)
        (append.cons "}" "" rest ∙ ap (λ (x : String). String.◌∷◌ "}" x) (append.nil rest))

pub opened : (t : String) → "${" ++ t ≡ String.◌∷◌ "$" (String.◌∷◌ "{" t)
opened t =
    append.cons "$" "{" t
    ∙ ap (λ (u : String). String.◌∷◌ "$" u)
        (append.cons "{" "" t ∙ ap (λ (u : String). String.◌∷◌ "{" u) (append.nil t))

no_brace : (e : String) → NamesSecret e → has_brace e ≡ false
no_brace e (of_secret name is same h) = h
no_brace e (of_secrets name is same h) = h

pub no_space : (e : String) → NamesSecret e → strip e ≡ e
no_space e (of_secret name is same h) = same
no_space e (of_secrets name is same h) = same

no_name : read_reference "" ≡ secret → ⊥
unfolding read_reference
no_name h = cc

abbrev opening : String → String → String
opening e rest = String.◌∷◌ "$" (String.◌∷◌ "{" (closed e rest))

opening-placeholder : (e rest : String) → placeholder e ++ rest ≡ opening e rest
opening-placeholder e rest =
    ap (λ (x : String). x ++ rest) (opened (e ++ "}"))
    ∙ append.cons "$" (String.◌∷◌ "{" (e ++ "}")) rest
    ∙ ap (λ (x : String). String.◌∷◌ "$" x)
        (append.cons "{" (e ++ "}") rest
          ∙ ap (λ (x : String). String.◌∷◌ "{" x) (closed-append e rest))

match_here-opening :
    (e rest : String) → NamesSecret e → match_here (opening e rest) ≡ some (e, rest)
unfolding match_here
match_here-opening String.[] rest h = absurd (no_name (read-secret "" h))
match_here-opening (String.◌∷◌ c e) rest h =
    rw (until_brace-closed (String.◌∷◌ c e) rest (no_brace (String.◌∷◌ c e) h)) refl

match_here-other :
    (c : Char) (s : String) → (code c == b'$') ≡ false → match_here (String.◌∷◌ c s) ≡ none
unfolding match_here
match_here-other c s h = rw (h) refl

matches_from-other :
    (pre s : String) → has_dollar pre ≡ false → matches_from zero (pre ++ s) ≡ matches_from zero s
unfolding matches_from
matches_from-other String.[] s h = ap (matches_from zero) (append.nil s)
matches_from-other (String.◌∷◌ c pre) s h =
    let none_here : (code c == b'$') ≡ false = ground arith in
    let none_later : has_dollar pre ≡ false = ground arith in
    ap (matches_from zero) (append.cons c pre s)
    ∙ rw (match_here-other c (pre ++ s) none_here, matches_from)
        (matches_from-other pre s none_later)

matches_from-closed :
    (e rest : String) → matches_from (suc (text_length e)) (closed e rest) ≡ matches_from zero rest
unfolding matches_from
matches_from-closed String.[] rest = ap (matches_from 1) (append.nil (String.◌∷◌ "}" rest))
matches_from-closed (String.◌∷◌ c e) rest =
    ap (matches_from (suc (suc (text_length e)))) (append.cons c e (String.◌∷◌ "}" rest))
    ∙ matches_from-closed e rest

matches_from-opening :
    (e rest : String)
    → NamesSecret e
    → matches_from zero (opening e rest) ≡ e ∷ matches_from zero rest
unfolding matches_from
matches_from-opening e rest h =
    rw (match_here-opening e rest h, matches_from)
      (ap (λ (x : List String). e ∷ x) (matches_from-closed e rest))

matches_from-plain : (s : String) → has_dollar s ≡ false → matches_from zero s ≡ []
unfolding matches_from
matches_from-plain String.[] h = refl
matches_from-plain (String.◌∷◌ c s) h =
    let none_here : (code c == b'$') ≡ false = ground arith in
    let none_later : has_dollar s ≡ false = ground arith in
    rw (match_here-other c s none_here, matches_from) (matches_from-plain s none_later)

-- A text in which each `$` opens the placeholder of a secret.
pub data InertText : String → Type 0 where
  plain : {s : String} → has_dollar s ≡ false → InertText s
  piece :
      {s : String} (before e after : String)
      → s ≡ before ++ (placeholder e ++ after)
      → has_dollar before ≡ false
      → NamesSecret e
      → InertText after
      → InertText s

pub data AllSecret : List String → Type 0 where
  none_left : AllSecret []
  one_more : {e : String} {es : List String} → NamesSecret e → AllSecret es → AllSecret (e ∷ es)

pub matches_from-AllSecret : (s : String) → InertText s → AllSecret (matches_from zero s)
matches_from-AllSecret s (plain h) = subst AllSecret (sym (matches_from-plain s h)) none_left
matches_from-AllSecret s (piece before e after is h named later) =
    subst AllSecret
      (sym (
        ap (matches_from zero) is
        ∙ matches_from-other before (placeholder e ++ after) h
        ∙ ap (matches_from zero) (opening-placeholder e after)
        ∙ matches_from-opening e after named))
      (one_more named (matches_from-AllSecret after later))

match_here-plain : (s : String) → has_dollar s ≡ false → match_here s ≡ none
unfolding match_here
match_here-plain String.[] h = refl
match_here-plain (String.◌∷◌ c s) h =
    let none_here : (code c == b'$') ≡ false = ground arith in match_here-other c s none_here

spans-some :
    (e after whole : String) → spans (some (e, after)) ≡ some whole → (whole ≡ e) × (after ≡ "")
spans-some e String.[] whole h = (cc, refl)
spans-some e (String.◌∷◌ c after) whole h = cc

-- A match that spans the whole text names a secret.
pub whole_match :
    (s whole : String)
    → InertText s
    → spans (match_here s) ≡ some whole
    → NamesSecret whole × (s ≡ placeholder whole)
whole_match s whole (plain h) e = cc (match_here-plain s h, e)
whole_match s whole (piece String.[] name after is h named later) e =
    let starts : s ≡ placeholder name ++ after = is ∙ append.nil (placeholder name ++ after) in
    let (same, ends) = spans-some name after whole (
      ap spans (
        sym (
          ap match_here (starts ∙ opening-placeholder name after)
          ∙ match_here-opening name after named))
      ∙ e) in
    (
      subst NamesSecret (sym same) named,
      starts
          ∙ ap (λ (x : String). placeholder name ++ x) ends
          ∙ append-nil (placeholder name)
          ∙ ap placeholder (sym same),
    )
whole_match s whole (piece (String.◌∷◌ c before) name after is h named later) e =
    let none_here : (code c == b'$') ≡ false = ground arith in
    cc (
      ap match_here (is ∙ append.cons c before (placeholder name ++ after))
          ∙ match_here-other c (before ++ (placeholder name ++ after)) none_here,
      e,
    )
