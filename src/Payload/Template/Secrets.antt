-- ===== src/Payload/Template/Secrets.antt =====
-- The placeholders of secrets that a configuration holds.
use Prim.Native.String.{◌++◌}
use nd3x.Prelude.{
  sym, List, ◌∷◌, ℕ, zero, ◌≡◌, refl, ap, ◌∙◌, Bool, inl, inr, String, Option, [], Option-cases,
}
use nd3x.Prelude.Results.{returned}
use nd3x.Json.{Value, obj, arr, str, num, bool, null, ℤ, Fields, field, end, Items, cons, nil}
use nd3x.Payload.{Scope, resolve_read, resolve_reference}
use nd3x.Payload.Template.SameText.{replace_from-same}
use nd3x.Policy.Text.{replace_from}
use nd3x.Payload.Template.{
  spans, match_here, matches_from, or_unresolved, resolve_expression, interpolate, resolve_text,
  resolve_template_value, resolve_fields, resolve_items,
}
use nd3x.Payload.Template.SecretTexts.{
  placeholder, NamesSecret, read-secret, no_space, opened, InertText, AllSecret, none_left,
  one_more, matches_from-AllSecret, whole_match,
}

mutual
  pub data Inert : Value → Type 0 where
    inert_obj : {fs : Fields} → InertFields fs → Inert (obj fs)
    inert_arr : {xs : Items} → InertItems xs → Inert (arr xs)
    inert_str : {s : String} → InertText s → Inert (str s)
    inert_num : {n : ℤ} → Inert (num n)
    inert_bool : {b : Bool} → Inert (bool b)
    inert_null : Inert null

  pub data InertFields : Fields → Type 0 where
    inert_end : InertFields end
    inert_field :
        {k : String} {v : Value} {fs : Fields}
        → Inert v
        → InertFields fs
        → InertFields (field k v fs)

  pub data InertItems : Items → Type 0 where
    inert_nil : InertItems nil
    inert_cons : {v : Value} {xs : Items} → Inert v → InertItems xs → InertItems (cons v xs)

replace-placeholder :
    (e text : String) → replace_from zero (placeholder e) (placeholder e) text ≡ text
replace-placeholder e text =
    ap (λ p. replace_from zero p p text) (opened (e ++ "}"))
    ∙ replace_from-same "$" (String.◌∷◌ "{" (e ++ "}")) text

module _ (text_of : Value → String) (scope : Scope) (previous : Option ℕ) (allow_null : Bool) where
  resolve_expression-secret :
      (e : String)
      → NamesSecret e
      → resolve_expression text_of scope previous allow_null e ≡ returned (str (placeholder e))
  unfolding resolve_expression or_unresolved resolve_reference resolve_read
  resolve_expression-secret e h = rw (no_space e h, read-secret e h, resolve_expression) refl

  interpolate-AllSecret :
      (es : List String) (text : String)
      → AllSecret es
      → interpolate text_of scope previous allow_null es text ≡ returned text
  unfolding interpolate
  interpolate-AllSecret [] text none_left = refl
  interpolate-AllSecret (e ∷ es) text (one_more h hs) =
      rw (resolve_expression-secret e h, interpolate)
        (ap (interpolate text_of scope previous allow_null es) (replace-placeholder e text)
          ∙ interpolate-AllSecret es text hs)

  resolve_text-InertText :
      (s : String)
      → InertText s
      → resolve_text text_of scope previous allow_null s ≡ returned (str s)
  unfolding resolve_text
  resolve_text-InertText s h = elim (Option-cases (spans (match_here s))) [
    | inl e ↦
        rw (e, resolve_text)
          (rw (interpolate-AllSecret (matches_from zero s) s (matches_from-AllSecret s h)) refl)
    | inr (whole, e) ↦
        let (named, is) = whole_match s whole h e in
        rw (e, resolve_text)
          (resolve_expression-secret whole named ∙ ap (λ x. returned (str x)) (sym is))
  ]

  mutual
    unfolding resolve_template_value resolve_fields resolve_items

    value-Inert :
        (v : Value)
        → Inert v
        → resolve_template_value text_of scope previous allow_null v ≡ returned v
    value-Inert (obj fs) (inert_obj h) = rw (fields-Inert fs h) refl
    value-Inert (arr xs) (inert_arr h) = rw (items-Inert xs h) refl
    value-Inert (str s) (inert_str h) = resolve_text-InertText s h
    value-Inert (num n) inert_num = refl
    value-Inert (bool b) inert_bool = refl
    value-Inert null inert_null = refl

    fields-Inert :
        (fs : Fields)
        → InertFields fs
        → resolve_fields text_of scope previous allow_null fs ≡ returned fs
    fields-Inert end inert_end = refl
    fields-Inert (field k v fs) (inert_field h hs) = rw (value-Inert v h, fields-Inert fs hs) refl

    items-Inert :
        (xs : Items)
        → InertItems xs
        → resolve_items text_of scope previous allow_null xs ≡ returned xs
    items-Inert nil inert_nil = refl
    items-Inert (cons v xs) (inert_cons h hs) = rw (value-Inert v h, items-Inert xs hs) refl

  -- A configuration in whose texts each `$` opens a placeholder `${e}`, for an e that names a secret
  -- (it starts with "secret." or "secrets.", has no `}` and no white space around it), is left exactly
  -- as it is, whatever the run knows, however many placeholders a text has, and wherever in the
  -- configuration it stands: no placeholder of a secret is replaced, and none fails to resolve.
  pub resolve_template_value-Inert :
      (v : Value)
      → Inert v
      → resolve_template_value text_of scope previous allow_null v ≡ returned v
  resolve_template_value-Inert v h = value-Inert v h
