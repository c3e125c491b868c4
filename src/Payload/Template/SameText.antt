-- ===== src/Payload/Template/SameText.antt =====
-- `s.replace(old, old)`, of the texts that a configuration holds.
use Prim.Native.Char.{Char}
use Prim.Native.String.{◌++◌, count}
use Prim.Native.String.append
use Prim.Native.String.count
use text.Mathlib.Text.{starts_with}
use text.Mathlib.TextEquality.{starts_with_iff}
use nd3x.Prelude.{
  ℕ, zero, suc, ◌-◌, ◌≡◌, refl, sym, ap, ◌∙◌, true, arith, String, inl, inr, Bool-cases,
}
use nd3x.Policy.Text.{replace_from}

-- The characters after the first n.
drop : ℕ → String → String
drop zero s = s
drop (suc n) String.[] = ""
drop (suc n) (String.◌∷◌ c s) = drop n s

drop-append : (p r : String) → drop (count p) (p ++ r) ≡ r
unfolding drop
drop-append String.[] r = append.nil r
drop-append (String.◌∷◌ c p) r =
    ap (drop (count (String.◌∷◌ c p))) (append.cons c p r)
    ∙ ap (λ n. drop n (String.◌∷◌ c (p ++ r))) (count.cons c p)
    ∙ drop-append p r

starts_with-rest :
    (a c : Char) (p s : String)
    → starts_with (String.◌∷◌ c s) (String.◌∷◌ a p) ≡ true
    → String.◌∷◌ a p ++ drop (count p) s ≡ String.◌∷◌ c s
unfolding drop
starts_with-rest a c p s h =
    let (r, e) = (starts_with_iff (String.◌∷◌ c s) (String.◌∷◌ a p)).0 h in
    let tails : p ++ r ≡ s = ap (drop 1) (sym (append.cons a p r) ∙ e) in
    ap (λ x. String.◌∷◌ a p ++ drop (count p) x) (sym tails)
    ∙ ap (λ x. String.◌∷◌ a p ++ x) (drop-append p r)
    ∙ e

one_less : (a : Char) (p : String) → count (String.◌∷◌ a p) - 1 ≡ count p
one_less a p = ap (λ n. n - 1) (count.cons a p) ∙ omega arith

replaced :
    (a : Char) (p : String) (skip : ℕ) (s : String)
    → replace_from skip (String.◌∷◌ a p) (String.◌∷◌ a p) s ≡ drop skip s
unfolding drop replace_from
replaced a p zero String.[] = refl
replaced a p (suc skip) String.[] = refl
replaced a p (suc skip) (String.◌∷◌ c s) = replaced a p skip s
replaced a p zero (String.◌∷◌ c s) =
    elim (Bool-cases (starts_with (String.◌∷◌ c s) (String.◌∷◌ a p))) [
      | inl e ↦ rw (e) (
          ap (λ n. String.◌∷◌ a p ++ replace_from n (String.◌∷◌ a p) (String.◌∷◌ a p) s)
            (one_less a p)
          ∙ ap (λ x. String.◌∷◌ a p ++ x) (replaced a p (count p) s)
          ∙ starts_with-rest a c p s e)
      | inr e ↦ rw (e) (ap (λ (x : String). String.◌∷◌ c x) (replaced a p zero s))
    ]

pub replace_from-same :
    (a : Char) (p s : String) → replace_from zero (String.◌∷◌ a p) (String.◌∷◌ a p) s ≡ s
unfolding drop
replace_from-same a p s = replaced a p zero s
