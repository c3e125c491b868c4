-- ===== src/Authz/Grants.antt =====
-- Which roles a list of names grants.
use nd3x.Prelude.{
  Bool, true, false, ◌≡◌, refl, sym, ap, ◌∙◌, ◌||◌, inl, inr, String, Option, none, some, List, [],
  ◌∷◌, arith, any, all, Bool-cases, ◌⊎◌, if◌then◌else◌,
}
use nd3x.Runs.Operations.{Error, Outcome, ok, raised, ◌>>=◌}
use nd3x.Board.Words.{is_word}
use nd3x.Authz.{
  Role, user, expert, admin, Name, blank, unknown, known, is_role, read_name, has, normalize_from,
  normalize_roles, holds_role, user_has_role, assert_expert_role, assert_admin_role,
}

abbrev pub is_readable : Name → Bool
is_readable unknown = false
is_readable _ = true

abbrev pub names_role : Role → Name → Bool
names_role role (known c) = is_role role c
names_role role _ = false

-- A role is in the list under some spelling of its name.
abbrev pub named : Role → List String → Bool
named role names = any (λ n. names_role role (read_name n)) names

abbrev pub all_readable : List String → Bool
all_readable names = all (λ n. is_readable (read_name n)) names

-- What the requested role asks for: the role itself or one above it.
abbrev pub granted : String → List String → Bool
granted requested names =
    if is_word "expert" requested
    then named expert names || named admin names
    else (if is_word "admin" requested
        then named admin names
        else (if is_word "user" requested
            then named user names || named expert names || named admin names
            else false))

-- The roles are those of the names that were not seen before, and no name is unreadable.
abbrev Reads : List Role → List String → Outcome (List Role) → Type 0
Reads seen names (raised e) = (all_readable names ≡ false) × (e ≡ Error.value_error)
Reads seen names (ok roles) =
    (all_readable names ≡ true)
    × ((role : Role) → (has role seen || has role roles) ≡ (has role seen || named role names))

is_role_eq : (a b : Role) → is_role a b ≡ true → a ≡ b
is_role_eq user user h = refl
is_role_eq expert expert h = refl
is_role_eq admin admin h = refl
is_role_eq _ _ h = cc

cons-Reads :
    (c : Role) (seen : List Role) (n : String) (names : List String) (x : Outcome (List Role))
    → read_name n ≡ known c
    → Reads (c ∷ seen) names x
    → Reads seen (n ∷ names) (x >>= λ canon. ok (c ∷ canon))
cons-Reads c seen n names (raised e) f (h, k) = (rw f h, k)
cons-Reads c seen n names (ok roles) f (h, k) = (rw f h, λ role. rw f (ground (arith, k role)))

skip-Reads :
    (seen : List Role) (n : String) (names : List String) (x : Outcome (List Role))
    → is_readable (read_name n) ≡ true
    → ((role : Role) → names_role role (read_name n) ≡ true → has role seen ≡ true)
    → Reads seen names x
    → Reads seen (n ∷ names) x
skip-Reads seen n names (raised e) f g (h, k) = (rw f h, k)
skip-Reads seen n names (ok roles) f g (h, k) = (rw f h, λ role. ground (arith, g role, k role))

blank_names : (role : Role) (x : Name) → x ≡ blank → names_role role x ≡ true → ⊥
blank_names role x f h = cc (ap (names_role role) f, h)

Name-cases : (x : Name) → (x ≡ blank) ⊎ ((x ≡ unknown) ⊎ ((c : Role) × (x ≡ known c)))
Name-cases blank = inl refl
Name-cases unknown = inr (inl refl)
Name-cases (known c) = inr (inr (c, refl))

same_role : (role c : Role) (x : Name) → x ≡ known c → names_role role x ≡ true → role ≡ c
same_role role c x f h = is_role_eq role c (sym (ap (names_role role) f) ∙ h)

normalize_from-Reads :
    (seen : List Role) (names : List String) → Reads seen names (normalize_from seen names)
unfolding normalize_from
normalize_from-Reads seen [] = (refl, λ role. refl)
normalize_from-Reads seen (n ∷ names) =
    let skipped = normalize_from-Reads seen names in
    elim (Name-cases (read_name n)) [
      | inl f ↦
          rw (f, normalize_from)
            (skip-Reads seen n names (normalize_from seen names) (rw f refl)
              (λ role h. absurd (blank_names role (read_name n) f h)) skipped)
      | inr (inl f) ↦ rw (f, normalize_from) (rw f refl, refl)
      | inr (inr (c, f)) ↦
          let added = normalize_from-Reads (c ∷ seen) names in
          elim (Bool-cases (has c seen)) [
            | inl e ↦
                rw (f, normalize_from)
                  (rw e (
                    skip-Reads seen n names (normalize_from seen names) (rw f refl)
                      (λ role h. rw (same_role role c (read_name n) f h) e) skipped))
            | inr e ↦
                rw (f, normalize_from)
                  (rw e (cons-Reads c seen n names (normalize_from (c ∷ seen) names) f added))
          ]
    ]

after-Reads :
    (requested : String) (names : List String) (x : Outcome (List Role))
    → Reads [] names x
    → (x >>= λ roles. ok (holds_role requested roles))
      ≡ (if all_readable names then ok (granted requested names) else raised Error.value_error)
unfolding holds_role
after-Reads requested names (raised e) (h, k) = rw h (ap raised k)
after-Reads requested names (ok roles) (h, k) = rw h (rw (k user, k expert, k admin) refl)

-- Whether a user has a role depends on the names in the list alone, not on their order, spelling
-- or repetition: one name that is no role makes the test raise, and else the user has the role if the
-- list names it or one above it.
pub user_has_role-granted :
    (names : List String) (requested : String)
    → user_has_role (some names) requested
      ≡ (if all_readable names then ok (granted requested names) else raised Error.value_error)
unfolding user_has_role normalize_roles
user_has_role-granted names requested =
    after-Reads requested names (normalize_roles names) (normalize_from-Reads [] names)

admin_roles :
    (x : Outcome (List Role))
    → (x >>= λ roles. ok (holds_role "Admin" roles)) ≡ ok true
    → ((x >>= λ roles. ok (holds_role "Expert" roles)) ≡ ok true)
      × ((x >>= λ roles. ok (holds_role "User" roles)) ≡ ok true)
unfolding holds_role is_word nd3x.Policy.Text.strip
admin_roles (raised e) h = cc
admin_roles (ok roles) h =
    let is_admin = has_of (has admin roles) h in
    (rw is_admin (ground arith), rw is_admin (ground arith))
  where
    has_of : (b : Bool) → ok b ≡ ok true → b ≡ true
    has_of b h = cc

-- The roles are nested: who passes as an administrator passes as an expert and as a user.
admin-expert-user :
    (u : Option (List String))
    → assert_admin_role u ≡ ok true
    → (assert_expert_role u ≡ ok true) × (user_has_role u "User" ≡ ok true)
unfolding assert_admin_role assert_expert_role is_word nd3x.Policy.Text.strip
admin-expert-user none h = absurd (no_user h)
  where
    no_user : ok false ≡ ok true → ⊥
    no_user h = cc
admin-expert-user (some names) h = admin_roles (normalize_roles names) h
