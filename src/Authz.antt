-- ===== src/Authz.antt =====
-- src/services/authz_service.py: the roles of a user. A user is the list of the role names in the
-- token, which is empty if there is none; no user is none.
pub mod Grants
mod Tests
use nd3x.Prelude.{
  Bool, true, false, ◌||◌, String, Option, none, some, List, [], ◌∷◌, any, if◌then◌else◌,
}
use nd3x.Runs.Operations.{Error, Outcome, ok, raised, ◌>>=◌}
use nd3x.Policy.Text.{is_blank}
use nd3x.Board.Words.{is_word}

-- ALLOWED_ROLES
pub data Role : Type 0 where
  user expert admin : Role

abbrev pub is_role : Role → Role → Bool
is_role user user = true
is_role expert expert = true
is_role admin admin = true
is_role _ _ = false

pub data Name : Type 0 where
  blank unknown : Name
  known : Role → Name

-- what str(role or "").strip().lower() is in `mapping`
unfoldable pub read_name : String → Name
read_name r =
    if is_blank r
    then blank
    else (if is_word "user" r
        then known user
        else (if is_word "expert" r
            then known expert
            else (if is_word "admin" r then known admin else unknown)))

abbrev pub has : Role → List Role → Bool
has role roles = any (is_role role) roles

-- the loop, with the set of roles that it has seen
unfoldable pub normalize_from : List Role → List String → Outcome (List Role)
normalize_from seen [] = ok []
normalize_from seen (r ∷ roles) =
    let skipped = normalize_from seen roles in
    elim (read_name r) [
      | blank ↦ skipped
      | unknown ↦ raised Error.value_error
      | known c ↦
          let added = normalize_from (c ∷ seen) roles in
          if has c seen then skipped else (added >>= λ canon. ok (c ∷ canon))
    ]

unfoldable pub normalize_roles : List String → Outcome (List Role)
unfolding normalize_from
normalize_roles roles = normalize_from [] roles

-- the tests on `requested`
unfoldable pub holds_role : String → List Role → Bool
holds_role requested roles =
    if is_word "expert" requested
    then has expert roles || has admin roles
    else (if is_word "admin" requested
        then has admin roles
        else (if is_word "user" requested
            then has user roles || has expert roles || has admin roles
            else false))

unfoldable pub user_has_role : Option (List String) → String → Outcome Bool
user_has_role none role = ok false
user_has_role (some names) role = normalize_roles names >>= λ roles. ok (holds_role role roles)

-- assert_expert_role and assert_admin_role: HTTP 403 is false
unfoldable pub assert_expert_role : Option (List String) → Outcome Bool
unfolding user_has_role
assert_expert_role u = user_has_role u "Expert"

unfoldable pub assert_admin_role : Option (List String) → Outcome Bool
unfolding user_has_role
assert_admin_role u = user_has_role u "Admin"
