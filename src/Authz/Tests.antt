-- ===== src/Authz/Tests.antt =====
-- A user's roles in several spellings, on which the theorems are applied.
use nd3x.Prelude.{◌≡◌, String, some, List, [], ◌∷◌, if◌then◌else◌}
use nd3x.Runs.Operations.{Error, ok, raised}
use nd3x.Authz.{user_has_role}
use nd3x.Authz.Grants.{granted, all_readable, user_has_role-granted}

abbrev names : List String
names = "user" ∷ " ADMIN " ∷ "" ∷ "Admin" ∷ []

user_has_role-granted_example :
    user_has_role (some names) "Expert"
    ≡ (if all_readable names then ok (granted "Expert" names) else raised Error.value_error)
user_has_role-granted_example = user_has_role-granted names "Expert"
