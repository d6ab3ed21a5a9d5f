-- ===== src/Tests/Auth.antt =====
-- Runs of the identity providers.
use sort4circ.Prelude.{◌≡◌, refl, ok, String, none, [], ◌∷◌, Assoc}
use sort4circ.Access.{Principal, anonymous, recycler}
use sort4circ.Auth.{public_only, demo}
use sort4circ.Access.{role_named, scopes, require_scope}
use sort4circ.Prelude.{lookup, insert, erase}

abbrev claimed : Assoc String
claimed = ("x-dpp-role", "recycler") ∷ ("x-dpp-subject", "plant 2") ∷ []

abbrev subject_only : Assoc String
subject_only = ("x-dpp-subject", "plant 2") ∷ []

abbrev plant : Principal
plant = record { subject = "plant 2"; role = recycler; organisation_id = none }

lets_in : demo claimed ≡ ok plant
unfolding public_only demo role_named scopes require_scope lookup insert erase
lets_in = refl

lets_in_public : public_only subject_only ≡ ok anonymous
unfolding public_only demo role_named scopes require_scope lookup insert erase
lets_in_public = refl
