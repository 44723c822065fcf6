-- ===== src/Auth/Roles.antt =====
-- The order of the roles.
use pglockr.Prelude.{◌≡◌, ◌≤◌, ◌<◌, ◌↔◌, inl, inr, true, false, arith, Text}
use pglockr.Auth.{Role, rank, at_least, parse_role}

-- The texts that `ParseRole` accepts are the ones with a rank, it returns them unchanged, and they
-- are the roles that `AtLeast` can grant anything to.
pub parse_role_lem :
    (s r : Text)
    → ((parse_role s ≡ inr r) ↔ ((r ≡ s) × (0 < rank s)))
      × ((parse_role s ≡ inr r) → at_least r r ≡ true)
      × (parse_role s ≡ inl s → (least : Role) → at_least s least ≡ false)
unfolding parse_role at_least
parse_role_lem s r = ground (arith)

-- `AtLeast` compares ranks: an admin passes every check, an operator every one but the admin's, a
-- viewer only the viewer's and the ones for a role that is not a role; and it is transitive.
pub at_least_lem :
    (r s t : Role)
    → (at_least r s ≡ true → at_least s t ≡ true → at_least r t ≡ true)
      × ((at_least r s ≡ true) ↔ ((0 < rank r) × (rank s ≤ rank r)))
unfolding at_least
at_least_lem r s t = ground arith
