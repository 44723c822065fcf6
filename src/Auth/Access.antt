-- ===== src/Auth/Access.antt =====
-- What the middleware lets through, and what the check of the origin does.
use pglockr.Prelude.{
  ◌≡◌, ◌≤◌, ◌<◌, ◌↔◌, refl, ap, ◌∙◌, ◌++◌, ◌||◌, Bool, true, false, [], Option, none, some, ◌⊎◌,
  arith, Text, text_beq, codes, has_suffix, has_suffix-append, if◌then◌else◌,
}
use pglockr.Auth.{
  Role, Principal, Request, served, refused, rank, at_least, authenticated, require_role,
  check_origin,
}

-- A handler behind `Authenticate` and `RequireRole` is called exactly for the principals whose
-- role has a rank, and one that is no lower than that of the role required, with that principal
-- in the context. Without a principal the answer is 401; it is 403 for the principals whose role
-- has no rank or a lower one.
pub guarded_lem :
    (id : Option Principal) (least : Role)
    → ((ctx : Option Principal)
        → (authenticated id (require_role least served) ≡ served ctx) ↔ (
            (p : Principal) × (id ≡ some p)
            × (ctx ≡ some p)
            × (0 < rank p.role)
            × (rank least ≤ rank p.role)))
      × ((authenticated id (require_role least served) ≡ refused 401) ↔ (id ≡ none))
      × ((authenticated id (require_role least served) ≡ refused 403)
          ↔ ((p : Principal) × (id ≡ some p) × ((rank p.role ≡ 0) ⊎ (rank p.role < rank least))))
unfolding at_least
guarded_lem none least = ground arith
guarded_lem (some p) least = grind arith

-- A request is let through with an `Origin` that merely ends with the `Host`, whatever stands
-- before it: another registered domain, for instance.
pub check_origin_any_prefix :
    (r : Request) (w : Text) → r.header (codes "Origin") ≡ w ++ r.host → check_origin r ≡ true
unfolding check_origin
check_origin_any_prefix r w h =
    let ends : has_suffix (r.header (codes "Origin")) r.host ≡ true =
      ap (λ o. has_suffix o r.host) h ∙ has_suffix-append w r.host in
    any_or (text_beq (r.header (codes "Origin")) [])
      (has_suffix (r.header (codes "Origin")) (codes "://" ++ r.host)) ends
  where
    any_or : (a b : Bool) {c : Bool} → c ≡ true → (if a then true else b || c) ≡ true
    any_or true b e = refl
    any_or false true e = refl
    any_or false false e = e
