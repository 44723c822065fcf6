-- ===== src/Auth.antt =====
-- internal/auth/auth.go: roles, principals, bearer tokens, the middleware and the check of the
-- origin. A request is what the code asks of `net/http`: `r.Header.Get`, `r.Cookie` and `r.Host`.
pub mod Roles
pub mod Tokens
pub mod Access
pub mod Proxy
pub mod Tests
use pglockr.Prelude.{
  ℕ, ◌&&◌, Bool, true, false, List, [], ◌∷◌, ◌||◌, ◌++◌, Option, none, some, ◌⊎◌, inl, inr,
  if◌then◌else◌, ltb, leb, length, drop, Text, codes, text_beq, text_eq, has_prefix, has_suffix,
  lookup, insert,
}

abbrev pub Role : Type 0
Role = Text

abbrev pub viewer : Role
viewer = codes "viewer"

abbrev pub operator : Role
operator = codes "operator"

abbrev pub admin : Role
admin = codes "admin"

-- `rank`
abbrev pub rank : Role → ℕ
rank r =
    if text_beq r viewer
    then 1
    else if text_beq r operator
    then 2
    else if text_beq r admin
    then 3
    else 0

-- `AtLeast`
pub at_least : Role → Role → Bool
at_least r least = ltb 0 (rank r) && leb (rank least) (rank r)

-- `ParseRole`: the role, or the text that its error quotes.
pub parse_role : Text → Text ⊎ Role
parse_role s = if text_beq s viewer || text_beq s operator || text_beq s admin then inr s else inl s

pub record Principal : Type 0 where
  pub name : Text
  pub role : Role

pub record Request : Type 0 where
  pub header : Text → Text
  pub cookie : Text → Option Text
  pub host : Text

-- `TokenPrincipal`
pub record TokenPrincipal : Type 0 where
  pub name : Text
  pub role : Role
  pub token : Text

abbrev pub principal_of : TokenPrincipal → Principal
principal_of e = record { name = e.name; role = e.role }

abbrev or_empty : Option Text → Text
or_empty none = []
or_empty (some c) = c

abbrev bearer : Text
bearer = codes "Bearer "

-- `tokenFromRequest`
pub token_from_request : Request → Text
token_from_request r =
    let h = r.header (codes "Authorization") in
    if not_empty h && has_prefix h bearer
    then drop (length bearer) h
    else or_empty (r.cookie (codes "pglockr_token"))
  where
    not_empty : Text → Bool
    not_empty [] = false
    not_empty (c ∷ s) = true

-- The tokens by their hash, which is SHA-256 in hexadecimal.
module _ (hash_token : Text → Text) where
  -- `NewTokenIdentity`, on the entries that are left and the map so far.
  pub index_entries : List TokenPrincipal → List (Text × Principal) → List (Text × Principal)
  index_entries [] m = m
  index_entries (e ∷ es) m =
      index_entries es
        (if text_beq e.token [] then m else insert (hash_token e.token) (principal_of e) m)

  pub new_token_identity : List TokenPrincipal → List (Text × Principal)
  new_token_identity es = index_entries es []

  -- `TokenIdentity.Authenticate`
  pub authenticate_token : List (Text × Principal) → Request → Option Principal
  authenticate_token by_hash r =
      let tok = token_from_request r in
      if text_beq tok [] then none else lookup (hash_token tok) by_hash

-- What a handler chain ends in: the wrapped handler is called with the principal in the context, or
-- the status that is written.
pub data Outcome : Type 0 where
  served : Option Principal → Outcome
  refused : ℕ → Outcome

-- `Middleware.Authenticate` before the handler `next`, which is given the principal of the context.
abbrev pub authenticated : Option Principal → (Option Principal → Outcome) → Outcome
authenticated none next = refused 401
authenticated (some p) next = next (some p)

-- `RequireRole` before the handler `next`.
abbrev pub require_role : Role → (Option Principal → Outcome) → Option Principal → Outcome
require_role least next none = refused 401
require_role least next (some p) = if at_least p.role least then next (some p) else refused 403

-- `CheckOrigin`
pub check_origin : Request → Bool
check_origin r =
    let origin = r.header (codes "Origin") in
    if text_beq origin []
    then true
    else has_suffix origin (codes "://" ++ r.host) || has_suffix origin r.host
