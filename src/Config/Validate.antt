-- ===== src/Config/Validate.antt =====
-- `validate` and its two parts. The result is the error, if there is one.
pub mod Laws
use pglockr.Prelude.{
  ℕ, ◌+◌, Bool, true, false, not, ◌&&◌, ◌||◌, List, [], ◌∷◌, Option, none, some, if◌then◌else◌,
  Text, codes, text_beq,
}
use pglockr.Config.{Config, AuthConfig, PrincipalConfig, ProxyAuth, RoleMapping}

pub data LoadError : Type 0 where
  unread unparsed : Text → LoadError
  no_dsn no_auth no_path no_secret_env empty_secret no_role : LoadError
  bad_mode bad_trust_mode bad_default_role : Text → LoadError
  no_name no_token_env no_token bad_role bad_mapping : ℕ → LoadError

abbrev pub is_empty : Text → Bool
is_empty s = text_beq s []

-- The first of the errors of two checks.
abbrev pub first_error : Option LoadError → Option LoadError → Option LoadError
first_error none e = e
first_error (some d) e = some d

-- `validRoles[r]`
abbrev pub is_valid_role : Text → Bool
is_valid_role r =
    text_beq r (codes "viewer") || text_beq r (codes "operator") || text_beq r (codes "admin")

-- The body of the loop over the principals.
abbrev pub check_principal : ℕ → PrincipalConfig → Option LoadError
check_principal i p =
    if is_empty p.name
    then some (no_name i)
    else if not (is_valid_role p.role)
    then some (bad_role i)
    else if is_empty p.token_env
    then some (no_token_env i)
    else if is_empty p.token
    then some (no_token i)
    else none

unfoldable pub check_principals : ℕ → List PrincipalConfig → Option LoadError
check_principals i [] = none
check_principals i (p ∷ ps) = first_error (check_principal i p) (check_principals (i + 1) ps)

abbrev no_principals : List PrincipalConfig → Bool
no_principals [] = true
no_principals (p ∷ ps) = false

-- `validateTokenAuth`
unfoldable pub validate_token_auth : AuthConfig → Option LoadError
validate_token_auth a =
    if is_empty a.token && no_principals a.principals
    then some no_auth
    else check_principals 0 a.principals

abbrev pub check_mapping : ℕ → RoleMapping → Option LoadError
check_mapping i m =
    if is_empty m.group || not (is_valid_role m.role) then some (bad_mapping i) else none

unfoldable pub check_mappings : ℕ → List RoleMapping → Option LoadError
check_mappings i [] = none
check_mappings i (m ∷ ms) = first_error (check_mapping i m) (check_mappings (i + 1) ms)

abbrev pub no_mappings : List RoleMapping → Bool
no_mappings [] = true
no_mappings (m ∷ ms) = false

-- The `switch` on the trust mode.
unfoldable pub check_trust : ProxyAuth → Option LoadError
check_trust px =
    if text_beq px.trust_mode (codes "secret")
    then if is_empty px.secret_env
      then some no_secret_env
      else if is_empty px.secret
      then some empty_secret
      else none
    else if text_beq px.trust_mode (codes "network")
    then none
    else some (bad_trust_mode px.trust_mode)

abbrev pub check_default_role : Text → Option LoadError
check_default_role r =
    if not (is_empty r) && not (is_valid_role r) then some (bad_default_role r) else none

-- `validateProxyAuth`
unfoldable pub validate_proxy_auth : ProxyAuth → Option LoadError
validate_proxy_auth px = first_error (check_trust px) (
    if no_mappings px.role_mappings && is_empty px.default_role
    then some no_role
    else first_error (check_mappings 0 px.role_mappings) (check_default_role px.default_role))

-- The `switch` on the authentication mode.
unfoldable pub check_auth : AuthConfig → Option LoadError
check_auth a =
    if text_beq a.mode (codes "token")
    then validate_token_auth a
    else if text_beq a.mode (codes "proxy")
    then validate_proxy_auth a.proxy
    else some (bad_mode a.mode)

-- `validate`
unfoldable pub validate : Config → Option LoadError
validate c =
    if is_empty c.cluster.dsn
    then some no_dsn
    else first_error (check_auth c.auth)
        (if c.persist.enabled && is_empty c.persist.path then some no_path else none)
