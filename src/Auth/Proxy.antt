-- ===== src/Auth/Proxy.antt =====
-- internal/auth/proxy.go: the identity that a trusted reverse proxy injects as headers.
pub mod Highest
use pglockr.Prelude.{
  ℕ, ◌||◌, ◌&&◌, not, Bool, true, false, List, [], ◌∷◌, Option, none, some, ◌⊎◌, inl, inr,
  if◌then◌else◌, ltb, Text, codes, text_beq, text_eq, lookup, split, trim_space,
}
use pglockr.Auth.{Role, Principal, Request, rank}

pub record ProxyConfig : Type 0 where
  pub user_header : Text
  pub groups_header : Text
  pub groups_sep : Text
  pub trust_mode : Text
  pub secret_header : Text
  pub secret : Text
  pub default_role : Role
  pub group_to_role : List (Text × Role)

-- The errors of `NewProxyIdentity`.
pub data ConfigError : Type 0 where
  no_user_header : ConfigError
  no_secret : ConfigError
  bad_trust_mode : Text → ConfigError
  no_role : ConfigError

abbrev pub is_empty : Text → Bool
is_empty s = text_beq s []

abbrev no_entries : List (Text × Role) → Bool
no_entries [] = true
no_entries (e ∷ es) = false

-- The `switch` on the trust mode: what it refuses.
abbrev check_trust : ProxyConfig → Option ConfigError
check_trust cfg =
    if text_beq cfg.trust_mode (codes "secret")
    then if is_empty cfg.secret_header || is_empty cfg.secret then some no_secret else none
    else if text_beq cfg.trust_mode (codes "network")
    then none
    else some (bad_trust_mode cfg.trust_mode)

abbrev pub with_separator : ProxyConfig → ProxyConfig
with_separator cfg = record cfg {
  groups_sep = if is_empty cfg.groups_sep then codes "," else cfg.groups_sep;
}

abbrev check_roles : Option ConfigError → ProxyConfig → ConfigError ⊎ ProxyConfig
check_roles (some e) cfg = inl e
check_roles none cfg =
    if no_entries cfg.group_to_role && is_empty cfg.default_role
    then inl no_role
    else inr (with_separator cfg)

-- `NewProxyIdentity`
unfoldable pub new_proxy_identity : ProxyConfig → ConfigError ⊎ ProxyConfig
new_proxy_identity cfg =
    if is_empty cfg.user_header then inl no_user_header else check_roles (check_trust cfg) cfg

-- The role that stays the best: `!found || role.rank() > best.rank()`.
abbrev pub better : Option Role → Option Role → Option Role
better best none = best
better none (some r) = some r
better (some b) (some r) = if ltb (rank b) (rank r) then some r else some b

-- What one group of the header maps to.
abbrev pub role_of : List (Text × Role) → Text → Option Role
role_of roles g = let t = trim_space g in if is_empty t then none else lookup t roles

pub highest_loop : List (Text × Role) → List Text → Option Role → Option Role
highest_loop roles [] best = best
highest_loop roles (g ∷ gs) best = highest_loop roles gs (better best (role_of roles g))

-- `highestRole`
pub highest_role : ProxyConfig → Text → Option Role
highest_role cfg groups = highest_loop cfg.group_to_role (split groups cfg.groups_sep) none

abbrev principal : Text → Role → Principal
principal user role = record { name = user; role = role }

abbrev with_role : Text → Role → Option Role → Option Principal
with_role user default_role none =
    if is_empty default_role then none else some (principal user default_role)
with_role user default_role (some r) = some (principal user r)

-- `ProxyIdentity.Authenticate`
pub authenticate_proxy : ProxyConfig → Request → Option Principal
authenticate_proxy cfg r =
    let user = trim_space (r.header cfg.user_header) in
    if text_beq cfg.trust_mode (codes "secret")
      && not (text_beq (r.header cfg.secret_header) cfg.secret)
    then none
    else if is_empty user
    then none
    else with_role user cfg.default_role (highest_role cfg (r.header cfg.groups_header))
