-- ===== src/Command.antt =====
-- cmd/pglockr/main.go: how the command puts the parts together: the identity source, the sink of
-- the audit trail, the lookup of a victim's query, the `grants` command and the check of the
-- privileges.
pub mod Starts
pub mod Redacted
pub mod Privileges
pub mod Process
pub mod Tests
use pglockr.Prelude.{
  ℕ, Bool, true, false, not, ◌&&◌, List, [], ◌∷◌, ◌++◌, Option, none, some, ◌⊎◌, inl, inr, Answer,
  ok, err, ◌>>=◌, if◌then◌else◌, Text, codes, text_beq, text_eq, lookup, insert, nat_eq,
}
use pglockr.Prelude.Int.{ℤ, pos, negsuc}
use pglockr.Graph.{Session, Snapshot}
use pglockr.Redact.Source.{Polled, snapshot}
use pglockr.Store.{Store, latest}
use pglockr.Auth.{
  Role, Principal, TokenPrincipal, Request, admin, parse_role, new_token_identity,
  authenticate_token,
}
use pglockr.Auth.Proxy.{ProxyConfig, ConfigError, new_proxy_identity, authenticate_proxy}
use pglockr.Config.{AuthConfig, PrincipalConfig, ProxyAuth, RoleMapping}
use pglockr.Pg.{Capabilities}
use pglockr.Setup.{GrantOptions, script, remediation}

-- An `auth.Identity`: the map of the tokens, or the configuration of the proxy.
pub data Identity : Type 0 where
  by_token : List (Text × Principal) → Identity
  by_proxy : ProxyConfig → Identity

-- The errors of `buildIdentity`: the principal or the group, and the role that it quotes.
pub data IdentityError : Type 0 where
  bad_principal bad_mapping : Text → Text → IdentityError
  bad_default : Text → IdentityError
  bad_proxy : ConfigError → IdentityError

pub authenticate : (Text → Text) → Identity → Request → Option Principal
authenticate hash_token (by_token m) r = authenticate_token hash_token m r
authenticate hash_token (by_proxy cfg) r = authenticate_proxy cfg r

abbrev add_principal :
    PrincipalConfig → Text ⊎ Role → List TokenPrincipal → IdentityError ⊎ List TokenPrincipal
add_principal p (inl quoted) es = inl (bad_principal p.name quoted)
add_principal p (inr role) es =
    inr (es ++ (record { name = p.name; role = role; token = p.token }) ∷ [])

-- The loop of `buildIdentity` over the principals.
pub add_principals :
    List PrincipalConfig → IdentityError ⊎ List TokenPrincipal → IdentityError ⊎ List TokenPrincipal
add_principals [] es = es
add_principals (p ∷ ps) (inl e) = inl e
add_principals (p ∷ ps) (inr es) = add_principals ps (add_principal p (parse_role p.role) es)

-- The entry of `PGLOCKR_TOKEN`, if that is set.
abbrev pub default_entries : Text → List TokenPrincipal
default_entries token =
    if text_beq token []
    then []
    else (record { name = codes "default"; role = admin; token = token }) ∷ []

abbrev add_mapping :
    RoleMapping → Text ⊎ Role → List (Text × Role) → IdentityError ⊎ List (Text × Role)
add_mapping m (inl quoted) roles = inl (bad_mapping m.group quoted)
add_mapping m (inr role) roles = inr (insert m.group role roles)

-- The loop of `buildProxyIdentity` over the mappings.
pub add_mappings :
    List RoleMapping → IdentityError ⊎ List (Text × Role) → IdentityError ⊎ List (Text × Role)
add_mappings [] roles = roles
add_mappings (m ∷ ms) (inl e) = inl e
add_mappings (m ∷ ms) (inr roles) = add_mappings ms (add_mapping m (parse_role m.role) roles)

abbrev pub default_role_of : Text → Text ⊎ Role
default_role_of r = if text_beq r [] then inr [] else parse_role r

abbrev pub as_identity : ConfigError ⊎ ProxyConfig → IdentityError ⊎ Identity
as_identity (inl e) = inl (bad_proxy e)
as_identity (inr cfg) = inr (by_proxy cfg)

abbrev pub proxy_config : ProxyAuth → List (Text × Role) → Role → ProxyConfig
proxy_config p roles role = record {
  user_header = p.user_header;
  groups_header = p.groups_header;
  groups_sep = p.groups_sep;
  trust_mode = p.trust_mode;
  secret_header = p.secret_header;
  secret = p.secret;
  default_role = role;
  group_to_role = roles;
}

abbrev pub with_default_role :
    ProxyAuth → List (Text × Role) → Text ⊎ Role → IdentityError ⊎ Identity
with_default_role p roles (inl quoted) = inl (bad_default quoted)
with_default_role p roles (inr role) = as_identity (new_proxy_identity (proxy_config p roles role))

abbrev pub with_roles : ProxyAuth → IdentityError ⊎ List (Text × Role) → IdentityError ⊎ Identity
with_roles p (inl e) = inl e
with_roles p (inr roles) = with_default_role p roles (default_role_of p.default_role)

-- `buildProxyIdentity`
pub build_proxy_identity : ProxyAuth → IdentityError ⊎ Identity
build_proxy_identity p = with_roles p (add_mappings p.role_mappings (inr []))

abbrev pub indexed : (Text → Text) → IdentityError ⊎ List TokenPrincipal → IdentityError ⊎ Identity
indexed hash_token (inl e) = inl e
indexed hash_token (inr es) = inr (by_token (new_token_identity hash_token es))

-- `buildIdentity`
pub build_identity : (Text → Text) → AuthConfig → IdentityError ⊎ Identity
build_identity hash_token cfg =
    if text_beq cfg.mode (codes "proxy")
    then build_proxy_identity cfg.proxy
    else indexed hash_token (add_principals cfg.principals (inr (default_entries cfg.token)))

abbrev pub query_of : Option Session → Option Text
query_of none = none
query_of (some s) = some s.query

abbrev pub query_in : ℕ → Option Snapshot → Option Text
query_in p none = none
query_in p (some snap) = query_of (lookup p snap.sessions)

-- The closure `lookup` of `run`: the query of a session of the latest snapshot.
pub victim_lookup : Store → ℤ → Option Text
victim_lookup s (negsuc n) = none
victim_lookup s (pos p) = query_in p (latest s)

-- The source of the poller: `run` wraps the client if redaction is on. It stands for what a poll
-- returns.
abbrev pub choose_source : Bool → Polled → Polled
choose_source redact polled = if redact then snapshot polled else polled

-- `runGrants` behind the flags, with what `RandomPassword` returns: what goes to the standard
-- output, and the generated password that the standard error shows.
pub run_grants : Answer Text → Text → Text → Bool → Answer (Text × Option Text)
run_grants random role password no_signal =
    if text_beq password []
    then (do
      pw ← random
      ok (script (record { role = role; password = pw; signal = not no_signal }), some pw))
    else ok (script (record { role = role; password = password; signal = not no_signal }), none)

-- `preflight`: the statements that it prints, if any.
pub preflight : Answer Capabilities → Option Text
preflight (err e) = none
preflight (ok caps) =
    if caps.can_read_stats && caps.can_signal
    then none
    else some (remediation caps.role (not caps.can_read_stats) (not caps.can_signal))
