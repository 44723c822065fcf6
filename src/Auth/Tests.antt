-- ===== src/Auth/Tests.antt =====
-- Two tokens, a proxy in the mode `secret`, and a foreign origin.
use pglockr.Prelude.{
  ◌≡◌, ◌≤◌, ◌<◌, ◌↔◌, refl, true, List, [], ◌∷◌, Option, none, some, ◌⊎◌, inr, if◌then◌else◌, Text,
  codes, text_beq, split,
}
use pglockr.Auth.{
  Role, Principal, Request, TokenPrincipal, served, refused, viewer, operator, admin, rank,
  authenticated, require_role, check_origin, token_from_request, authenticate_token,
  new_token_identity,
}
use pglockr.Auth.Tokens.{NoCollision, last_entry, authenticate_token_lem}
use pglockr.Auth.Access.{guarded_lem, check_origin_any_prefix}
use pglockr.Auth.Proxy.{ProxyConfig, new_proxy_identity, highest_role}
use pglockr.Auth.Proxy.Highest.{Granted, highest_role_lem}

-- A request with one header.
abbrev request : Text → Text → Request
request name value = record {
  header = λ h. if text_beq h name then value else [];
  cookie = λ c. none;
  host = codes "example.com";
}

abbrev tokens : List TokenPrincipal
tokens =
    record { name = codes "ann"; role = viewer; token = codes "t1" }
    ∷ record { name = codes "bob"; role = operator; token = codes "t2" }
    ∷ []

-- A hash without collisions.
abbrev plain_hash : Text → Text
plain_hash t = t

abbrev by_token : Request
by_token = request (codes "Authorization") (codes "Bearer t2")

tokens-NoCollision : NoCollision plain_hash (token_from_request by_token) tokens
tokens-NoCollision = ((λ e. e), ((λ e. e), tt))

authenticate_token_lem_example :
    authenticate_token plain_hash (new_token_identity plain_hash tokens) by_token ≡ (
      if text_beq (token_from_request by_token) []
      then none
      else last_entry (token_from_request by_token) tokens none)
authenticate_token_lem_example =
    authenticate_token_lem plain_hash tokens by_token tokens-NoCollision

abbrev bob : Principal
bob = record { name = codes "bob"; role = operator }

guarded_lem_example :
    ((ctx : Option Principal)
      → (authenticated (some bob) (require_role admin served) ≡ served ctx) ↔ (
          (p : Principal) × (some bob ≡ some p)
          × (ctx ≡ some p)
          × (0 < rank p.role)
          × (rank admin ≤ rank p.role)))
    × ((authenticated (some bob) (require_role admin served) ≡ refused 401) ↔ (some bob ≡ none))
    × ((authenticated (some bob) (require_role admin served) ≡ refused 403) ↔ (
        (p : Principal) × (some bob ≡ some p) × ((rank p.role ≡ 0) ⊎ (rank p.role < rank admin))))
guarded_lem_example = guarded_lem (some bob) admin

check_origin_any_prefix_example :
    check_origin (request (codes "Origin") (codes "https://evil-example.com")) ≡ true
check_origin_any_prefix_example =
    check_origin_any_prefix (request (codes "Origin") (codes "https://evil-example.com"))
      (codes "https://evil-") refl

abbrev proxy : ProxyConfig
proxy = record {
  user_header = codes "X-User";
  groups_header = codes "X-Groups";
  groups_sep = codes ",";
  trust_mode = codes "secret";
  secret_header = codes "X-Secret";
  secret = codes "s3";
  default_role = [];
  group_to_role = (codes "dba", admin) ∷ (codes "dev", viewer) ∷ [];
}

highest_role_lem_example :
    ((highest_role proxy (codes "dev, dba") ≡ none) ↔ (
      (s : Role) → ¬ (Granted proxy.group_to_role (split (codes "dev, dba") proxy.groups_sep) s)))
    × ((r : Role)
        → highest_role proxy (codes "dev, dba") ≡ some r
        → Granted proxy.group_to_role (split (codes "dev, dba") proxy.groups_sep) r
          × ((s : Role)
              → Granted proxy.group_to_role (split (codes "dev, dba") proxy.groups_sep) s
              → rank s ≤ rank r))
highest_role_lem_example = highest_role_lem proxy (codes "dev, dba")

abbrev forged : Request
forged = request (codes "X-User") (codes "root")

proxy-accepted : new_proxy_identity proxy ≡ inr proxy
unfolding new_proxy_identity
proxy-accepted = refl
