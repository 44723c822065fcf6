-- ===== src/Config/Validate/Laws.antt =====
-- What a configuration that `validate` accepts is like.
use pglockr.Prelude.{
  ℕ, ◌+◌, ◌≡◌, refl, Bool, true, false, not, ◌&&◌, List, [], ◌∷◌, Option, none, some, ◌⊎◌, inl, inr,
  arith, All, if◌then◌else◌, codes, text_beq, Bool-cases,
}
use pglockr.Config.{Config, AuthConfig, PrincipalConfig, ProxyAuth, RoleMapping}
use pglockr.Config.Validate.{
  LoadError, is_empty, is_valid_role, first_error, check_principal, check_principals,
  validate_token_auth, check_mapping, check_mappings, check_trust, validate_proxy_auth, check_auth,
  validate, no_mappings, check_default_role,
}

abbrev pub IsNamed : PrincipalConfig → Type 0
IsNamed p =
    (is_empty p.name ≡ false)
    × (is_valid_role p.role ≡ true)
    × (is_empty p.token_env ≡ false)
    × (is_empty p.token ≡ false)

abbrev pub IsMapped : RoleMapping → Type 0
IsMapped m = (is_empty m.group ≡ false) × (is_valid_role m.role ≡ true)

first_error-none : (d e : Option LoadError) → first_error d e ≡ none → (d ≡ none) × (e ≡ none)
first_error-none none e h = (refl, h)
first_error-none (some x) e h = absurd (ground (arith, h))

check_principal-none : (i : ℕ) (p : PrincipalConfig) → check_principal i p ≡ none → IsNamed p
check_principal-none i p h = ground (arith, h)

pub check_principals-none :
    (i : ℕ) (ps : List PrincipalConfig) → check_principals i ps ≡ none → All IsNamed ps
unfolding check_principals
check_principals-none i [] h = tt
check_principals-none i (p ∷ ps) h =
    let (a, b) = first_error-none (check_principal i p) (check_principals (i + 1) ps) h in
    (check_principal-none i p a, check_principals-none (i + 1) ps b)

pub check_mappings-none :
    (i : ℕ) (ms : List RoleMapping) → check_mappings i ms ≡ none → All IsMapped ms
unfolding check_mappings
check_mappings-none i [] h = tt
check_mappings-none i (m ∷ ms) h =
    let (a, b) = first_error-none (check_mapping i m) (check_mappings (i + 1) ms) h in
    (ground (arith, a), check_mappings-none (i + 1) ms b)

pub validate-none :
    (c : Config)
    → validate c ≡ none
    → (is_empty c.cluster.dsn ≡ false)
      × (check_auth c.auth ≡ none)
      × ((c.persist.enabled && is_empty c.persist.path) ≡ false)
unfolding validate
validate-none c h = elim (Bool-cases (is_empty c.cluster.dsn)) [
  | inl e ↦ absurd (ground (arith, e, h))
  | inr e ↦
      let path : Option LoadError =
        if c.persist.enabled && is_empty c.persist.path then some LoadError.no_path else none in
      let (a, b) = first_error-none (check_auth c.auth) path (ground (arith, e, h)) in
      (e, a, ground (arith, b))
]

-- In the mode `token` there is a token or a principal, and every principal is named; the only
-- other mode is `proxy`, with a valid proxy.
pub check_auth-none :
    (a : AuthConfig)
    → check_auth a ≡ none
    → ((text_beq a.mode (codes "token") ≡ true) × All IsNamed a.principals)
      ⊎ ((text_beq a.mode (codes "token") ≡ false)
          × (text_beq a.mode (codes "proxy") ≡ true)
          × (validate_proxy_auth a.proxy ≡ none))
unfolding check_auth validate_token_auth
check_auth-none a h = elim (Bool-cases (text_beq a.mode (codes "token"))) [
  | inl e ↦ inl (e, check_principals-none 0 a.principals (ground (arith, e, h)))
  | inr e ↦ elim (Bool-cases (text_beq a.mode (codes "proxy"))) [
    | inl p ↦ inr (e, p, ground (arith, e, p, h))
    | inr p ↦ absurd (ground (arith, e, p, h))
  ]
]

if-none :
    (b : Bool) (x : LoadError) (o : Option LoadError)
    → (if b then some x else o) ≡ none
    → (b ≡ false) × (o ≡ none)
if-none b x o h = ground (arith, h)

check_trust-none :
    (px : ProxyAuth)
    → check_trust px ≡ none
    → (text_beq px.trust_mode (codes "secret") ≡ true) × (is_empty px.secret ≡ false)
      ⊎ (text_beq px.trust_mode (codes "secret") ≡ false)
        × (text_beq px.trust_mode (codes "network") ≡ true)
unfolding check_trust
check_trust-none px h = elim (Bool-cases (text_beq px.trust_mode (codes "secret"))) [
  | inl e ↦ inl (e, ground (arith, e, h))
  | inr e ↦ inr (e, ground (arith, e, h))
]

-- A valid proxy is trusted by a secret or by the network, grants some role, and only roles that
-- are valid.
pub validate_proxy_auth-none :
    (px : ProxyAuth)
    → validate_proxy_auth px ≡ none
    → ((text_beq px.trust_mode (codes "secret") ≡ true) × (is_empty px.secret ≡ false)
        ⊎ (text_beq px.trust_mode (codes "secret") ≡ false)
          × (text_beq px.trust_mode (codes "network") ≡ true))
      × (no_mappings px.role_mappings && is_empty px.default_role ≡ false)
      × All IsMapped px.role_mappings
      × (not (is_empty px.default_role) && not (is_valid_role px.default_role) ≡ false)
unfolding validate_proxy_auth
validate_proxy_auth-none px h =
    let default_role : Option LoadError = check_default_role px.default_role in
    let roles : Option LoadError =
      if no_mappings px.role_mappings && is_empty px.default_role
      then some LoadError.no_role
      else first_error (check_mappings 0 px.role_mappings) default_role in
    let (t, r) = first_error-none (check_trust px) roles h in
    let (n, m) = if-none (no_mappings px.role_mappings && is_empty px.default_role) _ _ r in
    let (a, b) = first_error-none (check_mappings 0 px.role_mappings) default_role m in
    (check_trust-none px t, n, check_mappings-none 0 px.role_mappings a, ground (arith, b))
