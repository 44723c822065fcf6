-- ===== src/Command/Starts.antt =====
-- An accepted configuration always gives an identity source.
use pglockr.Prelude.{
  ◌≡◌, refl, sym, ◌∙◌, ap, Bool, true, false, not, ◌&&◌, ◌||◌, List, [], ◌∷◌, ◌++◌, map, none, ◌⊎◌,
  inl, inr, arith, All, if◌then◌else◌, Text, codes, text_beq, text_beq_iff, append-nil,
  append_assoc, insert, text_eq, ◌<◌, Bool-cases,
}
use pglockr.Auth.{rank, Role, TokenPrincipal, parse_role, new_token_identity}
use pglockr.Auth.Roles.{parse_role_lem}
use pglockr.Auth.Proxy.{ProxyConfig, new_proxy_identity, with_separator}
use pglockr.Config.{Config, AuthConfig, PrincipalConfig, ProxyAuth, RoleMapping}
use pglockr.Config.Validate.{is_valid_role, is_empty, no_mappings, validate_proxy_auth}
use pglockr.Config.Validate.Laws.{
  IsNamed, IsMapped, validate-none, check_auth-none, validate_proxy_auth-none,
}
use pglockr.Command.{
  Identity, by_token, by_proxy, IdentityError, add_principals, add_mappings, build_identity,
  build_proxy_identity, default_entries, with_default_role, with_roles, as_identity, indexed,
  default_role_of, proxy_config,
}
use pglockr.Config.Load.{Surroundings, load}
use pglockr.Config.Load.Sound.{Accepted, Accepted-proxy_headers, load-eq-inr, load-IsUsable}

abbrev pub entry_of : PrincipalConfig → TokenPrincipal
entry_of p = record { name = p.name; role = p.role; token = p.token }

parse_role-valid : (r : Text) → is_valid_role r ≡ true → parse_role r ≡ inr r
parse_role-valid r h =
    let ranked : 0 < rank r = ground (arith, h) in ((parse_role_lem r r).0).1 (refl, ranked)

add_principals-named :
    (ps : List PrincipalConfig) (es : List TokenPrincipal)
    → All IsNamed ps
    → add_principals ps (inr es) ≡ inr (es ++ map entry_of ps)
unfolding add_principals
add_principals-named [] es h = ap inr (sym (append-nil es))
add_principals-named (p ∷ ps) es ((n, r, e, t), hs) = rw (parse_role-valid p.role r) (
    add_principals-named ps (es ++ entry_of p ∷ []) hs
    ∙ ap inr (append_assoc es (entry_of p ∷ []) (map entry_of ps)))

-- Whether a map has an entry.
abbrev is_filled : List (Text × Role) → Bool
is_filled [] = false
is_filled (e ∷ es) = true

insert-filled :
    (g : Text) (r : Role) (roles : List (Text × Role)) → is_filled (insert g r roles) ≡ true
unfolding insert
insert-filled g r [] = refl
insert-filled g r (e ∷ roles) = ground arith

add_mappings-mapped :
    (ms : List RoleMapping) (roles : List (Text × Role))
    → All IsMapped ms
    → (out : List (Text × Role)) × (add_mappings ms (inr roles) ≡ inr out)
      × (is_filled roles || not (no_mappings ms) ≡ true → is_filled out ≡ true)
unfolding add_mappings
add_mappings-mapped [] roles h = (roles, refl, λ e. ground (arith, e))
add_mappings-mapped (m ∷ ms) roles ((g, r), hs) =
    let (out, e, filled) = add_mappings-mapped ms (insert m.group m.role roles) hs in
    (
      out,
      rw (parse_role-valid m.role r) e,
      λ k. filled (ground (arith, insert-filled m.group m.role roles)),
    )

-- `NewProxyIdentity` accepts what `validateProxyAuth` does.
new_proxy_identity-accepts :
    (cfg : ProxyConfig)
    → is_empty cfg.user_header ≡ false
    → is_empty cfg.secret_header ≡ false
    → (text_beq cfg.trust_mode (codes "secret") ≡ true) × (is_empty cfg.secret ≡ false)
      ⊎ (text_beq cfg.trust_mode (codes "secret") ≡ false)
        × (text_beq cfg.trust_mode (codes "network") ≡ true)
    → is_filled cfg.group_to_role || not (is_empty cfg.default_role) ≡ true
    → new_proxy_identity cfg ≡ inr (with_separator cfg)
unfolding new_proxy_identity
new_proxy_identity-accepts cfg u s t r = by_roles cfg.group_to_role refl
  where
    by_roles :
        (roles : List (Text × Role))
        → cfg.group_to_role ≡ roles
        → new_proxy_identity cfg ≡ inr (with_separator cfg)
    by_roles [] e = rw e (ground (arith, u, s, t, e, r))
    by_roles (x ∷ xs) e = rw e (ground (arith, u, s, t, e, r))

default_role_of-valid :
    (r : Text) → not (is_empty r) && not (is_valid_role r) ≡ false → default_role_of r ≡ inr r
default_role_of-valid r h = elim (Bool-cases (is_empty r)) [
  | inl e ↦ rw e (ap inr (sym ((text_beq_iff r []).0 e)))
  | inr e ↦ rw e (parse_role-valid r (ground (arith, e, h)))
]

-- What a configuration of the mode `proxy` gives.
build_proxy_identity-accepts :
    (px : ProxyAuth)
    → validate_proxy_auth px ≡ none
    → is_empty px.user_header ≡ false
    → is_empty px.secret_header ≡ false
    → (out : ProxyConfig) × (build_proxy_identity px ≡ inr (by_proxy out))
      × (out.trust_mode ≡ px.trust_mode)
      × (out.secret ≡ px.secret)
unfolding build_proxy_identity
build_proxy_identity-accepts px v u s =
    let (t, n, m, d) = validate_proxy_auth-none px v in
    let (roles, e, filled) = add_mappings-mapped px.role_mappings [] m in
    let cfg : ProxyConfig = proxy_config px roles px.default_role in
    let some_role : is_filled roles || not (is_empty px.default_role) ≡ true =
      ground (arith, n, filled) in
    (
      with_separator cfg,
      ap (with_roles px) e
          ∙ ap (with_default_role px roles) (default_role_of-valid px.default_role d)
          ∙ ap as_identity (new_proxy_identity-accepts cfg u s t some_role),
      refl,
      refl,
    )

-- The token of the environment, as an entry of the administrator `default`; none if it is not set.
abbrev pub of_environment : Text → List TokenPrincipal
of_environment [] = []
of_environment (b ∷ bs) =
    record { name = codes "default"; role = codes "admin"; token = b ∷ bs } ∷ []

of_environment-eq : (token : Text) → default_entries token ≡ of_environment token
of_environment-eq [] = refl
of_environment-eq (b ∷ bs) = refl

-- The identity of the mode `token`: the token of the environment, then the principals.
abbrev pub IsTokens : (Text → Text) → Text → AuthConfig → IdentityError ⊎ Identity → Type 0
IsTokens hash_token token a built =
    (a.mode ≡ codes "token")
    × (built
        ≡ inr (
            by_token
              (new_token_identity hash_token (of_environment token ++ map entry_of a.principals))))

-- The identity of the mode `proxy`.
abbrev pub IsTrustedProxy : AuthConfig → IdentityError ⊎ Identity → Type 0
IsTrustedProxy a built =
    (a.mode ≡ codes "proxy")
    × ((out : ProxyConfig) × (built ≡ inr (by_proxy out))
        × ((is_empty out.secret ≡ false) ⊎ (out.trust_mode ≡ codes "network")))

trusted_by :
    (px : ProxyAuth) (out : ProxyConfig)
    → (text_beq px.trust_mode (codes "secret") ≡ true) × (is_empty px.secret ≡ false)
      ⊎ (text_beq px.trust_mode (codes "secret") ≡ false)
        × (text_beq px.trust_mode (codes "network") ≡ true)
    → out.trust_mode ≡ px.trust_mode
    → out.secret ≡ px.secret
    → (is_empty out.secret ≡ false) ⊎ (out.trust_mode ≡ codes "network")
trusted_by px out (inl (m, z)) t k = inl (ap is_empty k ∙ z)
trusted_by px out (inr (m, z)) t k = inr (t ∙ (text_beq_iff px.trust_mode (codes "network")).0 z)

-- Every configuration that `Load` returns gives an identity source. In the mode `token` it has the
-- token of the environment, as an administrator named `default`, if that is set, and then the
-- principals in their order, each with the role that the configuration gives it; in the mode
-- `proxy` it is a proxy identity, which has a secret unless it trusts the network.
pub load-build_identity :
    (hash_token : Text → Text) (w : Surroundings) (path : Text) {cfg : Config}
    → load w path ≡ inr cfg
    → IsTokens hash_token
        (w.getenv (codes "PGLOCKR_TOKEN"))
        cfg.auth
        (build_identity hash_token cfg.auth)
      ⊎ IsTrustedProxy cfg.auth (build_identity hash_token cfg.auth)
unfolding build_identity
load-build_identity hash_token w path {cfg} e =
    by_mode (check_auth-none a ((validate-none cfg (accepted.2)).1))
  where
    accepted : Accepted w.getenv cfg
    accepted = load-eq-inr w path e

    a : AuthConfig
    a = cfg.auth

    chosen : Bool → IdentityError ⊎ Identity
    chosen b =
        if b
        then build_proxy_identity a.proxy
        else indexed hash_token (add_principals a.principals (inr (default_entries a.token)))

    by_mode :
        ((text_beq a.mode (codes "token") ≡ true) × All IsNamed a.principals)
          ⊎ ((text_beq a.mode (codes "token") ≡ false)
              × (text_beq a.mode (codes "proxy") ≡ true)
              × (validate_proxy_auth a.proxy ≡ none))
        → IsTokens hash_token (w.getenv (codes "PGLOCKR_TOKEN")) a (build_identity hash_token a)
          ⊎ IsTrustedProxy a (build_identity hash_token a)
    by_mode (inl (m, n)) =
        let token : a.mode ≡ codes "token" = (text_beq_iff a.mode (codes "token")).0 m in
        inl (
          token,
          ap (λ t. chosen (text_beq t (codes "proxy"))) token
              ∙ ap (indexed hash_token)
                  (add_principals-named a.principals (default_entries a.token) n)
              ∙ ap
                  (λ es.
                    inr
                      (by_token (new_token_identity hash_token (es ++ map entry_of a.principals))))
                  (ap default_entries (load-IsUsable w path e).token_from_env
                    ∙ of_environment-eq (w.getenv (codes "PGLOCKR_TOKEN"))),
        )
    by_mode (inr (m, p, v)) =
        let (u, s) = Accepted-proxy_headers w.getenv accepted p in
        let (out, b, t, k) = build_proxy_identity-accepts a.proxy v u s in
        let trusted = trusted_by a.proxy out (validate_proxy_auth-none a.proxy v).0 t k in
        inr ((text_beq_iff a.mode (codes "proxy")).0 p, (out, ap chosen p ∙ b, trusted))
