-- ===== src/Config/Load/Sound.antt =====
-- What `Load` promises of a configuration that it returns.
use pglockr.Prelude.{
  zero, suc, ◌≡◌, ◌<◌, refl, sym, ◌∙◌, ap, subst, Bool, true, false, List, [], ◌∷◌, map, Option,
  none, some, ◌⊎◌, inl, inr, arith, All, Answer, ok, err, if◌then◌else◌, Text, codes, text_beq,
  text_beq_iff, Bool-cases,
}
use pglockr.Prelude.Int.{ℤ, pos, negsuc}
use pglockr.Config.{Config, AuthConfig, PrincipalConfig, defaults}
use pglockr.Config.Validate.{LoadError, is_empty, is_valid_role, check_auth, validate}
use pglockr.Config.Validate.Laws.{IsNamed, validate-none, check_auth-none}
use pglockr.Config.Load.{
  Surroundings, from_environment, auth_defaults, with_defaults, finish, checked, parsed, from_file,
  load, positive_or, or_else, resolve_token,
}

abbrev pub IsPositive : ℤ → Type 0
IsPositive (pos n) = 0 < n
IsPositive (negsuc n) = ⊥

positive_or-IsPositive : (x d : ℤ) → IsPositive d → IsPositive (positive_or x d)
positive_or-IsPositive (pos zero) d h = h
positive_or-IsPositive (pos (suc n)) d h = omega arith
positive_or-IsPositive (negsuc n) d h = h

or_else-set : (s d : Text) → is_empty d ≡ false → is_empty (or_else s d) ≡ false
or_else-set s d h = ground (arith, h)

checked-eq-inr : {c d : Config} (o : Option LoadError) → checked c o ≡ inr d → (c ≡ d) × (o ≡ none)
checked-eq-inr none e = ground (arith, e)
checked-eq-inr (some x) e = absurd (ground (arith, e))

-- A configuration that `Load` returns is some configuration behind the environment and the
-- defaults, and valid.
abbrev pub Accepted : (Text → Text) → Config → Type 0
Accepted getenv d =
    (c : Config) × (with_defaults (from_environment getenv c) ≡ d) × (validate d ≡ none)

pub finish-eq-inr :
    (getenv : Text → Text) (c : Config) {d : Config} → finish getenv c ≡ inr d → Accepted getenv d
unfolding finish
finish-eq-inr getenv c {d} e =
    let (p, v) = checked-eq-inr {d = d} (validate (with_defaults (from_environment getenv c))) e in
    (c, p, ap validate (sym p) ∙ v)

pub load-eq-inr :
    (w : Surroundings) (path : Text) {d : Config} → load w path ≡ inr d → Accepted w.getenv d
unfolding load from_file parsed
load-eq-inr w path {d} e = by_path (Bool-cases (is_empty path))
  where
    by_raw : (a : Answer Config) → parsed w.getenv a ≡ inr d → Accepted w.getenv d
    by_raw (ok c) h = finish-eq-inr w.getenv c h
    by_raw (err t) h = absurd (ground (arith, h))

    by_file : (a : Answer Text) → from_file w a ≡ inr d → Accepted w.getenv d
    by_file (ok raw) h = by_raw (w.unmarshal raw defaults) h
    by_file (err t) h = absurd (ground (arith, h))

    chosen : (b : Bool) → LoadError ⊎ Config
    chosen b = if b then finish w.getenv defaults else from_file w (w.read_file path)

    by_path : (is_empty path ≡ true) ⊎ (is_empty path ≡ false) → Accepted w.getenv d
    by_path (inl p) = finish-eq-inr w.getenv defaults (ap chosen (sym p) ∙ e)
    by_path (inr p) = by_file (w.read_file path) (ap chosen (sym p) ∙ e)

-- A principal whose role is valid and whose token is that of its variable, and neither it nor its
-- name is empty.
abbrev pub HasToken : (Text → Text) → PrincipalConfig → Type 0
HasToken getenv p =
    (is_empty p.name ≡ false)
    × (is_valid_role p.role ≡ true)
    × (p.token ≡ getenv p.token_env)
    × (is_empty p.token ≡ false)

-- The promises of `Load`.
pub record IsUsable (getenv : Text → Text) (c : Config) : Type 0 where
  pub dsn_from_env : c.cluster.dsn ≡ getenv (codes "PGLOCKR_DSN")
  pub dsn_set : is_empty c.cluster.dsn ≡ false
  pub name_set : is_empty c.cluster.name ≡ false
  pub addr_set : is_empty c.http_addr ≡ false
  pub interval_positive : IsPositive c.poll.interval
  pub ring_positive : IsPositive c.poll.ring_size
  pub timeout_positive : IsPositive c.poll.statement_timeout
  pub retention_positive : IsPositive c.persist.retention
  pub token_from_env : c.auth.token ≡ getenv (codes "PGLOCKR_TOKEN")
  pub known_mode : (c.auth.mode ≡ codes "token") ⊎ (c.auth.mode ≡ codes "proxy")
  pub tokens_from_env : c.auth.mode ≡ codes "token" → All (HasToken getenv) c.auth.principals
  pub path_set : c.persist.enabled ≡ true → is_empty c.persist.path ≡ false

module _ (getenv : Text → Text) where
  resolved :
      (ps : List PrincipalConfig)
      → All IsNamed (map (resolve_token getenv) ps)
      → All (HasToken getenv) (map (resolve_token getenv) ps)
  resolved [] h = tt
  resolved (p ∷ ps) ((n, r, e, t), hs) =
      ((n, r, ap (λ b. if b then p.token else getenv p.token_env) e, t), resolved ps hs)

  tokens :
      (a : AuthConfig) (ps : List PrincipalConfig)
      → a.principals ≡ map (resolve_token getenv) ps
      → check_auth a ≡ none
      → ((a.mode ≡ codes "token") ⊎ (a.mode ≡ codes "proxy"))
        × (a.mode ≡ codes "token" → All (HasToken getenv) a.principals)
  tokens a ps e h = elim (check_auth-none a h) [
    | inl (m, n) ↦ (
      inl ((text_beq_iff a.mode (codes "token")).0 m),
      λ k. subst (All (HasToken getenv)) (sym e) (resolved ps (subst (All IsNamed) e n)),
    )
    | inr (m, p, v) ↦ (
      inr ((text_beq_iff a.mode (codes "proxy")).0 p),
      λ k. absurd (ground (arith, m, (text_beq_iff a.mode (codes "token")).1 k)),
    )
  ]

  with_defaults-IsUsable :
      (c : Config)
      → validate (with_defaults (from_environment getenv c)) ≡ none
      → IsUsable getenv (with_defaults (from_environment getenv c))
  unfolding with_defaults from_environment auth_defaults
  with_defaults-IsUsable c v =
      let d : Config = with_defaults (from_environment getenv c) in
      let (dsn, a, path) = validate-none d v in
      let (mode, toks) = tokens d.auth c.auth.principals refl a in
      record {
        dsn_from_env = refl;
        dsn_set = dsn;
        name_set = or_else-set _ (codes "default") refl;
        addr_set = or_else-set _ (codes ":8080") refl;
        interval_positive =
            positive_or-IsPositive c.poll.interval defaults.poll.interval (omega arith);
        ring_positive =
            positive_or-IsPositive c.poll.ring_size defaults.poll.ring_size (omega arith);
        timeout_positive =
            positive_or-IsPositive c.poll.statement_timeout defaults.poll.statement_timeout
              (omega arith);
        retention_positive =
            positive_or-IsPositive c.persist.retention defaults.persist.retention (omega arith);
        token_from_env = refl;
        known_mode = mode;
        tokens_from_env = toks;
        path_set = λ e. ground (arith, e, path);
      }

pub load-IsUsable :
    (w : Surroundings) (path : Text) {d : Config} → load w path ≡ inr d → IsUsable w.getenv d
load-IsUsable w path e =
    let (c, p, v) = load-eq-inr w path e in
    subst (IsUsable w.getenv) p (with_defaults-IsUsable w.getenv c (ap validate p ∙ v))

-- The defaults of the mode `proxy` leave no header without a name.
pub Accepted-proxy_headers :
    (getenv : Text → Text) {d : Config}
    → Accepted getenv d
    → text_beq d.auth.mode (codes "proxy") ≡ true
    → (is_empty d.auth.proxy.user_header ≡ false) × (is_empty d.auth.proxy.secret_header ≡ false)
unfolding with_defaults from_environment auth_defaults
Accepted-proxy_headers getenv {d} (c, p, v) m = subst Named p (ground arith) m
  where
    Named : Config → Type 0
    Named e =
        text_beq e.auth.mode (codes "proxy") ≡ true
        → (is_empty e.auth.proxy.user_header ≡ false)
          × (is_empty e.auth.proxy.secret_header ≡ false)
