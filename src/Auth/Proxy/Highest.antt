-- ===== src/Auth/Proxy/Highest.antt =====
-- What the proxy identity grants.
use pglockr.Prelude.{
  ◌≡◌, ◌≤◌, ◌≢◌, ◌↔◌, refl, sym, ◌∙◌, ap, ◌&&◌, Bool, false, List, [], ◌∷◌, Option, none, some,
  subst, ◌⊎◌, inl, inr, arith, Text, text_beq, text_beq_iff, codes, split, Option-cases, Memᴰ,
  trim_space,
}
use pglockr.Auth.{Role, Request, rank}
use pglockr.Auth.Proxy.{
  ProxyConfig, ConfigError, new_proxy_identity, better, role_of, highest_loop, highest_role,
  authenticate_proxy, is_empty,
}

-- A role that one of the groups maps to.
abbrev pub Granted : List (Text × Role) → List Text → Role → Type 0
Granted roles gs r = (g : Text) × Memᴰ g gs × (role_of roles g ≡ some r)

-- The role found is `r`: it came before the loop or from a group, and no role that did ranks above
-- it.
abbrev IsBest : List (Text × Role) → List Text → Option Role → Option Role → Type 0
IsBest roles gs before none = (before ≡ none) × ((s : Role) → ¬ (Granted roles gs s))
IsBest roles gs before (some r) =
    ((before ≡ some r) ⊎ Granted roles gs r)
    × ((s : Role) → (before ≡ some s) ⊎ Granted roles gs s → rank s ≤ rank r)

Granted-cons :
    (roles : List (Text × Role)) (g : Text) (gs : List Text) (s : Role)
    → Granted roles (g ∷ gs) s
    → (role_of roles g ≡ some s) ⊎ Granted roles gs s
Granted-cons roles g gs s (h, m, e) = elim m [
  | Memᴰ.head p ↦ inl (ap (role_of roles) (sym p) ∙ e)
  | Memᴰ.tail m' ↦ inr (h, m', e)
]

better-some :
    (before o : Option Role) (r : Role)
    → better before o ≡ some r
    → ((before ≡ some r) ⊎ (o ≡ some r))
      × ((s : Role) → (before ≡ some s) ⊎ (o ≡ some s) → rank s ≤ rank r)
better-some none none r e = absurd (ground (arith, e))
better-some none (some b) r e = grind (arith, e)
better-some (some a) none r e = grind (arith, e)
better-some (some a) (some b) r e = grind (arith, e)

better-none : (before o : Option Role) → better before o ≡ none → (before ≡ none) × (o ≡ none)
better-none none none e = (refl, refl)
better-none none (some b) e = absurd (ground (arith, e))
better-none (some a) none e = absurd (ground (arith, e))
better-none (some a) (some b) e = absurd (ground (arith, e))

-- The group `g` in front of the others.
module _ (roles : List (Text × Role)) (g : Text) (gs : List Text) (before : Option Role) where
  abbrev first : Option Role
  first = role_of roles g

  first-le :
      (s r : Role)
      → IsBest roles gs (better before first) (some r)
      → (before ≡ some s) ⊎ (first ≡ some s)
      → rank s ≤ rank r
  first-le s r (source, top) h = elim (Option-cases (better before first)) [
    | inl e ↦ absurd (nothing (better-none before first e) h)
    | inr (b, e) ↦
        let low : rank s ≤ rank b = (better-some before first b e).1 s h in
        omega (arith, low, top b (inl e))
  ]
    where
      nothing : (before ≡ none) × (first ≡ none) → (before ≡ some s) ⊎ (first ≡ some s) → ⊥
      nothing (n, m) (inl k) = ground (arith, sym n ∙ k)
      nothing (n, m) (inr k) = ground (arith, sym m ∙ k)

  IsBest-cons :
      (out : Option Role)
      → IsBest roles gs (better before first) out
      → IsBest roles (g ∷ gs) before out
  IsBest-cons none (e, n) =
      let both : (before ≡ none) × (first ≡ none) = better-none before first e in
      (
        both.0,
        λ s k. elim (Granted-cons roles g gs s k) [
          | inl h ↦ absurd (ground (arith, sym both.1 ∙ h))
          | inr h ↦ n s h
        ],
      )
  IsBest-cons (some r) (source, top) = (from source, bound)
    where
      from :
          (better before first ≡ some r) ⊎ Granted roles gs r
          → (before ≡ some r) ⊎ Granted roles (g ∷ gs) r
      from (inl e) = elim ((better-some before first r e).0) [
        | inl h ↦ inl h
        | inr h ↦ inr (g, Memᴰ.head refl, h)
      ]
      from (inr (h, m, e)) = inr (h, Memᴰ.tail m, e)

      bound : (s : Role) → (before ≡ some s) ⊎ Granted roles (g ∷ gs) s → rank s ≤ rank r
      bound s (inl h) = first-le s r (source, top) (inl h)
      bound s (inr k) = elim (Granted-cons roles g gs s k) [
        | inl h ↦ first-le s r (source, top) (inr h)
        | inr h ↦ top s (inr h)
      ]

highest_loop-IsBest :
    (roles : List (Text × Role)) (gs : List Text) (before : Option Role)
    → IsBest roles gs before (highest_loop roles gs before)
unfolding highest_loop
highest_loop-IsBest roles [] none = (refl, λ s (h, m, e). elim m [ ])
highest_loop-IsBest roles [] (some b) = (inl refl, top)
  where
    top : (s : Role) → (some b ≡ some s) ⊎ Granted roles [] s → rank s ≤ rank b
    top s (inl e) = grind (arith, e)
    top s (inr (h, m, e)) = elim m [ ]
highest_loop-IsBest roles (g ∷ gs) before =
    IsBest-cons roles g gs before (highest_loop roles gs (better before (role_of roles g)))
      (highest_loop-IsBest roles gs (better before (role_of roles g)))

-- The role found in the groups header is one that a group of it maps to, and no group maps to a
-- role of a higher rank; no role is found only if no group maps to one. The order of the groups
-- cannot lower the rank.
pub highest_role_lem :
    (cfg : ProxyConfig) (groups : Text)
    → ((highest_role cfg groups ≡ none)
        ↔ ((s : Role) → ¬ (Granted cfg.group_to_role (split groups cfg.groups_sep) s)))
      × ((r : Role)
          → highest_role cfg groups ≡ some r
          → Granted cfg.group_to_role (split groups cfg.groups_sep) r
            × ((s : Role)
                → Granted cfg.group_to_role (split groups cfg.groups_sep) s
                → rank s ≤ rank r))
unfolding highest_role
highest_role_lem cfg groups = by_out (highest_role cfg groups) (highest_loop-IsBest roles gs none)
  where
    roles : List (Text × Role)
    roles = cfg.group_to_role

    gs : List Text
    gs = split groups cfg.groups_sep

    same : {b r : Role} → some b ≡ some r → b ≡ r
    same e = ground (arith, e)

    by_out :
        (out : Option Role)
        → IsBest roles gs none out
        → ((out ≡ none) ↔ ((s : Role) → ¬ (Granted roles gs s)))
          × ((r : Role)
              → out ≡ some r
              → Granted roles gs r × ((s : Role) → Granted roles gs s → rank s ≤ rank r))
    by_out none (e, n) = ((λ _. n, λ _. refl), λ r k. absurd (ground (arith, k)))
    by_out (some b) (inl e, top) = absurd (ground (arith, e))
    by_out (some b) (inr k, top) = (
      (λ e. absurd (ground (arith, e)), λ n. absurd (n b k)),
      λ r e.
          subst (λ q. Granted roles gs q × ((s : Role) → Granted roles gs s → rank s ≤ rank q))
            (same e) (k, λ s j. top s (inr j)),
    )

-- The proxy identity refuses a request that does not present the configured secret in the mode
-- `secret`, whatever its other headers say; one without a user; and, if no default role is
-- configured, one none of whose groups maps to a role.
pub authenticate_proxy_refuses :
    (cfg : ProxyConfig) (r : Request)
    → (cfg.trust_mode ≡ codes "secret") × (r.header cfg.secret_header ≢ cfg.secret)
      ⊎ (trim_space (r.header cfg.user_header) ≡ [])
      ⊎ (cfg.default_role ≡ []) × (highest_role cfg (r.header cfg.groups_header) ≡ none)
    → authenticate_proxy cfg r ≡ none
unfolding authenticate_proxy
authenticate_proxy_refuses cfg r (inl (m, n)) = ground (
  arith,
  m,
  n,
  text_beq_iff cfg.trust_mode (codes "secret"),
  text_beq_iff (r.header cfg.secret_header) cfg.secret,
)
authenticate_proxy_refuses cfg r (inr (inl e)) =
    ground (arith, text_beq_iff (trim_space (r.header cfg.user_header)) [], e)
authenticate_proxy_refuses cfg r (inr (inr (d, e))) =
    ground (arith, text_beq_iff cfg.default_role [], d, e)

-- A configuration in the mode `secret` without one.
abbrev secret_missing : ConfigError ⊎ ProxyConfig → Bool
secret_missing (inl e) = false
secret_missing (inr out) = text_beq out.trust_mode (codes "secret") && is_empty out.secret

accepted-secret : (cfg : ProxyConfig) → secret_missing (new_proxy_identity cfg) ≡ false
unfolding new_proxy_identity
accepted-secret cfg = ground arith

-- With an accepted configuration in the mode `secret`, a request without the secret header is never
-- authenticated: the secret of an accepted configuration is not empty, so the empty text does not
-- pass for it.
pub new_proxy_identity_lem :
    (cfg out : ProxyConfig) (r : Request)
    → new_proxy_identity cfg ≡ inr out
    → out.trust_mode ≡ codes "secret"
    → r.header out.secret_header ≡ []
    → authenticate_proxy out r ≡ none
new_proxy_identity_lem cfg out r e m h =
    authenticate_proxy_refuses out r (inl (m, λ k. secret-ne (sym k ∙ h)))
  where
    secret-ne : out.secret ≢ []
    secret-ne k = ground (
      arith,
      ap secret_missing (sym e) ∙ accepted-secret cfg,
      text_beq_iff out.trust_mode (codes "secret"),
      m,
      text_beq_iff out.secret [],
      k,
    )
