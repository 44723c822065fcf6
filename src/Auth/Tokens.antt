-- ===== src/Auth/Tokens.antt =====
-- Bearer tokens: which entry a token names.
use pglockr.Prelude.{
  ◌≡◌, refl, ◌∙◌, ap, true, false, List, [], ◌∷◌, Option, none, some, arith, if◌then◌else◌, Text,
  text_beq, text_beq_iff, text_eq, Bool-cases, ◌⊎◌, inl, inr, All, lookup, insert, lookup-insert,
}
use pglockr.Auth.{
  Principal, TokenPrincipal, Request, principal_of, token_from_request, index_entries,
  new_token_identity, authenticate_token,
}

-- The name and the role of the last entry with a token, which an entry without one is not.
abbrev pub last_entry : Text → List TokenPrincipal → Option Principal → Option Principal
last_entry tok [] found = found
last_entry tok (e ∷ es) found =
    last_entry tok es
      (if text_beq e.token tok then some (record { name = e.name; role = e.role }) else found)

module _ (hash_token : Text → Text) where
  -- No entry's token collides with `tok`.
  abbrev pub NoCollision : Text → List TokenPrincipal → Type 0
  NoCollision tok es = All (λ e. hash_token e.token ≡ hash_token tok → e.token ≡ tok) es

  beq-hash :
      (s t : Text)
      → (hash_token s ≡ hash_token t → s ≡ t)
      → text_beq (hash_token s) (hash_token t) ≡ text_beq s t
  beq-hash s t inj =
      ground (arith, text_beq_iff s t, text_beq_iff (hash_token s) (hash_token t), same)
    where
      same : s ≡ t → hash_token s ≡ hash_token t
      same = ap hash_token

  lookup-index_entries :
      (tok : Text) (es : List TokenPrincipal) (m : List (Text × Principal))
      → text_beq tok [] ≡ false
      → NoCollision tok es
      → lookup (hash_token tok) (index_entries hash_token es m)
        ≡ last_entry tok es (lookup (hash_token tok) m)
  unfolding index_entries
  lookup-index_entries tok [] m h n = refl
  lookup-index_entries tok (e ∷ es) m h (n, ns) =
      lookup-index_entries tok es
        (if text_beq e.token [] then m else insert (hash_token e.token) (principal_of e) m) h ns
      ∙ ap (last_entry tok es) (one (Bool-cases (text_beq e.token [])))
    where
      one :
          (text_beq e.token [] ≡ true) ⊎ (text_beq e.token [] ≡ false)
          → lookup
              (hash_token tok)
              (if text_beq e.token [] then m else insert (hash_token e.token) (principal_of e) m)
            ≡ (if text_beq e.token tok then some (principal_of e) else lookup (hash_token tok) m)
      one (inl k) =
          ground
            (arith, k, h, text_beq_iff e.token [], text_beq_iff tok [], text_beq_iff e.token tok)
      one (inr k) = rw k (
          lookup-insert (hash_token e.token) (hash_token tok) (principal_of e) m
          ∙ ap (λ b. if b then some (principal_of e) else lookup (hash_token tok) m)
              (beq-hash e.token tok n))

  -- If no entry's token collides with the request's, a request is authenticated with the name and
  -- the role of the last configured entry that has its token, and is not authenticated when no
  -- entry has it; a request whose token is empty is never authenticated.
  pub authenticate_token_lem :
      (es : List TokenPrincipal) (r : Request)
      → NoCollision (token_from_request r) es
      → authenticate_token hash_token (new_token_identity hash_token es) r ≡ (
          if text_beq (token_from_request r) []
          then none
          else last_entry (token_from_request r) es none)
  unfolding authenticate_token new_token_identity lookup
  authenticate_token_lem es r n = by_cases (Bool-cases (text_beq (token_from_request r) []))
    where
      by_cases :
          (text_beq (token_from_request r) [] ≡ true) ⊎ (text_beq (token_from_request r) [] ≡ false)
          → authenticate_token hash_token (new_token_identity hash_token es) r ≡ (
              if text_beq (token_from_request r) []
              then none
              else last_entry (token_from_request r) es none)
      by_cases (inl h) = rw h refl
      by_cases (inr h) = rw h (lookup-index_entries (token_from_request r) es [] h n)
