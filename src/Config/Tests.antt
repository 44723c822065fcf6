-- ===== src/Config/Tests.antt =====
-- A file with two principals, loaded with their tokens in the environment.
use pglockr.Prelude.{
  ◌≡◌, refl, true, [], ◌∷◌, inl, inr, Answer, ok, if◌then◌else◌, Text, codes, text_beq,
}
use pglockr.Prelude.Int.{negsuc}
use pglockr.Config.{Config, PrincipalConfig, defaults}
use pglockr.Config.Validate.{no_token, check_principals, validate_token_auth, check_auth, validate}
use pglockr.Config.Load.{
  Surroundings, from_environment, auth_defaults, with_defaults, finish, parsed, from_file, load,
}

abbrev ann : PrincipalConfig
ann = record {
  name = codes "ann";
  role = codes "operator";
  token_env = codes "ANN_TOKEN";
  token = [];
}

abbrev bob : PrincipalConfig
bob = record {
  name = codes "bob";
  role = codes "viewer";
  token_env = codes "BOB_TOKEN";
  token = [];
}

-- What the file sets: the principals and a negative interval.
abbrev parse : Text → Config → Answer Config
parse raw c = ok (record c {
  auth = record c.auth { principals = ann ∷ bob ∷ [] };
  poll = record c.poll { interval = negsuc 4 };
})

abbrev ann_only : Text → Text
ann_only k =
    if text_beq k (codes "PGLOCKR_DSN")
    then codes "host=db"
    else if text_beq k (codes "ANN_TOKEN")
    then codes "s3cret"
    else if text_beq k (codes "PGLOCKR_DB_PATH")
    then codes "h.db"
    else []

abbrev both : Text → Text
both k = if text_beq k (codes "BOB_TOKEN") then codes "t0ken" else ann_only k

abbrev pub with_env : (Text → Text) → Surroundings
with_env getenv = record { read_file = λ path. ok path; unmarshal = parse; getenv = getenv }

abbrev pub surroundings : Surroundings
surroundings = with_env both

abbrev pub loaded : Config
loaded = record defaults {
  cluster = record defaults.cluster { dsn = codes "host=db" };
  auth = record defaults.auth {
    mode = codes "token";
    principals =
        (record ann { token = codes "s3cret" }) ∷ (record bob { token = codes "t0ken" }) ∷ [];
  };
  persist = record defaults.persist { enabled = true; path = codes "h.db" };
}

pub load-loaded : load surroundings (codes "p.yaml") ≡ inr loaded
unfolding load from_file parsed finish with_defaults auth_defaults from_environment validate
    check_auth validate_token_auth check_principals
load-loaded = refl

-- A principal without a token is refused.
load-no_token : load (with_env ann_only) (codes "p.yaml") ≡ inl (no_token 1)
unfolding load from_file parsed finish with_defaults auth_defaults from_environment validate
    check_auth validate_token_auth check_principals
load-no_token = refl
