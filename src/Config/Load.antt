-- ===== src/Config/Load.antt =====
-- `Load`, in the order in which it changes the configuration.
pub mod Sound
use pglockr.Prelude.{
  ℕ, zero, suc, ◌+◌, Bool, true, false, ◌&&◌, ◌||◌, List, [], ◌∷◌, map, Option, none, some, ◌⊎◌,
  inl, inr, Answer, ok, err, if◌then◌else◌, Text, codes, text_beq, leb,
}
use pglockr.Prelude.Int.{ℤ, pos, negsuc}
use pglockr.Config.{Config, AuthConfig, PrincipalConfig, ProxyAuth, defaults}
use pglockr.Config.Validate.{LoadError, unread, unparsed, is_empty, validate}

-- What `Load` asks its surroundings: `os.ReadFile`, `yaml.Unmarshal` into a configuration,
-- `os.Getenv`.
pub record Surroundings : Type 0 where
  pub read_file : Text → Answer Text
  pub unmarshal : Text → Config → Answer Config
  pub getenv : Text → Text

abbrev pub or_else : Text → Text → Text
or_else s d = if is_empty s then d else s

-- `if x <= 0 { x = d }`
abbrev pub positive_or : ℤ → ℤ → ℤ
positive_or (pos zero) d = d
positive_or (pos (suc n)) d = pos (suc n)
positive_or (negsuc n) d = d

abbrev lower : ℕ → ℕ
lower c = if leb b'A' c && leb c b'Z' then c + 32 else c

-- `v == "1" || strings.EqualFold(v, "true")`: no rune beyond ASCII folds to a letter of `true`.
abbrev is_on : Text → Bool
is_on v = text_beq v (codes "1") || text_beq (map lower v) (codes "true")

module _ (getenv : Text → Text) where
  abbrev pub resolve_token : PrincipalConfig → PrincipalConfig
  resolve_token p = record p {
    token = if is_empty p.token_env then p.token else getenv p.token_env;
  }

  -- The secrets and the overrides of the environment.
  unfoldable pub from_environment : Config → Config
  from_environment c =
      let db = getenv (codes "PGLOCKR_DB_PATH") in
      let env = c.auth.proxy.secret_env in
      record {
        cluster = record {
          name = or_else (getenv (codes "PGLOCKR_CLUSTER")) c.cluster.name;
          dsn = getenv (codes "PGLOCKR_DSN");
        };
        poll = c.poll;
        http_addr = or_else (getenv (codes "PGLOCKR_HTTP_ADDR")) c.http_addr;
        auth = record c.auth {
          token = getenv (codes "PGLOCKR_TOKEN");
          principals = map resolve_token c.auth.principals;
          proxy = record c.auth.proxy {
            secret = if is_empty env then c.auth.proxy.secret else getenv env;
          };
        };
        persist = record c.persist {
          path = or_else db c.persist.path;
          enabled = if is_empty db then c.persist.enabled else true;
        };
        redaction = if is_on (getenv (codes "PGLOCKR_REDACT")) then true else c.redaction;
      }

abbrev proxy_defaults : ProxyAuth → ProxyAuth
proxy_defaults px = record px {
  user_header = or_else px.user_header (codes "X-Auth-Request-Email");
  groups_header = or_else px.groups_header (codes "X-Auth-Request-Groups");
  groups_sep = or_else px.groups_sep (codes ",");
  trust_mode = or_else px.trust_mode (codes "secret");
  secret_header = or_else px.secret_header (codes "X-Pglockr-Proxy-Secret");
}

-- The defaults of the authentication.
unfoldable pub auth_defaults : AuthConfig → AuthConfig
auth_defaults a =
    let mode = or_else a.mode (codes "token") in
    record a {
      mode = mode;
      proxy = if text_beq mode (codes "proxy") then proxy_defaults a.proxy else a.proxy;
    }

-- The defaults of what is still zero.
unfoldable pub with_defaults : Config → Config
with_defaults c = record c {
  auth = auth_defaults c.auth;
  persist = record c.persist {
    retention = positive_or c.persist.retention defaults.persist.retention;
  };
  poll = record c.poll {
    interval = positive_or c.poll.interval defaults.poll.interval;
    ring_size = positive_or c.poll.ring_size defaults.poll.ring_size;
    statement_timeout = positive_or c.poll.statement_timeout defaults.poll.statement_timeout;
  };
  http_addr = or_else c.http_addr defaults.http_addr;
  cluster = record c.cluster { name = or_else c.cluster.name defaults.cluster.name };
}

abbrev pub checked : Config → Option LoadError → LoadError ⊎ Config
checked c none = inr c
checked c (some e) = inl e

-- `Load` behind the file.
unfoldable pub finish : (Text → Text) → Config → LoadError ⊎ Config
finish getenv c = let cfg = with_defaults (from_environment getenv c) in checked cfg (validate cfg)

unfoldable pub parsed : (Text → Text) → Answer Config → LoadError ⊎ Config
parsed getenv (ok c) = finish getenv c
parsed getenv (err e) = inl (unparsed e)

unfoldable pub from_file : Surroundings → Answer Text → LoadError ⊎ Config
unfolding parsed
from_file w (ok raw) = parsed w.getenv (w.unmarshal raw defaults)
from_file w (err e) = inl (unread e)

-- `Load`
unfoldable pub load : Surroundings → Text → LoadError ⊎ Config
unfolding from_file
load w path = if is_empty path then finish w.getenv defaults else from_file w (w.read_file path)
