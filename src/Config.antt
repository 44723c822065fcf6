-- ===== src/Config.antt =====
-- internal/config/config.go: the configuration, how `Load` fills it, and what it accepts. The YAML
-- parser, the file system and the environment are parameters. Of an error, the case is kept with
-- what its text quotes.
pub mod Validate
pub mod Load
pub mod Tests
use pglockr.Prelude.{ℕ, ◌*◌, Bool, true, false, List, [], ◌∷◌, Text, codes}
use pglockr.Prelude.Int.{ℤ, pos}
use pglockr.Prelude.Time.{Duration}

-- `PrincipalConfig`
pub record PrincipalConfig : Type 0 where
  pub name : Text
  pub role : Text
  pub token_env : Text
  pub token : Text

-- `RoleMappingConfig`
pub record RoleMapping : Type 0 where
  pub group : Text
  pub role : Text

-- `ProxyAuthConfig`
pub record ProxyAuth : Type 0 where
  pub user_header : Text
  pub groups_header : Text
  pub groups_sep : Text
  pub trust_mode : Text
  pub secret_header : Text
  pub secret_env : Text
  pub secret : Text
  pub default_role : Text
  pub role_mappings : List RoleMapping

-- `AuthConfig`
pub record AuthConfig : Type 0 where
  pub mode : Text
  pub token : Text
  pub principals : List PrincipalConfig
  pub proxy : ProxyAuth

-- `ClusterConfig`
pub record ClusterConfig : Type 0 where
  pub name : Text
  pub dsn : Text

-- `PollConfig`
pub record PollConfig : Type 0 where
  pub interval : Duration
  pub ring_size : ℤ
  pub statement_timeout : Duration
  pub waiters_only : Bool

-- `PersistConfig`
pub record PersistConfig : Type 0 where
  pub enabled : Bool
  pub path : Text
  pub retention : Duration

-- `Config`; of `HTTPConfig` and `RedactionConfig` there is one field each.
pub record Config : Type 0 where
  pub cluster : ClusterConfig
  pub poll : PollConfig
  pub http_addr : Text
  pub auth : AuthConfig
  pub persist : PersistConfig
  pub redaction : Bool

abbrev pub second : ℕ
second = 1000000000

abbrev no_proxy : ProxyAuth
no_proxy = record {
  user_header = [];
  groups_header = [];
  groups_sep = [];
  trust_mode = [];
  secret_header = [];
  secret_env = [];
  secret = [];
  default_role = [];
  role_mappings = [];
}

-- `Defaults`
abbrev pub defaults : Config
defaults = record {
  cluster = record { name = codes "default"; dsn = [] };
  poll = record {
    interval = pos second;
    ring_size = pos 300;
    statement_timeout = pos (3 * second);
    waiters_only = false;
  };
  http_addr = codes ":8080";
  auth = record { mode = []; token = []; principals = []; proxy = no_proxy };
  persist = record { enabled = false; path = []; retention = pos (24 * 3600 * second) };
  redaction = false;
}
