-- ===== src/Command/Process/Tests.antt =====
-- A start with the history on a driver that answers, and a server that a signal ends.
use pglockr.Prelude.{◌≡◌, [], ok, err, none, some, codes, ◌⊎◌, inl, inr}
use pglockr.Config.{Config}
use pglockr.Config.Validate.{LoadError}
use pglockr.Config.Load.{load}
use pglockr.Config.Tests.{surroundings}
use pglockr.Command.{Identity, build_identity}
use pglockr.Lifecycle.{held, deeds}
use pglockr.Command.Process.{World, bad_config, run}
use pglockr.Command.Process.Stages.{Ends}
use pglockr.Command.Process.Released.{held-run}

abbrev world : World
world = record {
  files = surroundings;
  driver = record {
    parse_config = λ dsn. ok tt;
    new_pool = ok tt;
    version_row = ok (codes "160004");
    atoi = λ s. ok 160004;
    quoted = λ s. s;
  };
  capabilities = err (codes "denied");
  opener = record {
    sql_open = λ dsn. ok tt;
    exec_schema = ok tt;
    exec_audit_schema = err (codes "disk full");
    quoted = λ s. s;
  };
  history = record { at = λ t. ok none; history = λ from to. ok [] };
  ui = ok tt;
  hash_token = λ t. t;
  listen = λ addr. ok tt;
}

held-run_example :
    (held (run world (codes "p.yaml")).1 ≡ some [])
    × (((e : LoadError) × (load world.files (codes "p.yaml") ≡ inl e)
          × (run world (codes "p.yaml") ≡ (inl (bad_config e), [])))
        ⊎ ((cfg : Config) × (id : Identity) × (load world.files (codes "p.yaml") ≡ inr cfg)
            × (build_identity world.hash_token cfg.auth ≡ inr id)
            × Ends world cfg id
                (run world (codes "p.yaml")).0
                (deeds (run world (codes "p.yaml")).1)))
held-run_example = held-run world (codes "p.yaml")
