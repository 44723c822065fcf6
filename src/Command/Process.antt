-- ===== src/Command/Process.antt =====
-- cmd/pglockr/main.go: `run` and `main`. What the libraries answer is a parameter: PostgreSQL's
-- driver, SQLite's, the embedded UI and the HTTP server, whose `ListenAndServe` returns when a
-- signal has shut it down or with an error.
pub mod Stages
pub mod Released
pub mod Tests
use pglockr.Prelude.{
  ℕ, Bool, true, false, List, [], ◌∷◌, Option, none, some, ◌⊎◌, inl, inr, Answer, ok, err, ◌++◌,
  if◌then◌else◌, ◌||◌, Text, codes, text_beq, text_eq,
}
use pglockr.Prelude.Int.{ℤ, pos, negsuc}
use pglockr.Store.{Store, Persister, new, set_persister}
use pglockr.Audit.Memory.{Memory, new_memory}
use pglockr.Metrics.Counts.{new_metrics}
use pglockr.Poller.{start}
use pglockr.Poller.Observed.{Observed}
use pglockr.Pg.{Capabilities}
use pglockr.Pg.Connect.{Driver, connect}
use pglockr.Persist.Open.{Opener, open_db}
use pglockr.Config.{Config}
use pglockr.Config.Validate.{LoadError}
use pglockr.Config.Load.{Surroundings, load}
use pglockr.Command.{Identity, IdentityError, build_identity, run_grants, preflight}
use pglockr.Setup.Password.{random_password}
use pglockr.Lifecycle.{
  signals, pool, database, Effect, acquired, does, Proc, Run, after, ◌>>=◌, ◌>>◌, pure, lift, note,
  defer, or_error, as_error, call, returned,
}

-- The sink of the audit trail: in memory, or the database of the history.
pub data AuditSink : Type 0 where
  in_memory : Memory → AuditSink
  in_history : AuditSink

-- What `run` does beside acquiring and releasing: the output of the preflight, the start of the
-- poller with its observer, with redaction or without, and the start of the HTTP server, with the
-- identity source, the store that it answers from, and the sink. The lookup of a victim's query,
-- which reads the store when it is called, is `victim_lookup` of Command.antt.
pub data Deed : Type 0 where
  printed : Text → Deed
  polls : Bool → Observed → Deed
  listens : Text → Identity → Store → AuditSink → Deed

pub data RunError : Type 0 where
  bad_config : LoadError → RunError
  bad_connection bad_history bad_ui bad_listener : Text → RunError
  bad_identity : IdentityError → RunError

-- What `run` calls. `history` is the opened database as the persister of a store.
pub record World : Type 0 where
  pub files : Surroundings
  pub driver : Driver
  pub capabilities : Answer Capabilities
  pub opener : Opener
  pub history : Persister
  pub ui : Answer (Unit {0})
  pub hash_token : Text → Text
  pub listen : Text → Answer (Unit {0})

-- An `int` that is given as a size, and a duration that is not negative.
abbrev pub to_nat : ℤ → ℕ
to_nat (pos n) = n
to_nat (negsuc n) = 0

abbrev pub Step : Type 0 → Type 0
Step A = Run Deed RunError A

abbrev pub print_if : Option Text → Step (Unit {0})
print_if none p = pure tt p
print_if (some t) p = note (does (printed t)) p

abbrev pub open_if : Bool → World → Config → Store → Step (Store × AuditSink)
open_if false w cfg s p = pure (s, in_memory (new_memory 1000)) p
open_if true w cfg s p =
    (do
      call bad_history (open_db w.opener cfg.persist.path)
      defer database
      pure (set_persister (some w.history) s, in_history))
      p

-- The block of `run` that opens the history if that is enabled.
pub open_history : World → Config → Store → Step (Store × AuditSink)
open_history w cfg s = open_if cfg.persist.enabled w cfg s

-- The poller of `run`, with the metrics as its observer.
abbrev pub observed : Config → Store → Observed
observed cfg s = record {
  poller = start cfg.cluster.name s (to_nat cfg.poll.interval);
  obs = some new_metrics;
}

-- `run` from the start of the poller on, with the store and the sink.
pub serve_from : World → Config → Store × AuditSink → Step (Unit {0})
serve_from w cfg s = do
  note (does (polls cfg.redaction (observed cfg s.0)))
  lift (or_error bad_ui w.ui)
  identity ← lift (as_error bad_identity (build_identity w.hash_token cfg.auth))
  note (does (listens cfg.http_addr identity s.0 s.1))
  lift (or_error bad_listener (w.listen cfg.http_addr))

-- `run` behind `Load`.
pub run_with : World → Config → Step (Unit {0})
run_with w cfg = do
  note (acquired signals)
  defer signals
  num ← call bad_connection (connect w.driver cfg.cluster.dsn)
  defer pool
  print_if (preflight w.capabilities)
  s ← open_history w cfg (new (to_nat cfg.poll.ring_size))
  serve_from w cfg s

pub run_steps : World → Text → Step (Unit {0})
run_steps w path = do cfg ← lift (as_error bad_config (load w.files path)); run_with w cfg

-- `run`: its error, if any, and all that it did, newest first.
pub run : World → Text → (RunError ⊎ Unit {0}) × List (Effect Deed)
run w path = returned (run_steps w path (record { log = []; deferred = [] }))

-- What the process ends with: the exit status, and the texts for the two outputs.
pub record Exit : Type 0 where
  pub status : ℕ
  pub stdout : Text
  pub deeds : List (Effect Deed)

-- The flags: of `grants`, the role, the password and `-no-signal`; of the server, the path of the
-- configuration. Go's flag package parses them.
pub record Flags : Type 0 where
  pub grants : List Text → Text × Text × Bool
  pub config : List Text → Text

abbrev granted : Answer (Text × Option Text) → Exit
granted (ok (sql, shown)) = record { status = 0; stdout = sql; deeds = [] }
granted (err e) = record { status = 1; stdout = []; deeds = [] }

abbrev ended : (RunError ⊎ Unit {0}) × List (Effect Deed) → Exit
ended (inl e, log) = record { status = 1; stdout = []; deeds = log }
ended (inr u, log) = record { status = 0; stdout = []; deeds = log }

abbrev grants_of : Answer Text → Text × Text × Bool → Exit
grants_of random (role, password, no_signal) = granted (run_grants random role password no_signal)

-- `main` on the arguments behind the name of the program, with what `rand.Read` returns; of the
-- version, the line that it prints.
pub main : World → Flags → Answer (List ℕ) → Text → List Text → Exit
main w flags filled version [] = ended (run w (flags.config []))
main w flags filled version (a ∷ args) =
    if text_beq a (codes "grants")
    then grants_of (random_password filled) (flags.grants args)
    else if text_beq a (codes "version") || text_beq a (codes "--version")
    then record { status = 0; stdout = codes "pglockr " ++ version ++ codes "\n"; deeds = [] }
    else ended (run w (flags.config (a ∷ args)))
