-- ===== src/Command/Tests.antt =====
-- The identity source of the loaded configuration, and two rounds of polls with redaction on.
use pglockr.Prelude.{refl, List, [], ◌∷◌, ◌⊎◌, codes, true, false, All}
use pglockr.Prelude.Int.{ℤ}
use pglockr.Config.Tests.{surroundings, loaded, load-loaded}
use pglockr.Graph.Builder.Tests.{in_order, in_order-IsWalk}
use pglockr.Pg
use pglockr.Pg.Tests.{client}
use pglockr.Store.{new}
use pglockr.Store.Ring.{contents}
use pglockr.Poller.{Round, start, run}
use pglockr.Command.{build_identity, choose_source, victim_lookup}
use pglockr.Pg.{capabilities}
use pglockr.Command.Redacted.{IsRedacted, HasMasked, MaskedIfAny, redaction_lem}
use pglockr.Command.Starts.{IsTokens, IsTrustedProxy, load-build_identity}

load-build_identity_example :
    IsTokens (λ t. t) [] loaded.auth (build_identity (λ t. t) loaded.auth)
    ⊎ IsTrustedProxy loaded.auth (build_identity (λ t. t) loaded.auth)
load-build_identity_example =
    load-build_identity (λ t. t) surroundings (codes "p.yaml") {cfg = loaded} load-loaded

abbrev redacted_round : Round
redacted_round = record {
  polled = choose_source true (Pg.snapshot client);
  walk = in_order;
  built_at = 9;
  polled_at = 9;
  elapsed = 1;
  done = false;
  cancelled = false;
}

abbrev rounds : List Round
rounds = redacted_round ∷ redacted_round ∷ []

rounds-IsRedacted : All IsRedacted rounds
rounds-IsRedacted = ((in_order-IsWalk, (client, refl)), ((in_order-IsWalk, (client, refl)), tt))

redaction_lem_example :
    All
      (λ x. HasMasked x.sessions)
      (contents (run rounds (start (codes "main") (new 2) 1000000000)).store)
    × ((pid : ℤ)
        → MaskedIfAny
            (victim_lookup (run rounds (start (codes "main") (new 2) 1000000000)).store pid))
redaction_lem_example = redaction_lem (codes "main") 2 1000000000 rounds rounds-IsRedacted
