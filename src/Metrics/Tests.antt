-- ===== src/Metrics/Tests.antt =====
-- Polls of two clusters, and two attempts to cancel.
use pglockr.Prelude.{true, false, List, [], ◌∷◌, codes, text_eq}
use pglockr.Prelude.Int.{pos}
use pglockr.Metrics.Counts.{Poll}

abbrev polls : List Poll
polls =
    (record { cluster = codes "main"; took = pos 5; failed = false })
    ∷ (record { cluster = codes "main"; took = pos 9; failed = true })
    ∷ (record { cluster = codes "other"; took = pos 9; failed = true })
    ∷ []
