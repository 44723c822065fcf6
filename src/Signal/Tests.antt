-- ===== src/Signal/Tests.antt =====
-- A service whose signals PostgreSQL accepts.
use pglockr.Prelude.{
  ◌≡◌, refl, true, false, [], ◌∷◌, ◌++◌, Option, none, some, take_last, codes, Text, arith,
}
use mathlib.Core.List.{head?}
use pglockr.Prelude.Int.{pos}
use pglockr.Audit.{Entry}
use pglockr.Audit.Memory.{Memory, memory_sink, recent}
use pglockr.Signal.{Reply, Service, Result, action_terminate, do_signal}
use pglockr.Signal.Record.{known_query, IsEntry}
use pglockr.Signal.Trail.{reply_to, do_signal_lem}

abbrev pub trail : Memory
trail = record { entries = []; cap = 10 }

abbrev pub service : Service Memory
service = record {
  sig = record { cancel = λ p. (true, none); terminate = λ p. (false, some (codes "denied")) };
  query_lookup = none;
  sink = some trail;
  obs = some [];
  sent = [];
}

do_signal_lem_example :
    let reply : Reply = reply_to action_terminate (pos 7) service.sig in
    let out : Result × Option Text × Service Memory =
      do_signal action_terminate (pos 7) (codes "bob") 9 service in
    ((m' : Memory) × (entry : Entry) × ((out.2).sink ≡ some m')
      × (m'.entries ≡ take_last trail.cap (trail.entries ++ entry ∷ []))
      × (head? (recent (pos 1) m') ≡ some entry)
      × IsEntry action_terminate
          (pos 7)
          (codes "bob")
          9
          (known_query service.query_lookup (pos 7))
          reply
          entry
      × ((out.0).delivered ≡ entry.delivered))
    × (out.1 ≡ reply.1)
do_signal_lem_example =
    do_signal_lem action_terminate (pos 7) (codes "bob") 9 service trail refl (omega arith)
