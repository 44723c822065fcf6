-- ===== src/Api/Actions.antt =====
-- Who can signal a backend, and what that leaves behind.
use pglockr.Prelude.{
  ℕ, ◌≡◌, ◌<◌, ◌⊎◌, inl, inr, refl, Bool, true, Option, none, some, ◌&&◌, Bool-cases, Text,
  if◌then◌else◌,
}
use mathlib.Core.List.{head?}
use pglockr.Prelude.Int.{ℤ, pos}
use pglockr.Prelude.Time.{Time}
use pglockr.Auth.{Principal, Request, operator, at_least, check_origin}
use pglockr.Audit.{Entry}
use pglockr.Audit.Memory.{Memory, memory_sink, recent}
use pglockr.Signal.{Action, Service, do_signal}
use pglockr.Signal.Trail.{do_signal_lem}
use pglockr.Api.{Response, handle_signal, post_signal}

-- The answers that act on nothing: no principal, a role below operator or a foreign origin, and no
-- process id.
abbrev pub Refusal : Option Principal → Bool → Option ℤ → ℕ → Type 0
Refusal none origin pid status = status ≡ 401
Refusal (some p) origin pid status =
    if at_least p.role operator && origin then (status ≡ 400) × (pid ≡ none) else (status ≡ 403)

-- The newest entry of a sink names who asked for what.
abbrev pub Newest : Option Memory → Text → Action → ℤ → Type 0
Newest sink actor action n =
    (m : Memory) × (e : Entry) × (sink ≡ some m)
    × (head? (recent (pos 1) m) ≡ some e)
    × (e.actor ≡ actor)
    × (e.action ≡ action)
    × (e.pid ≡ n)

module _ (authenticate : Request → Option Principal) (action : Action) (r : Request) (now : Time)
    (s : Service Memory) where
  acted :
      (m : Memory) (p : Principal) (n : ℤ)
      → s.sink ≡ some m
      → 0 < m.cap
      → Newest ((do_signal action n p.name now s).2).sink p.name action n
  acted m p n k h =
      let ((m', e, k', es, newest, (at, who, what, whom, query, told), d), o) =
        do_signal_lem action n p.name now s m k h in
      (m', e, k', newest, who, what, whom)

  -- With a sink in memory that can hold an entry, a request to signal a backend either changes
  -- nothing and is answered 401, 403 or 400 by what it lacks, or it comes from an operator at
  -- least with an origin that passes, names a process, and leaves an entry in the audit trail, the
  -- newest one, which names the caller, the action and the process.
  pub post_signal_lem :
      (pid : Option ℤ) (m : Memory)
      → s.sink ≡ some m
      → 0 < m.cap
      → let out : Response × Service Memory = post_signal authenticate action pid r now s in
        ((out.1 ≡ s) × Refusal (authenticate r) (check_origin r) pid (out.0).status)
        ⊎ ((p : Principal) × (n : ℤ) × (authenticate r ≡ some p)
            × (at_least p.role operator ≡ true)
            × (check_origin r ≡ true)
            × (pid ≡ some n)
            × Newest (out.1).sink p.name action n)
  unfolding post_signal handle_signal
  post_signal_lem pid m k h = by_caller (authenticate r) refl pid refl
    where
      by_caller :
          (a : Option Principal)
          → authenticate r ≡ a
          → (q : Option ℤ) → pid ≡ q
          → ((post_signal authenticate action pid r now s).1 ≡ s)
              × Refusal
                  (authenticate r)
                  (check_origin r)
                  pid
                  ((post_signal authenticate action pid r now s).0).status
            ⊎ ((p : Principal) × (n : ℤ) × (authenticate r ≡ some p)
                × (at_least p.role operator ≡ true)
                × (check_origin r ≡ true)
                × (pid ≡ some n)
                × Newest ((post_signal authenticate action pid r now s).1).sink p.name action n)
      by_caller none e q f = rw e (inl (refl, refl))
      by_caller (some p) e none f = elim (Bool-cases (at_least p.role operator)) [
        | inr g ↦ rw e (rw g (inl (refl, refl)))
        | inl g ↦ elim (Bool-cases (check_origin r)) [
          | inr o ↦ rw e (rw g (rw o (inl (refl, refl))))
          | inl o ↦ rw e (rw g (rw o (rw f (inl (refl, (refl, refl))))))
        ]
      ]
      by_caller (some p) e (some n) f = elim (Bool-cases (at_least p.role operator)) [
        | inr g ↦ rw e (rw g (inl (refl, refl)))
        | inl g ↦ elim (Bool-cases (check_origin r)) [
          | inr o ↦ rw e (rw g (rw o (inl (refl, refl))))
          | inl o ↦ rw e (rw g (rw o (rw f (inr (p, n, refl, g, refl, refl, acted m p n k h)))))
        ]
      ]
