-- ===== src/Lifecycle.antt =====
-- How a Go function acquires resources, fails with an error and releases on its return what it
-- deferred: a state that is passed on by each step, or an error.
use pglockr.Prelude.{
  ◌≡◌, refl, ◌∙◌, ap, List, [], ◌∷◌, Option, none, some, ◌⊎◌, inl, inr, Answer, ok, err, Bool, true,
  false, if◌then◌else◌, Text,
}

-- What is to be released: the handler of the process's signals, the pool of PostgreSQL, and the
-- database of the history.
pub data Resource : Type 0 where
  signals pool database : Resource

-- What happens, with what else a program does.
pub data Effect (N : Type 0) : Type 0 where
  acquired released : Resource → Effect N
  does : N → Effect N

-- What has happened, newest first, and what is deferred, the last first.
pub record Proc (N : Type 0) : Type 0 where
  pub log : List (Effect N)
  pub deferred : List Resource

abbrev pub Run : Type 0 → Type 0 → Type 0 → Type 0
Run N E A = Proc N → (E ⊎ A) × Proc N

abbrev pub after : {N E A B : Type 0} → (E ⊎ A) × Proc N → (A → Run N E B) → (E ⊎ B) × Proc N
after (inl e, p) f = (inl e, p)
after (inr a, p) f = f a p

infixl 5 ◌>>=◌ ◌>>◌
abbrev pub ◌>>=◌ : {N E A B : Type 0} → Run N E A → (A → Run N E B) → Run N E B
◌>>=◌ m f p = after (m p) f

abbrev pub ◌>>◌ : {N E B : Type 0} → Run N E (Unit {0}) → Run N E B → Run N E B
m >> k = m >>= λ _. k

abbrev pub pure : {N E A : Type 0} → A → Run N E A
pure a p = (inr a, p)

-- A return on an error, if there is one.
abbrev pub lift : {N E A : Type 0} → E ⊎ A → Run N E A
lift r p = (r, p)

abbrev pub note : {N E : Type 0} → Effect N → Run N E (Unit {0})
note e p = (inr tt, record p { log = e ∷ p.log })

-- `defer` of the release of a resource.
abbrev pub defer : {N E : Type 0} → Resource → Run N E (Unit {0})
defer r p = (inr tt, record p { deferred = r ∷ p.deferred })

-- The error of a call as the caller's own.
abbrev pub or_error : {E A : Type 0} → (Text → E) → Answer A → E ⊎ A
or_error f (ok a) = inr a
or_error f (err t) = inl (f t)

abbrev pub as_error : {E F A : Type 0} → (E → F) → E ⊎ A → F ⊎ A
as_error f (inl e) = inl (f e)
as_error f (inr a) = inr a

-- A call of another function with its errors as the caller's.
abbrev pub call : {N E F A : Type 0} → (E → F) → Run N E A → Run N F A
call f m p = (as_error f (m p).0, (m p).1)

-- A return on an error, which releases a resource first.
abbrev pub or_release : {N E A : Type 0} → Resource → E ⊎ A → Run N E A
or_release r (inr a) p = (inr a, p)
or_release r (inl e) p = (inl e, record p { log = released r ∷ p.log })

abbrev pub unwind : {N : Type 0} → List Resource → List (Effect N) → List (Effect N)
unwind [] log = log
unwind (r ∷ rs) log = unwind rs (released r ∷ log)

-- The return of a function: its deferred calls, the last first.
abbrev pub returned : {N E A : Type 0} → (E ⊎ A) × Proc N → (E ⊎ A) × List (Effect N)
returned (r, p) = (r, unwind p.deferred p.log)

abbrev same : Resource → Resource → Bool
same signals signals = true
same signals pool = false
same signals database = false
same pool signals = false
same pool pool = true
same pool database = false
same database signals = false
same database pool = false
same database database = true

abbrev pop : Resource → List Resource → Option (List Resource)
pop r [] = none
pop r (s ∷ rs) = if same r s then some rs else none

abbrev pub after_effect : {N : Type 0} → Effect N → Option (List Resource) → Option (List Resource)
after_effect (acquired r) none = none
after_effect (acquired r) (some rs) = some (r ∷ rs)
after_effect (released r) none = none
after_effect (released r) (some rs) = pop r rs
after_effect (does n) o = o

-- What is held after a log, the last acquired first; none if something was released that was not
-- held, or not the last acquired.
abbrev pub held : {N : Type 0} → List (Effect N) → Option (List Resource)
held [] = some []
held (e ∷ log) = after_effect e (held log)

-- What is held is what is deferred.
abbrev pub IsTidy : {N : Type 0} → Proc N → Type 0
IsTidy p = held p.log ≡ some p.deferred

-- What was done beside acquiring and releasing, newest first.
abbrev pub deeds : {N : Type 0} → List (Effect N) → List N
deeds [] = []
deeds (acquired r ∷ log) = deeds log
deeds (released r ∷ log) = deeds log
deeds (does n ∷ log) = n ∷ deeds log

pub deeds-unwind :
    {N : Type 0} (rs : List Resource) (log : List (Effect N)) → deeds (unwind rs log) ≡ deeds log
deeds-unwind [] log = refl
deeds-unwind (r ∷ rs) log = deeds-unwind rs (released r ∷ log)

same_refl : (r : Resource) → same r r ≡ true
same_refl signals = refl
same_refl pool = refl
same_refl database = refl

pub released_last :
    {N : Type 0} (r : Resource) (rs : List Resource) (log : List (Effect N))
    → held log ≡ some (r ∷ rs)
    → held {N = N} (released r ∷ log) ≡ some rs
released_last {N} r rs log e =
    ap (after_effect {N = N} (released r)) e ∙ ap (λ b. if b then some rs else none) (same_refl r)

-- The return of a function that holds what it deferred leaves nothing held.
pub held-unwind :
    {N : Type 0} (rs : List Resource) (log : List (Effect N))
    → held log ≡ some rs
    → held (unwind rs log) ≡ some []
held-unwind [] log e = e
held-unwind (r ∷ rs) log e = held-unwind rs (released r ∷ log) (released_last r rs log e)

pub held-acquired :
    {N : Type 0} (r : Resource) {rs : List Resource} (log : List (Effect N))
    → held log ≡ some rs
    → held {N = N} (acquired r ∷ log) ≡ some (r ∷ rs)
held-acquired {N} r log e = ap (after_effect {N = N} (acquired r)) e

-- What a function leaves to its caller: this resource if it succeeds, and nothing if it fails. It
-- does nothing else.
abbrev pub HoldsOnSuccess : {N E A : Type 0} → Resource → Proc N → (E ⊎ A) × Proc N → Type 0
HoldsOnSuccess r p (inl e, q) =
    (held q.log ≡ some p.deferred) × (q.deferred ≡ p.deferred) × (deeds q.log ≡ deeds p.log)
HoldsOnSuccess r p (inr a, q) =
    (held q.log ≡ some (r ∷ p.deferred)) × (q.deferred ≡ p.deferred) × (deeds q.log ≡ deeds p.log)

-- A last step that releases the resource if it fails.
pub or_release-HoldsOnSuccess :
    {N E A : Type 0} (r : Resource) (p : Proc N) (m : E ⊎ A)
    → IsTidy p
    → HoldsOnSuccess r p (or_release r m (record p { log = acquired r ∷ p.log }))
or_release-HoldsOnSuccess r p (inr a) t = (held-acquired r p.log t, refl, refl)
or_release-HoldsOnSuccess r p (inl e) t =
    (released_last r p.deferred (acquired r ∷ p.log) (held-acquired r p.log t), refl, refl)
