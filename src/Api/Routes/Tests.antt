-- ===== src/Api/Routes/Tests.antt =====
-- A router that compares the start of a path with a pattern, and an admin who asks for the audit
-- trail.
use pglockr.Prelude.{
  ℕ, zero, suc, ◌≡◌, ◌⊎◌, refl, true, false, Bool, ◌&&◌, List, [], ◌∷◌, Option, none, some,
  if◌then◌else◌, get_elem?, Text, codes, length, drop, has_prefix, arith, err, subst,
}
use pglockr.Auth.{Principal, admin, at_least}
use pglockr.Audit.Memory.{Memory, memory_sink}
use pglockr.Signal.Tests.{service}
use pglockr.Store.{new}
use pglockr.Api.Tests.{request}
use pglockr.Api.Routes.{Env, Router, App, Http, Reaction, Found, hit, miss, Pattern, fits, present}
use pglockr.Api.Routes.Dispatch.{serve}
use pglockr.Api.Routes.Access.{is_public, shows_trail, Acted}
use pglockr.Api.Routes.Serve.{serve_lem}

abbrev bump : Found → Found
bump (hit n) = hit (suc n)
bump (miss status) = miss status

abbrev matches : Text → Text → Text → Pattern → Bool
matches prefix method path p = fits p.0 method && has_prefix (drop (length prefix) path) p.1

abbrev first_fit : Text → List Pattern → Text → Text → Found
first_fit prefix [] method path = miss 404
first_fit prefix (p ∷ ps) method path =
    let rest = bump (first_fit prefix ps method path) in
    if matches prefix method path p then hit 0 else rest

chosen_first : (b : Bool) (f : Found) → (if b then hit 0 else bump f) ≡ hit zero → b ≡ true
chosen_first true f e = refl
chosen_first false (hit n) e = absurd (ground arith)
chosen_first false (miss status) e = absurd (ground arith)

chosen_later :
    (b : Bool) (f : Found) (n : ℕ) → (if b then hit 0 else bump f) ≡ hit (suc n) → f ≡ hit n
chosen_later true f n e = absurd (ground arith)
chosen_later false (hit k) n e = cc
chosen_later false (miss status) n e = absurd (ground arith)

both : (a b : Bool) → a && b ≡ true → a ≡ true
both a b e = ground arith

first_fit-fits :
    (prefix : Text) (ps : List Pattern) (method path : Text) (n : ℕ) (p : Pattern)
    → first_fit prefix ps method path ≡ hit n
    → get_elem? ps n ≡ some p
    → fits p.0 method ≡ true
first_fit-fits prefix [] method path n p e g = absurd (ground arith)
first_fit-fits prefix (q ∷ ps) method path zero p e g =
    let here : q ≡ p = cc in
    subst (λ (r : Pattern). fits r.0 method ≡ true) here
      (both (fits q.0 method) (has_prefix (drop (length prefix) path) q.1)
        (chosen_first (matches prefix method path q) (first_fit prefix ps method path) e))
first_fit-fits prefix (q ∷ ps) method path (suc n) p e g =
    first_fit-fits prefix ps method path n p
      (chosen_later (matches prefix method path q) (first_fit prefix ps method path) n e) g

abbrev by_prefix : Router
by_prefix = record { pick = first_fit; pick_lem = first_fit-fits }

abbrev root : Principal
root = record { name = codes "root"; role = admin }

abbrev env : Env
env = record {
  identity = λ r. some root;
  atoi = λ t. none;
  parse_time = λ t. none;
  locks = err (codes "down");
  hot_objects = err (codes "down");
  stat = λ t. present;
}

abbrev app : App Memory
app = record {
  store = new 2;
  status = record { cluster = codes "main"; connected = true; last_poll = 0; last_error = [] };
  service = service;
}

abbrev ask_audit : Http
ask_audit = record {
  method = codes "GET";
  path = codes "/api/audit";
  query = λ k. [];
  param = λ k. [];
  asks = request;
  now = 9;
}

serve_lem_example :
    let out : Reaction × App Memory = serve env by_prefix true ask_audit app in
    (◌≡◌ {A = Option Principal} (some root) none → (out.1 ≡ app) × (is_public out.0 ≡ true))
    × ((p : Principal)
        → ◌≡◌ {A = Option Principal} (some root) (some p)
        → ((out.1 ≡ app) ⊎ ((codes "GET" ≡ codes "POST") × Acted env ask_audit app p out.1))
          × (shows_trail out.0 ≡ true → at_least p.role admin ≡ true))
serve_lem_example = serve_lem env by_prefix true ask_audit app
