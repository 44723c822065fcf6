-- ===== src/Setup.antt =====
-- internal/setup/grants.go: the SQL that provisions the database role.
pub mod Quotes
pub mod Password
pub mod Tests
use pglockr.Prelude.{ℕ, Bool, true, false, List, [], ◌∷◌, ◌++◌, if◌then◌else◌, nat_beq, Text, codes}

pub record GrantOptions : Type 0 where
  pub role : Text
  pub password : Text
  pub signal : Bool

-- `strings.ReplaceAll(s, q, q + q)`, for a quote `q`.
unfoldable pub double_quotes : ℕ → Text → Text
double_quotes q [] = []
double_quotes q (c ∷ s) = if nat_beq c q then q ∷ q ∷ double_quotes q s else c ∷ double_quotes q s

-- `quoteIdent`
unfoldable pub quote_ident : Text → Text
quote_ident s = b'"' ∷ double_quotes b'"' s ++ b'"' ∷ []

-- `quoteLiteral`
unfoldable pub quote_literal : Text → Text
quote_literal s = b'\'' ∷ double_quotes b'\'' s ++ b'\'' ∷ []

abbrev grant : Text → Text → Text
grant privilege role = codes "GRANT " ++ privilege ++ codes " TO " ++ role ++ codes ";"

abbrev pub grant_monitor : Text → Text
grant_monitor = grant (codes "pg_monitor")

abbrev pub grant_signal : Text → Text
grant_signal = grant (codes "pg_signal_backend")

-- `Script` up to its `if`.
abbrev pub preamble : Text → Text → Text
preamble role password =
    codes "-- pglockr access role, generated by `pglockr grants`. Review before applying.\n"
    ++ codes "-- pg_monitor lets pglockr read other backends' query texts;\n"
    ++ codes "-- pg_signal_backend lets it cancel/terminate them.\n\n"
    ++ codes "CREATE ROLE "
    ++ role
    ++ codes " LOGIN PASSWORD "
    ++ quote_literal password
    ++ codes ";\n"

abbrev pub read_only_note : Text
read_only_note =
    codes "-- (read-only viewer: pg_signal_backend omitted; cancel/terminate disabled)\n"

-- `Script`
pub script : GrantOptions → Text
script o =
    let role = quote_ident o.role in
    preamble role o.password
    ++ (grant_monitor role ++ codes "\n")
    ++ (if o.signal then grant_signal role ++ codes "\n" else read_only_note)

-- `strings.Join`
abbrev pub join : Text → List Text → Text
join sep [] = []
join sep (l ∷ []) = l
join sep (l ∷ m ∷ ls) = l ++ sep ++ join sep (m ∷ ls)

abbrev line_if : Bool → Text → List Text → List Text
line_if true l ls = l ∷ ls
line_if false l ls = ls

-- `Remediation`
pub remediation : Text → Bool → Bool → Text
remediation role needs_stats needs_signal =
    let r = quote_ident role in
    join (codes "\n")
      (line_if needs_stats (grant_monitor r) (line_if needs_signal (grant_signal r) []))
