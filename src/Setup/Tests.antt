-- ===== src/Setup/Tests.antt =====
-- A role and a password with quotes in them.
use pglockr.Prelude.{
  ℕ, ◌≡◌, ◌≢◌, ◌++◌, refl, some, codes, true, List, [], ◌∷◌, All, Text, length, ok, arith,
}
use pglockr.Setup.Password.{random_password, decode, is_url_safe, random_password_lem}
use mathlib.Core.List.{head?}
use pglockr.Setup.{quote_ident, quote_literal}
use pglockr.Setup.Quotes.{read_quoted, behind_open, read-quoted_lem}

read-quoted_lem_example :
    (head? (codes ";") ≢ some b'\''
      → read_quoted b'\'' (behind_open (quote_literal (codes "o'k") ++ codes ";"))
        ≡ some (codes "o'k", codes ";"))
    × (head? (codes ";") ≢ some b'"'
        → read_quoted b'"' (behind_open (quote_ident (codes "o'k") ++ codes ";"))
          ≡ some (codes "o'k", codes ";"))
read-quoted_lem_example = read-quoted_lem (codes "o'k") (codes ";")

abbrev filled : List ℕ
filled =
    0 ∷ 255 ∷ 39 ∷ 251 ∷ 240 ∷ 7 ∷ 1 ∷ 2 ∷ 3 ∷ 4 ∷ 5 ∷ 6 ∷ 200 ∷ 201 ∷ 202 ∷ 63 ∷ 191 ∷ 128 ∷ []

random_password_lem_example :
    (pw : Text) × (random_password (ok filled) ≡ ok pw)
    × (length pw ≡ 24)
    × All (λ c. is_url_safe c ≡ true) pw
    × (decode pw ≡ filled)
    × (quote_literal pw ≡ b'\'' ∷ pw ++ b'\'' ∷ [])
random_password_lem_example = random_password_lem filled refl (omega arith)
