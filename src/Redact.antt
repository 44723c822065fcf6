-- ===== src/Redact.antt =====
-- internal/redact/redact.go: `Mask`, the lexer that replaces literals in SQL texts by `?`. The
-- index `i` into the runes is a cursor: the rune before `i`, and the runes from `i` on. So `i++` is
-- to move one rune, and `i = n` is to have none left.
pub mod Scan
pub mod Step
pub mod Tokens
pub mod Leaks
pub mod Source
pub mod Tests
use pglockr.Prelude.{
  ℕ, zero, suc, ◌+◌, Bool, true, false, ◌&&◌, ◌||◌, not, List, [], ◌∷◌, ◌++◌, Option, none, some,
  if◌then◌else◌, ltb, leb, nat_beq, length, Text, codes,
}

pub record Cursor : Type 0 where
  pub prev : Option ℕ
  pub rest : Text

abbrev pub cur : Option ℕ → Text → Cursor
cur p r = record { prev = p; rest = r }

abbrev between : ℕ → ℕ → ℕ → Bool
between lo hi c = leb lo c && leb c hi

abbrev pub is_digit : ℕ → Bool
is_digit c = between b'0' b'9' c

-- `isWord`
abbrev pub is_word : ℕ → Bool
is_word c = nat_beq c b'_' || between b'a' b'z' c || between b'A' b'Z' c || is_digit c

abbrev pub prev_is_word : Option ℕ → Bool
prev_is_word none = false
prev_is_word (some c) = is_word c

-- `for i < n && r[i] != '\n' { i++ }`
pub skip_line : Option ℕ → Text → Cursor
skip_line p [] = cur p []
skip_line p (c ∷ r) =
    let more = skip_line (some c) r in if nat_beq c b'\n' then cur p (c ∷ r) else more

-- The loop in a block comment, and the `i += 2` after it, cut off at `n`.
pub skip_block : Option ℕ → Text → Cursor
skip_block p [] = cur p []
skip_block p (c ∷ []) = cur (some c) []
skip_block p (c ∷ d ∷ r) =
    let more = skip_block (some c) (d ∷ r) in
    if nat_beq c b'*' && nat_beq d b'/' then cur (some d) r else more

-- The loop in a string literal, from behind its first quote.
pub skip_string : Option ℕ → Text → Cursor
skip_string p [] = cur p []
skip_string p (c ∷ []) = cur (some c) []
skip_string p (c ∷ d ∷ r) =
    let escaped = skip_string (some d) r in
    let more = skip_string (some c) (d ∷ r) in
    if nat_beq c b'\'' then if nat_beq d b'\'' then escaped else cur (some c) (d ∷ r) else more

-- The word runes at the front, for the tag of a dollar quote, and what follows them.
pub span_word : Text → Text × Text
span_word [] = ([], [])
span_word (c ∷ r) = let (w, s) = span_word r in if is_word c then (c ∷ w, s) else ([], c ∷ r)

-- The bytes of a rune in UTF-8.
abbrev pub width : ℕ → ℕ
width c = if ltb c 0x80 then 1 else if ltb c 0x800 then 2 else if ltb c 0x10000 then 3 else 4

pub starts_with : Text → Text → Bool
starts_with r [] = true
starts_with [] (t ∷ ts) = false
starts_with (c ∷ r) (t ∷ ts) = nat_beq c t && starts_with r ts

abbrev later : ℕ → Option ℕ → Option ℕ
later k none = none
later k (some n) = some (k + n)

-- `strings.Index(rest, tag)`: an offset in bytes.
pub index : Text → Text → Option ℕ
index tag [] = if starts_with [] tag then some 0 else none
index tag (c ∷ r) =
    let more = index tag r in if starts_with (c ∷ r) tag then some 0 else later (width c) more

-- `i += k`, cut off at `n`.
pub advance : ℕ → Option ℕ → Text → Cursor
advance zero p r = cur p r
advance (suc k) p [] = cur p []
advance (suc k) p (c ∷ r) = advance k (some c) r

-- The digits of a positional parameter are written and passed over.
pub copy_digits : Option ℕ → Text → Text × Cursor
copy_digits p [] = ([], cur p [])
copy_digits p (c ∷ r) =
    let (w, s) = copy_digits (some c) r in if is_digit c then (c ∷ w, s) else ([], cur p (c ∷ r))

-- The rest of a quoted identifier, through its second quote.
pub copy_ident : Option ℕ → Text → Text × Cursor
copy_ident p [] = ([], cur p [])
copy_ident p (c ∷ r) =
    let (w, s) = copy_ident (some c) r in
    if nat_beq c b'"' then (c ∷ [], cur (some c) r) else (c ∷ w, s)

abbrev is_exponent : Option ℕ → Bool
is_exponent none = false
is_exponent (some c) = nat_beq c b'e' || nat_beq c b'E'

abbrev is_sign : ℕ → Bool
is_sign c = nat_beq c b'+' || nat_beq c b'-'

-- Whether the loop in a number goes on at rune `c` behind `p`.
unfoldable pub number_goes : Option ℕ → ℕ → Bool
number_goes p c =
    (nat_beq c b'.' || nat_beq c b'e' || nat_beq c b'E' || is_sign c || is_digit c)
    && not (is_sign c && not (is_exponent p))

pub skip_number : Option ℕ → Text → Cursor
skip_number p [] = cur p []
skip_number p (c ∷ r) =
    let more = skip_number (some c) r in if number_goes p c then more else cur p (c ∷ r)

abbrev starts_rune : ℕ → Text → Bool
starts_rune c [] = false
starts_rune c (d ∷ r) = nat_beq c d

abbrev write : Text → Text × Cursor → Text × Cursor
write w (v, c) = (w ++ v, c)

-- A dollar quote whose opening tag is `$w$`, from behind that tag.
pub dollar_body : Text → Option ℕ → Text → Option ℕ → Text × Cursor
dollar_body tag p body none = (codes "?", cur none [])
dollar_body tag p body (some end) = (codes "?", advance (end + length tag) p body)

-- `case c == '$'`: behind the `$` come the word `w` and then `s`.
pub dollar_case : Text → Text → Text → Text × Cursor
dollar_case r w [] = write (codes "$") (copy_digits (some b'$') r)
dollar_case r w (d ∷ s) =
    if nat_beq d b'$'
    then dollar_body (b'$' ∷ w ++ d ∷ []) (some d) s (index (b'$' ∷ w ++ d ∷ []) s)
    else write (codes "$") (copy_digits (some b'$') r)

abbrev dollar : Text → Text × Cursor
dollar r = let (w, s) = span_word r in dollar_case r w s

-- Behind the marker that opens a comment.
abbrev pub behind_open : ℕ → Text → Text
behind_open c [] = []
behind_open c (d ∷ r) = r

-- One round of the outer loop at rune `c` behind `p` and before `r`: what is written, and where `i`
-- is then.
pub step : Option ℕ → ℕ → Text → Text × Cursor
step p c r =
    if nat_beq c b'-' && starts_rune b'-' r
    then (codes "--?", skip_line p (c ∷ r))
    else if nat_beq c b'/' && starts_rune b'*' r
    then (codes "/*?*/", skip_block (some b'*') (behind_open c r))
    else if nat_beq c b'\''
    then (codes "?", skip_string (some c) r)
    else if nat_beq c b'$'
    then dollar r
    else if nat_beq c b'"'
    then write (c ∷ []) (copy_ident (some c) r)
    else if is_digit c && not (prev_is_word p)
    then (codes "?", skip_number p (c ∷ r))
    else (c ∷ [], cur (some c) r)

-- The outer loop. A round takes one rune at least, so `n` rounds are enough.
pub mask_loop : ℕ → Option ℕ → Text → Text
mask_loop zero p r = []
mask_loop (suc f) p [] = []
mask_loop (suc f) p (c ∷ r) = let (w, s) = step p c r in w ++ mask_loop f s.prev s.rest

pub mask : Text → Text
mask q = mask_loop (length q) none q
