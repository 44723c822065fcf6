-- ===== src/Redact/Tokens.antt =====
-- A description of SQL text by tokens, which the lexer of redact.go has no notion of: how each
-- token is spelled, what a redaction may show of it, and which texts the tokens can stand in.
pub mod Loops
pub mod Mask
use pglockr.Prelude.{
  ℕ, Bool, true, false, ◌&&◌, not, ◌≡◌, List, [], ◌∷◌, ◌++◌, Option, none, some, if◌then◌else◌, ltb,
  nat_beq, Text, codes, All,
}
use pglockr.Redact.{is_digit, is_word, prev_is_word, number_goes, starts_with}

-- A rune that is kept, a string, a number (its first digit and the rest), a line comment, a block
-- comment, a dollar quote (its tag and its body), a positional parameter, a quoted identifier.
pub data Token : Type 0 where
  plain : ℕ → Token
  str : Text → Token
  num : ℕ → Text → Token
  line block : Text → Token
  dollar : Text → Text → Token
  param ident : Text → Token

-- A string literal writes each quote twice.
abbrev pub double : ℕ → Text → Text
double q [] = []
double q (c ∷ s) = if nat_beq c q then c ∷ c ∷ double q s else c ∷ double q s

abbrev pub tag_of : Text → Text
tag_of w = b'$' ∷ w ++ b'$' ∷ []

-- The spelling of a token: its first rune and the others.
abbrev pub head_of : Token → ℕ
head_of (plain c) = c
head_of (str s) = b'\''
head_of (num d s) = d
head_of (line s) = b'-'
head_of (block s) = b'/'
head_of (dollar w s) = b'$'
head_of (param s) = b'$'
head_of (ident s) = b'"'

abbrev pub tail_of : Token → Text
tail_of (plain c) = []
tail_of (str s) = double b'\'' s ++ b'\'' ∷ []
tail_of (num d s) = s
tail_of (line s) = b'-' ∷ s
tail_of (block s) = b'*' ∷ s ++ b'*' ∷ b'/' ∷ []
tail_of (dollar w s) = w ++ (b'$' ∷ (s ++ tag_of w))
tail_of (param s) = s
tail_of (ident s) = s ++ b'"' ∷ []

abbrev pub render : List Token → Text
render [] = []
render (t ∷ ts) = head_of t ∷ tail_of t ++ render ts

-- What is shown of a token: nothing of a literal or a comment.
abbrev pub shown : Token → Text
shown (plain c) = c ∷ []
shown (str s) = codes "?"
shown (num d s) = codes "?"
shown (line s) = codes "--?"
shown (block s) = codes "/*?*/"
shown (dollar w s) = codes "?"
shown (param s) = b'$' ∷ s
shown (ident s) = b'"' ∷ s ++ b'"' ∷ []

abbrev pub redacted : List Token → Text
redacted [] = []
redacted (t ∷ ts) = shown t ++ redacted ts

-- The last rune of a text that follows `p`.
abbrev pub end_of : Option ℕ → Text → Option ℕ
end_of p [] = p
end_of p (c ∷ s) = end_of (some c) s

abbrev pub behind : Option ℕ → Token → Option ℕ
behind p (plain c) = some c
behind p (str s) = some b'\''
behind p (num d s) = end_of (some d) s
behind p (line s) = end_of (some b'-') s
behind p (block s) = some b'/'
behind p (dollar w s) = some b'$'
behind p (param s) = end_of (some b'$') s
behind p (ident s) = some b'"'

-- The first rune of a text, if it has one, fails a test.
abbrev pub Stops : (ℕ → Bool) → Text → Type 0
Stops f [] = Unit
Stops f (c ∷ r) = f c ≡ false

-- A line feed or the end follows.
abbrev pub LineEnds : Text → Type 0
LineEnds [] = Unit
LineEnds (c ∷ r) = nat_beq c b'\n' ≡ true

-- The runes that go on a number behind `p`.
abbrev pub Continues : Option ℕ → Text → Type 0
Continues p [] = Unit
Continues p (c ∷ s) = (number_goes p c ≡ true) × Continues (some c) s

-- A text without `*/`.
abbrev pub NoClose : Text → Type 0
NoClose [] = Unit
NoClose (c ∷ []) = Unit
NoClose (c ∷ d ∷ s) = (nat_beq c b'*' && nat_beq d b'/' ≡ false) × NoClose (d ∷ s)

-- The tag begins nowhere in the body, whatever part of it the text behind completes.
abbrev pub NoTag : Text → Text → Text → Type 0
NoTag tag [] r = Unit
NoTag tag (c ∷ s) r = (starts_with (c ∷ s ++ r) tag ≡ false) × NoTag tag s r

-- When a token can stand behind the rune `p` and before the text `r` and be read as that token.
abbrev pub Fits : Option ℕ → Token → Text → Type 0
Fits p (plain c) r =
    (nat_beq c b'\'' ≡ false)
    × (nat_beq c b'$' ≡ false)
    × (nat_beq c b'"' ≡ false)
    × (is_digit c && not (prev_is_word p) ≡ false)
    × (nat_beq c b'-' ≡ true → Stops (nat_beq b'-') r)
    × (nat_beq c b'/' ≡ true → Stops (nat_beq b'*') r)
Fits p (str s) r = Stops (nat_beq b'\'') r
Fits p (num d s) r =
    (is_digit d ≡ true)
    × (prev_is_word p ≡ false)
    × Continues (some d) s
    × Stops (number_goes (end_of (some d) s)) r
Fits p (line s) r = All (λ c. nat_beq c b'\n' ≡ false) s × LineEnds r
Fits p (block s) r = NoClose s
Fits p (dollar w s) r =
    All (λ c. is_word c ≡ true) w
    × All (λ c. ltb c 0x80 ≡ true) s
    × NoTag (tag_of w) s (tag_of w ++ r)
Fits p (param s) r = All (λ c. is_digit c ≡ true) s × Stops is_word r × Stops (nat_beq b'$') r
Fits p (ident s) r = All (λ c. nat_beq c b'"' ≡ false) s

abbrev pub IsText : Option ℕ → List Token → Type 0
IsText p [] = Unit
IsText p (t ∷ ts) = Fits p t (render ts) × IsText (behind p t) ts
