-- ===== src/Setup/Password.antt =====
-- internal/setup/grants.go: `RandomPassword`. What `rand.Read` fills the buffer with is a
-- parameter.
use pglockr.Prelude.{
  ℕ, zero, suc, ◌+◌, ◌-◌, ◌*◌, ◌/◌, ◌%◌, ◌<◌, ◌≡◌, refl, ap, Bool, true, false, List, [], ◌∷◌, ◌++◌,
  Answer, ok, ◌>>=◌, if◌then◌else◌, ltb, nat_beq, length, All, Text, arith,
}
use pglockr.Setup.{double_quotes, quote_literal}

-- The alphabet of `base64.RawURLEncoding`.
abbrev encode_digit : ℕ → ℕ
encode_digit v =
    if ltb v 26
    then b'A' + v
    else if ltb v 52
    then b'a' + (v - 26)
    else if ltb v 62
    then b'0' + (v - 52)
    else if nat_beq v 62
    then b'-'
    else b'_'

-- `base64.RawURLEncoding.EncodeToString`: six bits to a character, without padding.
pub encode : List ℕ → Text
encode [] = []
encode (a ∷ []) = encode_digit (a / 4) ∷ encode_digit (a % 4 * 16) ∷ []
encode (a ∷ b ∷ []) =
    encode_digit (a / 4) ∷ encode_digit (a % 4 * 16 + b / 16) ∷ encode_digit (b % 16 * 4) ∷ []
encode (a ∷ b ∷ c ∷ rest) =
    encode_digit (a / 4)
    ∷ encode_digit (a % 4 * 16 + b / 16)
    ∷ encode_digit (b % 16 * 4 + c / 64)
    ∷ encode_digit (c % 64)
    ∷ encode rest

-- `RandomPassword`, on the result of `rand.Read` into its buffer of 18 bytes.
pub random_password : Answer (List ℕ) → Answer Text
random_password filled = do buf ← filled; ok (encode buf)

-- The value of a character of the alphabet.
abbrev decode_digit : ℕ → ℕ
decode_digit c =
    if nat_beq c b'-'
    then 62
    else if nat_beq c b'_'
    then 63
    else if ltb c 58
    then c + 4
    else if ltb c 91
    then c - 65
    else c - 71

-- The bytes of a text of whole groups of four characters.
pub decode : Text → List ℕ
decode [] = []
decode (w ∷ []) = []
decode (w ∷ x ∷ []) = []
decode (w ∷ x ∷ y ∷ []) = []
decode (w ∷ x ∷ y ∷ z ∷ rest) =
    (decode_digit w * 4 + decode_digit x / 16)
    ∷ (decode_digit x % 16 * 16 + decode_digit y / 4)
    ∷ (decode_digit y % 4 * 64 + decode_digit z)
    ∷ decode rest

-- A letter, a digit, `-` or `_`.
abbrev pub is_url_safe : ℕ → Bool
is_url_safe c =
    if ltb c 48
    then nat_beq c b'-'
    else if ltb c 58
    then true
    else if ltb c 65
    then false
    else if ltb c 91
    then true
    else if ltb c 97
    then nat_beq c b'_'
    else ltb c 123

decode-encode_digit : (v : ℕ) → v < 64 → decode_digit (encode_digit v) ≡ v
decode-encode_digit v h = ground arith

encode_digit-safe : (v : ℕ) → v < 64 → is_url_safe (encode_digit v) ≡ true
encode_digit-safe v h = ground arith

-- A group of three bytes is read back.
group_back :
    (a b c : ℕ)
    → a < 256
    → b < 256
    → c < 256
    → (a / 4 * 4 + (a % 4 * 16 + b / 16) / 16 ≡ a)
      × ((a % 4 * 16 + b / 16) % 16 * 16 + (b % 16 * 4 + c / 64) / 4 ≡ b)
      × ((b % 16 * 4 + c / 64) % 4 * 64 + c % 64 ≡ c)
group_back a b c h k l = (omega arith, omega arith, omega arith)

abbrev pub IsSafe : Text → Type 0
IsSafe t = All (λ c. is_url_safe c ≡ true) t

-- Of whole groups of three bytes.
encode-groups :
    (n : ℕ) (buf : List ℕ)
    → length buf ≡ 3 * n
    → All (λ b. b < 256) buf
    → (length (encode buf) ≡ 4 * n) × IsSafe (encode buf) × (decode (encode buf) ≡ buf)
unfolding encode decode
encode-groups n [] e h = (omega arith, tt, refl)
encode-groups n (a ∷ []) e h = absurd (omega arith)
encode-groups n (a ∷ b ∷ []) e h = absurd (omega arith)
encode-groups zero (a ∷ b ∷ c ∷ rest) e h = absurd (omega arith)
encode-groups (suc n) (a ∷ b ∷ c ∷ rest) e (p, (q, (r, h))) =
    let (l, safe, back) = encode-groups n rest (omega arith) h in
    let v : a / 4 < 64 = omega arith in
    let w : a % 4 * 16 + b / 16 < 64 = omega arith in
    let x : b % 16 * 4 + c / 64 < 64 = omega arith in
    let y : c % 64 < 64 = omega arith in
    (
      omega (arith, l),
      (
        encode_digit-safe _ v,
        (encode_digit-safe _ w, (encode_digit-safe _ x, (encode_digit-safe _ y, safe))),
      ),
      bytes (decode-encode_digit _ v) (decode-encode_digit _ w) (decode-encode_digit _ x)
          (decode-encode_digit _ y) (group_back a b c p q r) back,
    )
  where
    bytes :
        {d f g k : ℕ}
        → d ≡ a / 4
        → f ≡ a % 4 * 16 + b / 16
        → g ≡ b % 16 * 4 + c / 64
        → k ≡ c % 64
        → (a / 4 * 4 + (a % 4 * 16 + b / 16) / 16 ≡ a)
          × ((a % 4 * 16 + b / 16) % 16 * 16 + (b % 16 * 4 + c / 64) / 4 ≡ b)
          × ((b % 16 * 4 + c / 64) % 4 * 64 + c % 64 ≡ c)
        → decode (encode rest) ≡ rest
        → ◌≡◌ {A = List ℕ}
            ((d * 4 + f / 16) ∷ (f % 16 * 16 + g / 4) ∷ (g % 4 * 64 + k) ∷ decode (encode rest))
            (a ∷ b ∷ c ∷ rest)
    bytes m n o p (s, t, u) back = rw (m, n, o, p) (rw (s, t, u, back) refl)

not_quoted : (t : Text) → IsSafe t → double_quotes b'\'' t ≡ t
unfolding double_quotes
not_quoted [] h = refl
not_quoted (c ∷ t) (s, h) =
    let other : nat_beq c b'\'' ≡ false = ground arith in rw other (ap (◌∷◌ c) (not_quoted t h))

-- If the buffer is filled, the password has 24 characters, each a letter, a digit, `-` or `_`; the
-- random bytes can be read back from it, so that none of them is lost; and a SQL literal quotes it
-- without doubling a character.
pub random_password_lem :
    (buf : List ℕ)
    → length buf ≡ 18
    → All (λ b. b < 256) buf
    → (pw : Text) × (random_password (ok buf) ≡ ok pw)
      × (length pw ≡ 24)
      × All (λ c. is_url_safe c ≡ true) pw
      × (decode pw ≡ buf)
      × (quote_literal pw ≡ b'\'' ∷ pw ++ b'\'' ∷ [])
unfolding random_password quote_literal
random_password_lem buf e h =
    let (l, s, d) = encode-groups 6 buf e h in
    (encode buf, refl, l, s, d, ap (λ t. b'\'' ∷ t ++ b'\'' ∷ []) (not_quoted (encode buf) s))
