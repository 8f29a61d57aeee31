-- ===== src/Js/Base64.antt =====
-- The platform's Base64 functions over code numbers (RFC 4648, section 4, and the forgiving decoder
-- of the HTML standard). `btoa` is called on bytes only, where it does not raise.
use protocol_lens.Prelude.{
  ℕ, ◌+◌, ◌-◌, ◌*◌, ◌/◌, ◌%◌, Bool, ◌&&◌, ◌||◌, Option, none, some, List, [], ◌∷◌, ltb, leb, ◌==◌,
  if◌then◌else◌, length, ◌≡◌, refl,
}

-- The digit of a six-bit value.
unfoldable pub digit : ℕ → ℕ
digit n =
    if ltb n 26
    then n + 65
    else if ltb n 52
    then n + 71
    else if ltb n 62
    then n - 4
    else if n == 62
    then b'+'
    else b'/'

-- The value of a digit.
unfoldable pub sextet : ℕ → Option ℕ
sextet c =
    if leb b'A' c && leb c b'Z'
    then some (c - 65)
    else if leb b'a' c && leb c b'z'
    then some (c - 71)
    else if leb b'0' c && leb c b'9'
    then some (c + 4)
    else if c == b'+'
    then some 62
    else if c == b'/'
    then some 63
    else none

abbrev pub pad : ℕ
pad = b'='

unfoldable pub btoa : List ℕ → List ℕ
unfolding digit
btoa [] = []
btoa (a ∷ []) = digit (a / 4) ∷ digit (a % 4 * 16) ∷ pad ∷ pad ∷ []
btoa (a ∷ b ∷ []) = digit (a / 4) ∷ digit (a % 4 * 16 + b / 16) ∷ digit (b % 16 * 4) ∷ pad ∷ []
btoa (a ∷ b ∷ c ∷ rest) =
    digit (a / 4)
    ∷ digit (a % 4 * 16 + b / 16)
    ∷ digit (b % 16 * 4 + c / 64)
    ∷ digit (c % 64)
    ∷ btoa rest

-- ASCII whitespace.
unfoldable pub is_space : ℕ → Bool
is_space c = c == 9 || c == 10 || c == 12 || c == 13 || c == 32

unfoldable pub drop_spaces : List ℕ → List ℕ
unfolding is_space
drop_spaces [] = []
drop_spaces (c ∷ cs) = let rest = drop_spaces cs in if is_space c then rest else c ∷ rest

-- Removes up to two `=` from the end.
unfoldable pub strip_pad : List ℕ → List ℕ
strip_pad [] = []
strip_pad (x ∷ []) = if x == pad then [] else x ∷ []
strip_pad (x ∷ y ∷ []) = if y == pad then (if x == pad then [] else x ∷ []) else x ∷ y ∷ []
strip_pad (x ∷ y ∷ z ∷ rest) = x ∷ strip_pad (y ∷ z ∷ rest)

-- The four cases of a group; the bits that do not fill a byte are dropped.
abbrev pub byte_one : ℕ → ℕ → ℕ
byte_one a b = a * 4 + b / 16

abbrev pub byte_two : ℕ → ℕ → ℕ
byte_two b c = b % 16 * 16 + c / 4

abbrev pub byte_three : ℕ → ℕ → ℕ
byte_three c d = c % 4 * 64 + d

infixl 5 ◌>>=◌
abbrev ◌>>=◌ {ℓ κ} : {A : Type ℓ} {B : Type κ} → Option A → (A → Option B) → Option B
none >>= f = none
some a >>= f = f a

unfoldable pub decode : List ℕ → Option (List ℕ)
unfolding sextet
decode [] = some []
decode (w ∷ []) = none
decode (w ∷ x ∷ []) = do a ← sextet w; b ← sextet x; some (byte_one a b ∷ [])
decode (w ∷ x ∷ y ∷ []) = do
  a ← sextet w
  b ← sextet x
  c ← sextet y
  some (byte_one a b ∷ byte_two b c ∷ [])
decode (w ∷ x ∷ y ∷ z ∷ more) = do
  a ← sextet w
  b ← sextet x
  c ← sextet y
  d ← sextet z
  rest ← decode more
  some (byte_one a b ∷ byte_two b c ∷ byte_three c d ∷ rest)

-- `none` is the InvalidCharacterError.
unfoldable pub atob : List ℕ → Option (List ℕ)
unfolding drop_spaces strip_pad decode
atob input =
    let cs = drop_spaces input in
    let body = if length cs % 4 == 0 then strip_pad cs else cs in decode body

btoa_test : btoa (b'M' ∷ b'a' ∷ []) ≡ b'T' ∷ b'W' ∷ b'E' ∷ pad ∷ []
unfolding btoa
btoa_test = refl

atob_test : atob (b'T' ∷ b'W' ∷ 32 ∷ b'E' ∷ pad ∷ []) ≡ some (b'M' ∷ b'a' ∷ [])
unfolding atob
atob_test = refl
