-- ===== src/Prelude/Text.antt =====
-- Text: code points, one-character texts, and the string functions of the language that the code
-- calls. Where the code counts UTF-16 units the model counts characters, the same for ASCII text.
use Prim.Native.Nat.{ℕ, zero, suc, ◌<◌, compare, Ordering}
use Prim.Native.Char.{char, code, IsScalar}
use Prim.Native.String
use Prim.Native.String.{String, [], ◌∷◌}
use mathlib.Core.Path.{◌≡◌, refl, ap, ◌∙◌}
use mathlib.Core.Bool.{Bool, ◌||◌}
use mathlib.Core.Logic.{dite, dif_pos}
use mathlib.Core.List.{List}
use native.Mathlib.Omega.{arith}
use native.Mathlib.Decide.{dec_lt}
use native.Mathlib.Bridge.{le_prop}
use text.Mathlib.Text
use text.Mathlib.TextLemmas.{cons-append, nil-append}
use protocol_lens.Prelude.Tests.{if◌then◌else◌, ◌==◌}
use protocol_lens.Prelude.Lists.{All}

-- `===` on strings.
abbrev pub str_eq : String → String → Bool
str_eq s t = Text.◌==◌ s t

abbrev pub codes : String → List ℕ
codes [] = List.[]
codes (c ∷ s) = List.◌∷◌ (code c) (codes s)

lt_compare : (a b : ℕ) → a < b → compare a b ≡ Ordering.lt
lt_compare a b h = ground arith

pub ascii_IsScalar : (n : ℕ) → n < 128 → IsScalar n
ascii_IsScalar n h = rw (lt_compare n 55296 (omega arith)) tt

-- The text of one ASCII code point; a larger one gives the empty text.
unfoldable pub ascii : ℕ → String
unfolding dec_lt ascii_IsScalar lt_compare
ascii n = dite (dec_lt n 128) (λ h. char n (ascii_IsScalar n h) ∷ []) (λ _. [])

unfoldable pub from_codes : List ℕ → String
unfolding ascii
from_codes List.[] = []
from_codes (List.◌∷◌ c cs) = String.◌++◌ (ascii c) (from_codes cs)

abbrev pub IsAscii : ℕ → Type 0
IsAscii c = c < 128

ascii_lem : (n : ℕ) (h : n < 128) → ascii n ≡ char n (ascii_IsScalar n h) ∷ []
unfolding ascii
ascii_lem n h = dif_pos (dec_lt n 128) le_prop h (λ x. char n (ascii_IsScalar n x) ∷ []) (λ x. [])

pub ascii-append :
    (n : ℕ) (s : String) (h : n < 128) → String.◌++◌ (ascii n) s ≡ char n (ascii_IsScalar n h) ∷ s
ascii-append n s h = rw (ascii_lem n h, cons-append, nil-append) refl

codes-ascii-append :
    (c : ℕ) (s : String) → c < 128 → codes (String.◌++◌ (ascii c) s) ≡ List.◌∷◌ c (codes s)
codes-ascii-append c s h = rw (ascii-append c s h)

-- The code points of a text that was made from ASCII codes are those codes.
pub codes-from_codes : (cs : List ℕ) → All IsAscii cs → codes (from_codes cs) ≡ cs
unfolding from_codes
codes-from_codes List.[] h = refl
codes-from_codes (List.◌∷◌ c cs) h =
    codes-ascii-append c (from_codes cs) h.0 ∙ ap (List.◌∷◌ c) (codes-from_codes cs h.1)

-- `s.split(sep)`
split_from : ℕ → String → String → List String
split_from sep cur [] = List.◌∷◌ cur List.[]
split_from sep cur (c ∷ s) =
    let closed = List.◌∷◌ cur (split_from sep [] s) in
    let longer = split_from sep (String.◌++◌ cur (c ∷ [])) s in
    if code c == sep then closed else longer

unfoldable pub split : ℕ → String → List String
unfolding split_from
split sep s = split_from sep [] s

-- `s.join(sep)`
unfoldable pub join : String → List String → String
join sep List.[] = []
join sep (List.◌∷◌ s List.[]) = s
join sep (List.◌∷◌ s (List.◌∷◌ t ts)) = String.◌++◌ s (String.◌++◌ sep (join sep (List.◌∷◌ t ts)))

-- A template text.
unfoldable pub concat : List String → String
concat List.[] = []
concat (List.◌∷◌ s ss) = String.◌++◌ s (concat ss)

-- `s.substring(0, n)`
unfoldable pub take_text : ℕ → String → String
take_text zero s = []
take_text (suc n) [] = []
take_text (suc n) (c ∷ s) = c ∷ take_text n s

-- `s.substring(n)`
unfoldable pub drop_text : ℕ → String → String
drop_text zero s = s
drop_text (suc n) [] = []
drop_text (suc n) (c ∷ s) = drop_text n s

-- `s.includes(t)`
unfoldable pub includes : String → String → Bool
includes [] t = Text.starts_with [] t
includes (c ∷ s) t = Text.starts_with (c ∷ s) t || includes s t

split_dots : split b'.' "ab..c" ≡ List.◌∷◌ "ab" (List.◌∷◌ "" (List.◌∷◌ "c" List.[]))
unfolding split
split_dots = refl

ascii_a : from_codes (List.◌∷◌ 97 (List.◌∷◌ 98 List.[])) ≡ "ab"
unfolding from_codes
ascii_a = refl
