-- ===== src/Crypto/RoundTrip.antt =====
-- The URL-safe encoding of `utils/crypto.ts` beside its decoding, and beside that of flows/base.ts.
use protocol_lens.Prelude.{
  ℕ, zero, suc, ◌+◌, ◌-◌, ◌*◌, ◌/◌, ◌%◌, ◌<◌, false, some, List, [], ◌∷◌, ◌++◌, ◌≡◌, refl, sym, ◌∙◌,
  ap, ◌==◌, arith, All, length, if◌then◌else◌, replicate,
}
use protocol_lens.Js.Base64.{digit, pad, btoa}
use protocol_lens.Flow.Random.{replace_code, strip_end, base64_url_encode}
use protocol_lens.Crypto.{remove_code, base64url_encode, base64url_decode}
use protocol_lens.Crypto.Codec.{IsByte, digits, atob-btoa}

-- The URL-safe form of a code number, and back.
abbrev pub to_url : ℕ → ℕ
to_url c = let d = if c == b'+' then b'-' else c in if d == b'/' then b'_' else d

abbrev from_url : ℕ → ℕ
from_url c = let d = if c == b'-' then b'+' else c in if d == b'_' then b'/' else d

from_url-to_url : (n : ℕ) → n < 64 → from_url (to_url (digit n)) ≡ digit n
unfolding digit
from_url-to_url n h = ground arith

to_url-not_pad : (n : ℕ) → n < 64 → (to_url (digit n) == pad) ≡ false
unfolding digit
to_url-not_pad n h = ground arith

abbrev pub IsDigit : ℕ → Type 0
IsDigit c = (n : ℕ) × (n < 64) × (c ≡ digit n)

pub All-digits : (bs : List ℕ) → All IsByte bs → All IsDigit (digits bs)
unfolding digits
All-digits [] h = tt
All-digits (a ∷ []) (ha, _) = ((a / 4, omega arith, refl), ((a % 4 * 16, omega arith, refl), tt))
All-digits (a ∷ b ∷ []) (ha, (hb, _)) = (
  (a / 4, omega arith, refl),
  ((a % 4 * 16 + b / 16, omega arith, refl), ((b % 16 * 4, omega arith, refl), tt)),
)
All-digits (a ∷ b ∷ c ∷ rest) (ha, (hb, (hc, h))) = (
  (a / 4, omega arith, refl),
  (
    (a % 4 * 16 + b / 16, omega arith, refl),
    ((b % 16 * 4 + c / 64, omega arith, refl), ((c % 64, omega arith, refl), All-digits rest h)),
  ),
)

-- How many `=` follow the digits.
abbrev pads : List ℕ → List ℕ
pads cs = replicate ((4 - length cs % 4) % 4) pad

four-more : (n : ℕ) → (4 - suc (suc (suc (suc n))) % 4) % 4 ≡ (4 - n % 4) % 4
four-more n = omega arith

digits-pads : (bs : List ℕ) → (digits bs ++ pads (digits bs)) ≡ btoa bs
unfolding digits btoa
digits-pads [] = refl
digits-pads (a ∷ []) = refl
digits-pads (a ∷ b ∷ []) = refl
digits-pads (a ∷ b ∷ c ∷ rest) =
    ap
      (λ cs.
        digit (a / 4)
        ∷ digit (a % 4 * 16 + b / 16)
        ∷ digit (b % 16 * 4 + c / 64)
        ∷ digit (c % 64)
        ∷ cs)
      (ap (λ ps. digits rest ++ ps) (ap (λ n. replicate n pad) (four-more (length (digits rest))))
        ∙ digits-pads rest)

abbrev pub url : List ℕ → List ℕ
url cs = replace_code b'/' b'_' (replace_code b'+' b'-' cs)

abbrev base64 : List ℕ → List ℕ
base64 cs = replace_code b'_' b'/' (replace_code b'-' b'+' cs)

base64-url : (cs : List ℕ) → All IsDigit cs → base64 (url cs) ≡ cs
unfolding replace_code
base64-url [] h = refl
base64-url (c ∷ cs) ((n, h, e), hs) = rw (base64-url cs hs, e, from_url-to_url n h) refl

remove_code-pads : (n : ℕ) → remove_code pad (url (replicate n pad)) ≡ []
unfolding remove_code replace_code
remove_code-pads zero = refl
remove_code-pads (suc n) = remove_code-pads n

remove_code-url :
    (cs : List ℕ) (n : ℕ) → All IsDigit cs → remove_code pad (url (cs ++ replicate n pad)) ≡ url cs
unfolding remove_code replace_code
remove_code-url [] n h = remove_code-pads n
remove_code-url (c ∷ cs) n ((k, h, e), hs) =
    rw (remove_code-url cs n hs, e, to_url-not_pad k h) refl

strip_end-pads : (n : ℕ) → strip_end pad (url (replicate n pad)) ≡ []
unfolding strip_end replace_code
strip_end-pads zero = refl
strip_end-pads (suc n) = rw (strip_end-pads n) refl

strip_end-cons :
    (c : ℕ) (cs : List ℕ)
    → (c == pad) ≡ false
    → (elim cs [ [] ↦ if c == pad then [] else c ∷ [] | y ∷ ys ↦ c ∷ y ∷ ys ]) ≡ c ∷ cs
strip_end-cons c [] h = rw h refl
strip_end-cons c (y ∷ ys) h = refl

strip_end-url :
    (cs : List ℕ) (n : ℕ) → All IsDigit cs → strip_end pad (url (cs ++ replicate n pad)) ≡ url cs
unfolding strip_end replace_code
strip_end-url [] n h = strip_end-pads n
strip_end-url (c ∷ cs) n ((k, h, e), hs) =
    rw (strip_end-url cs n hs) (strip_end-cons (to_url c) (url cs) (rw e (to_url-not_pad k h)))

pub encode_lem : (bs : List ℕ) → All IsByte bs → base64url_encode bs ≡ url (digits bs)
unfolding base64url_encode
encode_lem bs h =
    ap (λ cs. remove_code pad (url cs)) (sym (digits-pads bs))
    ∙ remove_code-url (digits bs) _ (All-digits bs h)

-- Decoding what `base64URLEncode` makes of any bytes gives those bytes back.
pub decode-encode : (bs : List ℕ) → All IsByte bs → base64url_decode (base64url_encode bs) ≡ some bs
unfolding base64url_decode
decode-encode bs h =
    rw (encode_lem bs h, base64-url (digits bs) (All-digits bs h), digits-pads bs) (atob-btoa bs h)

-- `base64UrlEncode` of flows/base.ts, which strips the `=` at the end, and `base64URLEncode` of
-- utils/crypto.ts, which removes every `=`, are the same function on bytes.
pub encoders_agree : (bs : List ℕ) → All IsByte bs → base64_url_encode bs ≡ base64url_encode bs
unfolding base64_url_encode
encoders_agree bs h =
    ap (λ cs. strip_end pad (url cs)) (sym (digits-pads bs))
    ∙ strip_end-url (digits bs) _ (All-digits bs h)
    ∙ sym (encode_lem bs h)
