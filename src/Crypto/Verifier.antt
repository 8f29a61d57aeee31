-- ===== src/Crypto/Verifier.antt =====
-- The size and the alphabet of encoded random bytes (RFC 7636, section 4.1).
use protocol_lens.Prelude.{
  ℕ, suc, ◌+◌, ◌*◌, ◌/◌, ◌<◌, Bool, true, ◌||◌, ◌&&◌, List, [], ◌∷◌, ◌≡◌, refl, ◌∙◌, ap, ◌==◌, leb,
  arith, All, length,
}
use protocol_lens.Js.Base64.{digit}
use protocol_lens.Flow.Random.{replace_code}
use protocol_lens.Crypto.{base64url_encode}
use protocol_lens.Crypto.Codec.{IsByte, digits}
use protocol_lens.Crypto.RoundTrip.{IsDigit, All-digits, to_url, url, encode_lem}

-- A letter, a digit, `-` or `_`: unreserved in a URL, and allowed in a code verifier.
abbrev pub is_unreserved : ℕ → Bool
is_unreserved c =
    leb b'A' c && leb c b'Z'
    || leb b'a' c && leb c b'z'
    || leb b'0' c && leb c b'9'
    || c == b'-'
    || c == b'_'

abbrev pub IsUnreserved : ℕ → Type 0
IsUnreserved c = is_unreserved c ≡ true

to_url-IsUnreserved : (n : ℕ) → n < 64 → IsUnreserved (to_url (digit n))
unfolding digit
to_url-IsUnreserved n h = ground arith

url-AllUnreserved : (cs : List ℕ) → All IsDigit cs → All IsUnreserved (url cs)
unfolding replace_code
url-AllUnreserved [] h = tt
url-AllUnreserved (c ∷ cs) ((n, h, e), hs) =
    (rw e (to_url-IsUnreserved n h), url-AllUnreserved cs hs)

length-url : (cs : List ℕ) → length (url cs) ≡ length cs
unfolding replace_code
length-url [] = refl
length-url (c ∷ cs) = ap suc (length-url cs)

length-digits : (bs : List ℕ) → length (digits bs) ≡ (length bs * 4 + 2) / 3
unfolding digits
length-digits [] = refl
length-digits (a ∷ []) = refl
length-digits (a ∷ b ∷ []) = refl
length-digits (a ∷ b ∷ c ∷ rest) = omega (arith, length-digits rest)

-- The URL-safe encoding of 32 bytes is a code verifier as RFC 7636 asks for one: 43 characters,
-- each of them unreserved.
pub verifier_fits :
    (bs : List ℕ)
    → All IsByte bs
    → length bs ≡ 32
    → (length (base64url_encode bs) ≡ 43) × All IsUnreserved (base64url_encode bs)
verifier_fits bs h size = rw (encode_lem bs h) (
  length-url (digits bs) ∙ length-digits bs ∙ ap (λ n. (n * 4 + 2) / 3) size,
  url-AllUnreserved (digits bs) (All-digits bs h),
)
