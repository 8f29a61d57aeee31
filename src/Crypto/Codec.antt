-- ===== src/Crypto/Codec.antt =====
-- `btoa` and `atob` on bytes, group by group.
use protocol_lens.Prelude.{
  ℕ, ◌+◌, ◌*◌, ◌/◌, ◌%◌, ◌<◌, false, some, List, [], ◌∷◌, ◌≡◌, refl, ap, ◌==◌, arith, All, length,
}
use protocol_lens.Js.Base64.{
  digit, sextet, pad, btoa, is_space, drop_spaces, strip_pad, decode, atob, byte_one, byte_two,
  byte_three,
}

abbrev pub IsByte : ℕ → Type 0
IsByte n = n < 256

pub sextet-digit : (n : ℕ) → n < 64 → sextet (digit n) ≡ some n
unfolding sextet digit
sextet-digit n h = ground arith

digit-not_pad : (n : ℕ) → n < 64 → (digit n == pad) ≡ false
unfolding digit
digit-not_pad n h = ground arith

digit-not_space : (n : ℕ) → n < 64 → is_space (digit n) ≡ false
unfolding digit is_space
digit-not_space n h = ground arith

-- The digits of bytes, without padding.
unfoldable pub digits : List ℕ → List ℕ
unfolding digit
digits [] = []
digits (a ∷ []) = digit (a / 4) ∷ digit (a % 4 * 16) ∷ []
digits (a ∷ b ∷ []) = digit (a / 4) ∷ digit (a % 4 * 16 + b / 16) ∷ digit (b % 16 * 4) ∷ []
digits (a ∷ b ∷ c ∷ rest) =
    digit (a / 4)
    ∷ digit (a % 4 * 16 + b / 16)
    ∷ digit (b % 16 * 4 + c / 64)
    ∷ digit (c % 64)
    ∷ digits rest

-- A group of three bytes.
abbrev four : ℕ → ℕ → ℕ → List ℕ → List ℕ
four a b c rest =
    digit (a / 4)
    ∷ digit (a % 4 * 16 + b / 16)
    ∷ digit (b % 16 * 4 + c / 64)
    ∷ digit (c % 64)
    ∷ rest

bytes_one : (a : ℕ) → IsByte a → (byte_one (a / 4) (a % 4 * 16) ∷ []) ≡ a ∷ []
bytes_one a h = ap (λ n. n ∷ []) (omega arith)

second_byte :
    (a b c : ℕ) → IsByte b → IsByte c → byte_two (a % 4 * 16 + b / 16) (b % 16 * 4 + c / 64) ≡ b
second_byte a b c hb hc = omega arith

third_byte : (b c : ℕ) → IsByte c → byte_three (b % 16 * 4 + c / 64) (c % 64) ≡ c
third_byte b c hc = omega arith

last_byte : (b : ℕ) → IsByte b → (a : ℕ) → byte_two (a % 4 * 16 + b / 16) (b % 16 * 4) ≡ b
last_byte b hb a = omega arith

first_byte : (a b : ℕ) → IsByte a → IsByte b → byte_one (a / 4) (a % 4 * 16 + b / 16) ≡ a
first_byte a b ha hb = omega arith

drop_spaces-btoa : (bs : List ℕ) → All IsByte bs → drop_spaces (btoa bs) ≡ btoa bs
unfolding btoa drop_spaces
drop_spaces-btoa [] h = refl
drop_spaces-btoa (a ∷ []) (ha, _) =
    rw (digit-not_space (a / 4) (omega arith), digit-not_space (a % 4 * 16) (omega arith)) refl
drop_spaces-btoa (a ∷ b ∷ []) (ha, (hb, _)) =
    rw
      (
        digit-not_space (a / 4) (omega arith),
        digit-not_space (a % 4 * 16 + b / 16) (omega arith),
        digit-not_space (b % 16 * 4) (omega arith),
      )
      refl
drop_spaces-btoa (a ∷ b ∷ c ∷ rest) (ha, (hb, (hc, h))) =
    rw
      (
        drop_spaces-btoa rest h,
        digit-not_space (a / 4) (omega arith),
        digit-not_space (a % 4 * 16 + b / 16) (omega arith),
        digit-not_space (b % 16 * 4 + c / 64) (omega arith),
        digit-not_space (c % 64) (omega arith),
      )
      refl

length-btoa : (bs : List ℕ) → length (btoa bs) % 4 ≡ 0
unfolding btoa
length-btoa [] = refl
length-btoa (a ∷ []) = refl
length-btoa (a ∷ b ∷ []) = refl
length-btoa (a ∷ b ∷ c ∷ rest) = omega (arith, length-btoa rest)

strip_pad-btoa : (bs : List ℕ) → All IsByte bs → strip_pad (btoa bs) ≡ digits bs
unfolding btoa digits strip_pad
strip_pad-btoa [] h = refl
strip_pad-btoa (a ∷ []) h = refl
strip_pad-btoa (a ∷ b ∷ []) (ha, (hb, _)) = rw (digit-not_pad (b % 16 * 4) (omega arith)) refl
strip_pad-btoa (a ∷ b ∷ c ∷ []) (ha, (hb, (hc, _))) = rw (digit-not_pad (c % 64) (omega arith)) refl
strip_pad-btoa (a ∷ b ∷ c ∷ d ∷ []) (ha, (hb, (hc, h))) =
    ap (four a b c) (strip_pad-btoa (d ∷ []) h)
strip_pad-btoa (a ∷ b ∷ c ∷ d ∷ e ∷ []) (ha, (hb, (hc, h))) =
    ap (four a b c) (strip_pad-btoa (d ∷ e ∷ []) h)
strip_pad-btoa (a ∷ b ∷ c ∷ d ∷ e ∷ f ∷ rest) (ha, (hb, (hc, h))) =
    ap (four a b c) (strip_pad-btoa (d ∷ e ∷ f ∷ rest) h)

decode-digits : (bs : List ℕ) → All IsByte bs → decode (digits bs) ≡ some bs
unfolding digits decode
decode-digits [] h = refl
decode-digits (a ∷ []) (ha, _) =
    rw (sextet-digit (a / 4) (omega arith), sextet-digit (a % 4 * 16) (omega arith))
      (ap some (bytes_one a ha))
decode-digits (a ∷ b ∷ []) (ha, (hb, _)) =
    rw
      (
        sextet-digit (a / 4) (omega arith),
        sextet-digit (a % 4 * 16 + b / 16) (omega arith),
        sextet-digit (b % 16 * 4) (omega arith),
      )
      (rw (first_byte a b ha hb, last_byte b hb a) refl)
decode-digits (a ∷ b ∷ c ∷ rest) (ha, (hb, (hc, h))) =
    rw
      (
        sextet-digit (a / 4) (omega arith),
        sextet-digit (a % 4 * 16 + b / 16) (omega arith),
        sextet-digit (b % 16 * 4 + c / 64) (omega arith),
        sextet-digit (c % 64) (omega arith),
        decode-digits rest h,
      )
      (rw (first_byte a b ha hb, second_byte a b c hb hc, third_byte b c hc) refl)

pub atob-btoa : (bs : List ℕ) → All IsByte bs → atob (btoa bs) ≡ some bs
unfolding atob
atob-btoa bs h =
    rw (drop_spaces-btoa bs h, length-btoa bs, strip_pad-btoa bs h) (decode-digits bs h)
