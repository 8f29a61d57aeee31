-- ===== src/Tests/Crypto.antt =====
-- Encodings of sample bytes, and a sample storage.
use protocol_lens.Prelude.{
  ℕ, zero, suc, arith, ◌≡◌, refl, false, none, some, List, [], ◌∷◌, All, length, replicate, str_eq,
}
use protocol_lens.Flow.Random.{base64_url_encode}
use protocol_lens.Crypto.{base64url_encode, base64url_decode}
use protocol_lens.Crypto.Codec.{IsByte}
use protocol_lens.Crypto.RoundTrip.{decode-encode, encoders_agree}
use protocol_lens.Crypto.Verifier.{IsUnreserved, verifier_fits}
use protocol_lens.Crypto.Storage.{
  Storage, store_verifier, get_verifier, store_state, validate_state, store_nonce, get_nonce,
  store_flow_type, get_flow_type, clear_all, state_used_once, values_read_once, cleared,
}

abbrev bytes : List ℕ
bytes = 255 ∷ 239 ∷ 190 ∷ 3 ∷ []

bytes-IsByte : All IsByte bytes
bytes-IsByte = (omega arith, (omega arith, (omega arith, (omega arith, tt))))

decode-encode_example : base64url_decode (base64url_encode bytes) ≡ some bytes
decode-encode_example = decode-encode bytes bytes-IsByte

encoders_agree_example : base64_url_encode bytes ≡ base64url_encode bytes
encoders_agree_example = encoders_agree bytes bytes-IsByte

abbrev verifier_bytes : List ℕ
verifier_bytes = replicate 32 251

replicate-IsByte : (n : ℕ) → All IsByte (replicate n 251)
replicate-IsByte zero = tt
replicate-IsByte (suc n) = (omega arith, replicate-IsByte n)

verifier_bytes-IsByte : All IsByte verifier_bytes
verifier_bytes-IsByte = replicate-IsByte 32

verifier_fits_example :
    (length (base64url_encode verifier_bytes) ≡ 43)
    × All IsUnreserved (base64url_encode verifier_bytes)
verifier_fits_example = verifier_fits verifier_bytes verifier_bytes-IsByte refl

abbrev storage : Storage
storage = ("oauth_state", "left over") ∷ ("theme", "dark") ∷ []

state_used_once_example :
    let filled =
      store_flow_type "oidc" (store_nonce "n" (store_verifier "v" (store_state "s" storage))) in
    ((validate_state "s" filled).0 ≡ str_eq "s" "s")
    × ((validate_state "s" (validate_state "s" filled).1).0 ≡ false)
state_used_once_example = state_used_once storage "s" "v" "n" "oidc" "s" "s"

values_read_once_example :
    let filled = (validate_state "s" (store_nonce "n" (store_verifier "v" storage))).1 in
    ((get_verifier filled).0 ≡ some "v")
    × ((get_verifier (get_verifier filled).1).0 ≡ none)
    × ((get_nonce filled).0 ≡ some "n")
    × ((get_nonce (get_nonce filled).1).0 ≡ none)
values_read_once_example = values_read_once storage "v" "n" "s"

cleared_example :
    ((validate_state "left over" (clear_all storage)).0 ≡ false)
    × ((get_verifier (clear_all storage)).0 ≡ none)
    × ((get_nonce (clear_all storage)).0 ≡ none)
    × (get_flow_type (clear_all storage) ≡ "oauth2")
cleared_example = cleared storage "left over"
