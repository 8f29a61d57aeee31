-- ===== src/Crypto.antt =====
-- The encoders and generators of frontend/src/utils/crypto.ts.
pub mod Codec
pub mod RoundTrip
pub mod Verifier
pub mod Storage
use protocol_lens.Prelude.{
  ℕ, ◌-◌, ◌%◌, String, from_codes, codes, Option, List, [], ◌∷◌, ◌++◌, ◌==◌, if◌then◌else◌, length,
  replicate,
}
use protocol_lens.Js.Base64.{btoa, atob, pad}
use protocol_lens.Flow.Env.{Env}
use protocol_lens.Flow.Exec.{Exec, pure, ◌>>=◌, ◌>>◌, next_call, wait}
use protocol_lens.Flow.Random.{replace_code}

-- `.replace(/c/g, '')`
unfoldable pub remove_code : ℕ → List ℕ → List ℕ
remove_code c [] = []
remove_code c (x ∷ xs) = let rest = remove_code c xs in if x == c then rest else x ∷ rest

-- `base64URLEncode`
unfoldable pub base64url_encode : List ℕ → List ℕ
unfolding btoa replace_code remove_code
base64url_encode bytes =
    remove_code pad (replace_code b'/' b'_' (replace_code b'+' b'-' (btoa bytes)))

-- `base64URLDecode`; `none` where `atob` raises.
unfoldable pub base64url_decode : List ℕ → Option (List ℕ)
unfolding atob replace_code
base64url_decode cs =
    let base64 = replace_code b'_' b'/' (replace_code b'-' b'+' cs) in
    atob (base64 ++ replicate ((4 - length base64 % 4) % 4) pad)

-- `generateRandomString`
unfoldable pub generate_random_string : Env → ℕ → Exec String
unfolding next_call base64url_encode
generate_random_string env n = do
  k ← next_call
  pure (from_codes (base64url_encode (env.random k n)))

-- `generateCodeVerifier`
unfoldable pub generate_code_verifier : Env → Exec String
unfolding generate_random_string
generate_code_verifier env = generate_random_string env 32

-- `generateCodeChallenge`, which waits for the digest.
unfoldable pub generate_code_challenge : Env → String → Exec String
unfolding wait base64url_encode
generate_code_challenge env verifier = do
  wait env
  pure (from_codes (base64url_encode (env.sha256 verifier)))

-- `generateState` and `generateNonce`
unfoldable pub generate_state : Env → Exec String
unfolding generate_random_string
generate_state env = generate_random_string env 16

unfoldable pub generate_nonce : Env → Exec String
unfolding generate_random_string
generate_nonce env = generate_random_string env 16

pub record PkceParams : Type 0 where
  pub code_verifier : String
  pub code_challenge : String
  pub code_challenge_method : String

-- `generatePKCE`
unfoldable pub generate_pkce : Env → Exec PkceParams
unfolding generate_code_verifier generate_code_challenge
generate_pkce env = do
  verifier ← generate_code_verifier env
  challenge ← generate_code_challenge env verifier
  pure (record {
    code_verifier = verifier;
    code_challenge = challenge;
    code_challenge_method = "S256";
  })
