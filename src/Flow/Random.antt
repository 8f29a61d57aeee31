-- ===== src/Flow/Random.antt =====
-- The random values that flows generate: the utility functions of flows/base.ts.
use mathlib.Core.List.{map}
use protocol_lens.Prelude.{
  ℕ, ◌+◌, ◌/◌, ◌%◌, ltb, String, from_codes, List, [], ◌∷◌, ◌==◌, if◌then◌else◌,
}
use protocol_lens.Js.Base64.{btoa, pad}
use protocol_lens.Flow.Env.{Env}
use protocol_lens.Flow.Exec.{Exec, pure, ◌>>=◌, ◌>>◌, next_call, wait}

abbrev hex_digit : ℕ → ℕ
hex_digit n = if ltb n 10 then n + b'0' else n + 87

-- `byte.toString(16).padStart(2, '0')`, joined
unfoldable pub to_hex : List ℕ → List ℕ
to_hex [] = []
to_hex (b ∷ bytes) = hex_digit (b / 16) ∷ hex_digit (b % 16) ∷ to_hex bytes

-- `generateSecureRandom(length)`
unfoldable pub generate_secure_random : Env → ℕ → Exec String
unfolding next_call to_hex
generate_secure_random env n = do k ← next_call; pure (from_codes (to_hex (env.random k n)))

-- `.replace(/=+$/, '')`
unfoldable pub strip_end : ℕ → List ℕ → List ℕ
strip_end c [] = []
strip_end c (x ∷ xs) =
    let rest = strip_end c xs in
    elim rest [ [] ↦ if x == c then [] else x ∷ [] | y ∷ ys ↦ x ∷ y ∷ ys ]

-- `.replace(/a/g, 'b')`
unfoldable pub replace_code : ℕ → ℕ → List ℕ → List ℕ
replace_code a b = map (λ c. if c == a then b else c)

-- `base64UrlEncode`
unfoldable pub base64_url_encode : List ℕ → List ℕ
unfolding btoa strip_end replace_code
base64_url_encode bytes =
    strip_end pad (replace_code b'/' b'_' (replace_code b'+' b'-' (btoa bytes)))

-- `generateCodeVerifier()`
unfoldable pub generate_code_verifier : Env → Exec String
unfolding next_call base64_url_encode
generate_code_verifier env = do
  k ← next_call
  pure (from_codes (base64_url_encode (env.random k 32)))

-- The challenge of a verifier: the encoded SHA-256 digest.
unfoldable pub challenge_of : Env → String → String
unfolding base64_url_encode
challenge_of env verifier = from_codes (base64_url_encode (env.sha256 verifier))

-- `generateCodeChallenge(verifier)`, which waits for the digest.
unfoldable pub generate_code_challenge : Env → String → Exec String
unfolding wait challenge_of
generate_code_challenge env verifier = do wait env; pure (challenge_of env verifier)
