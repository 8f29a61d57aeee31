-- ===== src/Flow/Jwt.antt =====
-- `decodeJwt` of flows/base.ts.
use mathlib.Core.List.{map}
use protocol_lens.Prelude.{
  ℕ, ◌*◌, String, codes, split, Bool, true, false, not, ◌&&◌, ◌==◌, ltb, str_eq, Option, none, some,
  List, [], ◌∷◌, ◌++◌, if◌then◌else◌,
}
use protocol_lens.Js.Value.{Value, num, negsuc, str, get_prop}
use protocol_lens.Js.Base64.{atob}
use protocol_lens.Flow.State.{DecodedToken, TokenType, id_token}
use protocol_lens.Flow.Env.{Env}

-- `.replace(/-/g, '+').replace(/_/g, '/')`
unfoldable pub to_base64 : ℕ → ℕ
to_base64 c = if c == b'-' then b'+' else if c == b'_' then b'/' else c

abbrev then_parse : Env → Option (List ℕ) → Option Value
then_parse env none = none
then_parse env (some bytes) = env.parse_json bytes

-- `JSON.parse(atob(part…))`, `none` where either raises.
unfoldable pub decode_part : Env → String → Option Value
unfolding to_base64 atob
decode_part env part = then_parse env (atob (map to_base64 (codes part)))

-- `payload.exp && typeof payload.exp === 'number'` and `payload.exp * 1000 < Date.now()`
unfoldable pub is_expired : ℕ → Value → Bool
is_expired now (num n) = not (n == 0) && ltb (n * 1000) now
is_expired now (negsuc n) = true
is_expired now _ = false

-- `v === text`
unfoldable pub is_text : Value → String → Bool
is_text (str s) t = str_eq s t
is_text _ t = false

abbrev is_id_token : TokenType → Bool
is_id_token id_token = true
is_id_token _ = false

-- `type === 'id_token' && nonce && payload.nonce !== nonce`
unfoldable pub nonce_differs : TokenType → Option String → Value → Bool
unfolding is_text
nonce_differs type none found = false
nonce_differs type (some expected) found =
    is_id_token type && not (str_eq expected "") && not (is_text found expected)

abbrev pub new_token : TokenType → String → DecodedToken
new_token type raw = record {
  type = type;
  raw = raw;
  header = none;
  payload = none;
  signature = none;
  is_valid = none;
  validation_errors = none;
}

abbrev pub failed_token : DecodedToken → DecodedToken
failed_token d = record d {
  is_valid = some false;
  validation_errors = some ("Failed to decode token" ∷ []);
}

abbrev is_nil : List String → Bool
is_nil [] = true
is_nil (x ∷ xs) = false

-- The checks of a payload whose `exp` and `nonce` have been read.
unfoldable pub validate : ℕ → Option String → DecodedToken → Value → Value → DecodedToken
unfolding is_expired nonce_differs
validate now expected d exp found =
    let errors : List String =
      (if is_expired now exp then "Token is expired" ∷ [] else [])
      ++ (if nonce_differs d.type expected found then "Nonce mismatch" ∷ [] else []) in
    record d { is_valid = some (is_nil errors); validation_errors = some errors }

-- A payload that is `null` raises at `payload.exp`.
unfoldable pub check_payload :
    ℕ → Option String → DecodedToken → Option Value → Option Value → DecodedToken
unfolding validate
check_payload now expected d (some exp) (some found) = validate now expected d exp found
check_payload now expected d _ _ = failed_token d

-- The `try` block once there are three parts; what a raise leaves behind stays in the result.
unfoldable pub decode_parts :
    Env → ℕ → Option String → DecodedToken → Option Value → Option Value → String → DecodedToken
unfolding check_payload get_prop
decode_parts env now expected d none payload signature = failed_token d
decode_parts env now expected d (some header) none signature =
    failed_token (record d { header = some header })
decode_parts env now expected d (some header) (some payload) signature =
    check_payload now expected
      (record d { header = some header; payload = some payload; signature = some signature })
      (get_prop payload "exp") (get_prop payload "nonce")

unfoldable pub decode_split : Env → ℕ → Option String → DecodedToken → List String → DecodedToken
unfolding decode_parts decode_part
decode_split env now expected d (a ∷ b ∷ c ∷ []) =
    decode_parts env now expected d (decode_part env a) (decode_part env b) c
decode_split env now expected d _ = record d { is_valid = some true }

-- `decodeJwt`, at the time `now` and with the nonce of the state.
unfoldable pub decode_jwt : Env → ℕ → Option String → String → TokenType → DecodedToken
unfolding decode_split split
decode_jwt env now expected token type =
    decode_split env now expected (new_token type token) (split b'.' token)
