-- ===== src/Flow/Tokens.antt =====
-- `processTokenResponse` of flows/base.ts.
use protocol_lens.Prelude.{
  ℕ, zero, suc, String, codes, Bool, Option, none, some, List, [], ◌∷◌, ◌++◌, length, if◌then◌else◌,
}
use protocol_lens.Js.Value.{
  Value, Items, undefined, bool, num, negsuc, str, arr, obj, nil, cons, strings, get_prop, keys,
  as_string, truthy,
}
use protocol_lens.Flow.State.{
  EventType, DecodedToken, TokenType, access_token, id_token, refresh_token, Tokens,
}
use protocol_lens.Flow.Env.{Env}
use protocol_lens.Flow.Exec.{Exec, pure, ◌>>=◌, ◌>>◌, or_throw, get_state, update_state}
use protocol_lens.Flow.Jwt.{decode_jwt}
use protocol_lens.Flow.Base.{event, clock, add_event}

-- `this.decodeJwt(token, type)`
unfoldable pub decode : Env → String → TokenType → Exec DecodedToken
unfolding get_state clock decode_jwt
decode env token type = do
  s ← get_state
  now ← clock env
  pure (decode_jwt env now s.security_params.nonce token type)

abbrev indices : Env → ℕ → ℕ → List String
indices env zero i = []
indices env (suc n) i = env.to_text (num i) ∷ indices env n (suc i)

abbrev count_items : Items → ℕ
count_items nil = 0
count_items (cons v vs) = suc (count_items vs)

-- `Object.keys(v)`
abbrev object_keys : Env → Value → List String
object_keys env (obj fs) = keys fs
object_keys env (arr vs) = indices env (count_items vs) 0
object_keys env (str s) = indices env (length (codes s)) 0
object_keys env _ = []

-- The truthy payload of a token.
abbrev pub payload_of : DecodedToken → Option Value
payload_of d = elim d.payload [ none ↦ none | some v ↦ if truthy v then some v else none ]

abbrev opt_bool : Option Bool → Value
opt_bool none = undefined
opt_bool (some b) = bool b

abbrev claims : Env → Option Value → List String
claims env none = []
claims env (some v) = object_keys env v

abbrev is_true : Option Bool → Bool
is_true none = Bool.false
is_true (some b) = b

unfoldable pub receive_access : Env → Option String → Exec (List DecodedToken)
unfolding decode add_event truthy keys
receive_access env none = pure []
receive_access env (some token) = do
  decoded ← decode env token access_token
  add_event env (
      event EventType.token "Access Token Received"
        (elim (payload_of decoded) [
          | some _ ↦ "JWT access token decoded"
          | none ↦ "Opaque access token received"
        ])
        none
        (elim (payload_of decoded) [
          | some v ↦ ("claims", arr (strings (object_keys env v))) ∷ []
          | none ↦ []
        ]))
  pure (decoded ∷ [])

unfoldable pub receive_id : Env → Option String → Exec (List DecodedToken)
unfolding decode add_event truthy keys
receive_id env none = pure []
receive_id env (some token) = do
  decoded ← decode env token id_token
  add_event env (
      event EventType.token "ID Token Received (OIDC)"
        (if is_true decoded.is_valid
          then "ID token validated"
          else "ID token has validation errors")
        (some "OIDC Core 1.0 Section 2")
        (("claims", arr (strings (claims env (payload_of decoded))))
          ∷ ("isValid", opt_bool decoded.is_valid)
          ∷ []))
  pure (decoded ∷ [])

unfoldable pub receive_refresh : Env → Option String → Exec (List DecodedToken)
unfolding decode add_event
receive_refresh env none = pure []
receive_refresh env (some token) = do
  decoded ← decode env token refresh_token
  add_event env (
      event EventType.token "Refresh Token Received" "Can be used to obtain new access tokens"
        (some "RFC 6749 Section 1.5") [])
  pure (decoded ∷ [])

-- `typeof v === 'number'`
abbrev pub as_number : Value → Option Value
as_number (num n) = some (num n)
as_number (negsuc n) = some (negsuc n)
as_number _ = none

-- The tokens of a response: the members of it that have the right type.
unfoldable pub tokens_of : (access id refresh token_type expires scope : Value) → Tokens
unfolding as_string
tokens_of access id refresh token_type expires scope = record {
  access_token = as_string access;
  id_token = as_string id;
  refresh_token = as_string refresh;
  token_type = as_string token_type;
  expires_in = as_number expires;
  scope = as_string scope;
}

unfoldable pub process_token_response : Env → Value → Exec (Unit {0})
unfolding get_prop as_string receive_access receive_id receive_refresh tokens_of update_state
process_token_response env response = do
  access ← or_throw env.type_error (get_prop response "access_token")
  id ← or_throw env.type_error (get_prop response "id_token")
  refresh ← or_throw env.type_error (get_prop response "refresh_token")
  token_type ← or_throw env.type_error (get_prop response "token_type")
  expires ← or_throw env.type_error (get_prop response "expires_in")
  scope ← or_throw env.type_error (get_prop response "scope")
  from_access ← receive_access env (as_string access)
  from_id ← receive_id env (as_string id)
  from_refresh ← receive_refresh env (as_string refresh)
  update_state (λ s. record s {
    tokens = tokens_of access id refresh token_type expires scope;
    decoded_tokens = from_access ++ from_id ++ from_refresh;
  })
