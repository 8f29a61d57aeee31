-- ===== src/Crypto/Storage.antt =====
-- `oauthStorage` of frontend/src/utils/crypto.ts: values kept in the session storage.
use protocol_lens.Prelude.{
  String, Bool, false, Option, none, some, str_eq, if◌then◌else◌, ◌≡◌, refl,
}
use protocol_lens.Js.Params
use protocol_lens.Js.Params.{Params, get-set, get-delete}

-- The session storage: its keys with their texts.
abbrev pub Storage : Type 0
Storage = Params

unfoldable pub store_verifier : String → Storage → Storage
unfolding Params.set
store_verifier verifier = Params.set "pkce_verifier" verifier

-- The value with what is left of the storage.
unfoldable pub get_verifier : Storage → Option String × Storage
unfolding Params.get Params.delete
get_verifier s = (Params.get "pkce_verifier" s, Params.delete "pkce_verifier" s)

unfoldable pub store_state : String → Storage → Storage
unfolding Params.set
store_state state = Params.set "oauth_state" state

abbrev is_stored : Option String → String → Bool
is_stored none received = false
is_stored (some stored) received = str_eq stored received

unfoldable pub validate_state : String → Storage → Bool × Storage
unfolding Params.get Params.delete
validate_state received s =
    (is_stored (Params.get "oauth_state" s) received, Params.delete "oauth_state" s)

unfoldable pub store_nonce : String → Storage → Storage
unfolding Params.set
store_nonce nonce = Params.set "oidc_nonce" nonce

unfoldable pub get_nonce : Storage → Option String × Storage
unfolding Params.get Params.delete
get_nonce s = (Params.get "oidc_nonce" s, Params.delete "oidc_nonce" s)

unfoldable pub store_flow_type : String → Storage → Storage
unfolding Params.set
store_flow_type flow_type = Params.set "oauth_flow_type" flow_type

abbrev or_default : Option String → String
or_default none = "oauth2"
or_default (some s) = if str_eq s "" then "oauth2" else s

unfoldable pub get_flow_type : Storage → String
unfolding Params.get
get_flow_type s = or_default (Params.get "oauth_flow_type" s)

unfoldable pub clear_all : Storage → Storage
unfolding Params.delete
clear_all s =
    Params.delete "oauth_flow_type"
      (Params.delete "oidc_nonce" (Params.delete "oauth_state" (Params.delete "pkce_verifier" s)))

-- A stored state is accepted once, by the same text and no other, whatever verifier, nonce and flow
-- type are stored in between; a second check fails whatever is received.
pub state_used_once :
    (s : Storage) (state verifier nonce flow_type received again : String)
    → let filled =
        store_flow_type flow_type
          (store_nonce nonce (store_verifier verifier (store_state state s))) in
      ((validate_state received filled).0 ≡ str_eq state received)
      × ((validate_state again (validate_state received filled).1).0 ≡ false)
unfolding validate_state store_state store_verifier store_nonce store_flow_type
state_used_once s state verifier nonce flow_type received again =
    (rw (get-set, get-set, get-set, get-set) refl, rw get-delete refl)

-- A stored verifier and a stored nonce can each be read back once, also when a state is checked in
-- between; a second read finds nothing.
pub values_read_once :
    (s : Storage) (verifier nonce received : String)
    → let filled = (validate_state received (store_nonce nonce (store_verifier verifier s))).1 in
      ((get_verifier filled).0 ≡ some verifier)
      × ((get_verifier (get_verifier filled).1).0 ≡ none)
      × ((get_nonce filled).0 ≡ some nonce)
      × ((get_nonce (get_nonce filled).1).0 ≡ none)
unfolding validate_state get_verifier get_nonce store_verifier store_nonce
values_read_once s verifier nonce received = (
  rw (get-delete, get-set, get-set) refl,
  rw get-delete refl,
  rw (get-delete, get-set) refl,
  rw get-delete refl,
)

-- After `clearAll` no state is accepted, no verifier and no nonce is read, and the flow type is the
-- default.
pub cleared :
    (s : Storage) (received : String)
    → ((validate_state received (clear_all s)).0 ≡ false)
      × ((get_verifier (clear_all s)).0 ≡ none)
      × ((get_nonce (clear_all s)).0 ≡ none)
      × (get_flow_type (clear_all s) ≡ "oauth2")
unfolding clear_all validate_state get_verifier get_nonce get_flow_type
cleared s received = (
  rw (get-delete, get-delete, get-delete) refl,
  rw (get-delete, get-delete, get-delete, get-delete) refl,
  rw (get-delete, get-delete) refl,
  rw get-delete refl,
)
