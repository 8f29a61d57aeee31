-- ===== src/Flows/Hybrid/Hashes.antt =====
-- `validateCHash` and `validateAtHash` of flows/oidc-hybrid.ts.
use protocol_lens.Prelude.{
  ◌/◌, String, from_codes, Option, none, some, [], take, length, if◌then◌else◌,
}
use protocol_lens.Js.Value.{Value, get_prop, truthy}
use protocol_lens.Flow.State.{EventType, EventText, id_token}
use protocol_lens.Flow.Env.{Env}
use protocol_lens.Flow.Exec.{Exec, pure, ◌>>=◌, ◌>>◌, or_throw, wait}
use protocol_lens.Flow.Base.{event, add_event}
use protocol_lens.Flow.Jwt.{is_text}
use protocol_lens.Flow.Tokens.{decode, payload_of}
use protocol_lens.Flow.Random.{base64_url_encode}

-- The encoded first half of the SHA-256 digest.
unfoldable pub half_hash : Env → String → String
unfolding base64_url_encode
half_hash env text =
    let hash = env.sha256 text in from_codes (base64_url_encode (take (length hash / 2) hash))

-- A claim, and the events of the three outcomes of its check.
pub record HashClaim : Type 0 where
  pub name : String
  pub missing : EventText
  pub validated : EventText
  pub mismatch : EventText

abbrev reference : Option String
reference = some "OIDC Core 1.0 Section 3.3.2.11"

abbrev pub c_hash : HashClaim
c_hash = record {
  name = "c_hash";
  missing =
      event EventType.security "c_hash Missing"
        "ID token should contain c_hash when code is present" reference [];
  validated =
      event EventType.security "c_hash Validated" "Authorization code hash matches" reference [];
  mismatch =
      event EventType.error "c_hash Mismatch" "Authorization code may have been tampered with"
        reference [];
}

abbrev pub at_hash : HashClaim
at_hash = record {
  name = "at_hash";
  missing =
      event EventType.security "at_hash Missing"
        "ID token should contain at_hash when access_token is present" reference [];
  validated = event EventType.security "at_hash Validated" "Access token hash matches" reference [];
  mismatch =
      event EventType.error "at_hash Mismatch" "Access token may have been tampered with" none [];
}

unfoldable pub compare_hash : Env → HashClaim → (text : String) → Value → Exec (Unit {0})
unfolding wait half_hash is_text add_event
compare_hash env claim text value = do
  wait env
  add_event env (if is_text value (half_hash env text) then claim.validated else claim.mismatch)

unfoldable pub check_claim : Env → HashClaim → (text : String) → Value → Exec (Unit {0})
unfolding get_prop truthy add_event compare_hash
check_claim env claim text payload = do
  value ← or_throw env.type_error (get_prop payload claim.name)
  if truthy value then compare_hash env claim text value else add_event env claim.missing

unfoldable pub check_payload : Env → HashClaim → (text : String) → Option Value → Exec (Unit {0})
unfolding check_claim
check_payload env claim text none = pure tt
check_payload env claim text (some payload) = check_claim env claim text payload

unfoldable pub validate_hash : Env → HashClaim → (token text : String) → Exec (Unit {0})
unfolding decode truthy check_payload
validate_hash env claim token text = do
  decoded ← decode env token id_token
  check_payload env claim text (payload_of decoded)
