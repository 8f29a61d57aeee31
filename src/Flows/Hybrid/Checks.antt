-- ===== src/Flows/Hybrid/Checks.antt =====
-- The hash checks of flows/oidc-hybrid.ts, and the tokens that its timeline announces.
use protocol_lens.Prelude.{
  String, ◌≡◌, refl, true, Option, none, some, includes, if◌then◌else◌, Bool-cases, inl, inr, arith,
}
use protocol_lens.Js.Value.{Value, undefined, null, bool, num, negsuc, str, obj, arr, truthy}
use protocol_lens.Flow.State.{TokenType}
use protocol_lens.Flow.Env.{Env}
use protocol_lens.Flow.Exec.{World, pure}
use protocol_lens.Flow.Tokens.{payload_of}
use protocol_lens.Flow.Yields.{HasProps}
use protocol_lens.Flow.Total.{
  Returns, IsReturned, returns_rules, Returns-add_event, Returns-bind, Returns-pure, Returns-decode,
  Returns-get_prop,
}
use protocol_lens.Flows.Hybrid.Authorize.{
  has_text, HybridType, code_id_token, code_token, code_id_token_token, tokens_from_authz_endpoint,
}
use protocol_lens.Flows.Hybrid.Hashes.{
  HashClaim, compare_hash, check_claim, check_payload, validate_hash,
}
use protocol_lens.Flows.Hybrid.{validate_if}

truthy-HasProps : (v : Value) → truthy v ≡ true → HasProps v
unfolding truthy
truthy-HasProps undefined h = absurd (ground arith)
truthy-HasProps null h = absurd (ground arith)
truthy-HasProps (bool b) h = tt
truthy-HasProps (num n) h = tt
truthy-HasProps (negsuc n) h = tt
truthy-HasProps (str s) h = tt
truthy-HasProps (obj fs) h = tt
truthy-HasProps (arr vs) h = tt

kept_payload :
    (o : Option Value) (v : Value)
    → (elim o [ none ↦ none | some u ↦ if truthy u then some u else none ]) ≡ some v
    → HasProps v
kept_payload none v h = absurd (ground arith)
kept_payload (some u) v h = elim (Bool-cases (truthy u)) [
  | inl kept ↦ truthy-HasProps v (ground arith)
  | inr dropped ↦ absurd (ground arith)
]

module _ (env : Env) (claim : HashClaim) where
  Returns-compare_hash : (text : String) (v : Value) → Returns (compare_hash env claim text v)
  unfolding compare_hash
  Returns-compare_hash text v = search (returns_rules, Returns-add_event)

  Returns-check_claim :
      (text : String) (v : Value) → HasProps v → Returns (check_claim env claim text v)
  unfolding check_claim
  Returns-check_claim text v h =
      search (returns_rules, Returns-get_prop, Returns-compare_hash, Returns-add_event)

  Returns-check_payload :
      (text : String) (o : Option Value)
      → ((v : Value) → o ≡ some v → HasProps v)
      → Returns (check_payload env claim text o)
  unfolding check_payload
  Returns-check_payload text none h = Returns-pure tt
  Returns-check_payload text (some v) h = Returns-check_claim text v (h v refl)

  Returns-validate_hash : (token text : String) → Returns (validate_hash env claim token text)
  unfolding validate_hash
  Returns-validate_hash token text =
      Returns-bind _ _ (Returns-decode env token TokenType.id_token)
        (λ d. Returns-check_payload text (payload_of d) (kept_payload d.payload))

-- The check of a hash claim (`c_hash` or `at_hash`) returns normally whatever the ID token, the
-- hashed text and the environment are: a mismatch never stops the run.
pub hash_check-passes :
    (env : Env) (claim : HashClaim) (token text : Option String) (w : World)
    → IsReturned (validate_if env claim token text w).0
unfolding validate_if pure
hash_check-passes env claim none text w = tt
hash_check-passes env claim (some token) none w = tt
hash_check-passes env claim (some token) (some text) w =
    (Returns-validate_hash env claim token text).at w

-- The timeline of a hybrid run announces an access token from the authorization endpoint for every
-- response type, `code id_token` included.
pub announces_access_token :
    (t : HybridType) → has_text "access_token" (tokens_from_authz_endpoint t) ≡ true
unfolding tokens_from_authz_endpoint includes
announces_access_token code_id_token = refl
announces_access_token code_token = refl
announces_access_token code_id_token_token = refl
