-- ===== src/Tests/Tokens.antt =====
-- Sample tokens.
use protocol_lens.Prelude.{◌≡◌, refl, true, some, [], ◌∷◌, split}
use protocol_lens.Js.Value.{str, num, obj, end, field}
use protocol_lens.Flow.State.{id_token}
use protocol_lens.Flow.Env.{Env}
use protocol_lens.Flow.Jwt.{decode_jwt}
use protocol_lens.Flow.Validation.{Checked, decode_jwt_valid}
use protocol_lens.Tests.{sample}

-- A browser that parses every text to a payload that expires at second 1300819380.
abbrev env : Env
env = record (sample []) {
  parse_json =
      λ codes. some (obj (field "nonce" (str "n-0S6_WzA2Mj") (field "exp" (num 1300819380) end)));
}

valid : (decode_jwt env 1000 (some "n-0S6_WzA2Mj") "e30.e30.c2ln" id_token).is_valid ≡ some true
unfolding decode_jwt
valid = refl

three_parts : split b'.' "e30.e30.c2ln" ≡ "e30" ∷ "e30" ∷ "c2ln" ∷ []
unfolding split
three_parts = refl

decode_jwt_valid_example : Checked env 1000 "n-0S6_WzA2Mj" "e30"
decode_jwt_valid_example =
    decode_jwt_valid env 1000 "n-0S6_WzA2Mj" "e30.e30.c2ln" "e30" "e30" "c2ln" three_parts refl
      valid
