-- ===== src/Flow/Validation.antt =====
-- The checks of `decodeJwt` of flows/base.ts.
use protocol_lens.Prelude.{
  ℕ, zero, suc, ◌*◌, ◌≤◌, String, ◌≡◌, ◌≢◌, refl, ap, ◌∙◌, subst, true, false, Option, none, some,
  [], ◌∷◌, split, str_eq, eq_iff, arith,
}
use protocol_lens.Js.Value.{Value, undefined, null, bool, num, negsuc, str, arr, obj, get_prop}
use protocol_lens.Flow.State.{DecodedToken, id_token}
use protocol_lens.Flow.Env.{Env}
use protocol_lens.Flow.Jwt.{
  decode_part, is_expired, is_text, nonce_differs, new_token, failed_token, validate, check_payload,
  decode_parts, decode_split, decode_jwt,
}

-- What a payload that has passed the checks says, at the time `now` in milliseconds.
pub record Checked (env : Env) (now : ℕ) (nonce part : String) : Type 0 where
  pub payload : Value
  pub decoded : decode_part env part ≡ some payload
  pub nonce_matches : get_prop payload "nonce" ≡ some (str nonce)
  pub exp : Value
  pub expires : get_prop payload "exp" ≡ some exp
  pub fresh : (n : ℕ) → exp ≡ num n → n ≢ 0 → now ≤ n * 1000
  pub not_negative : (n : ℕ) → exp ≢ negsuc n

not_passed : (now n : ℕ) → is_expired now (num n) ≡ false → n ≢ 0 → now ≤ n * 1000
unfolding is_expired
not_passed now zero h k = absurd (k refl)
not_passed now (suc n) h k = ground (arith, h)

negative : (now n : ℕ) → is_expired now (negsuc n) ≢ false
unfolding is_expired
negative now n h = ground arith

pub str_of_is_text : (v : Value) (s : String) → is_text v s ≡ true → v ≡ str s
unfolding is_text
str_of_is_text (str t) s h = ap str ((eq_iff t s).0 h)
str_of_is_text undefined s h = ground arith
str_of_is_text null s h = ground arith
str_of_is_text (bool b) s h = ground arith
str_of_is_text (num n) s h = ground arith
str_of_is_text (negsuc n) s h = ground arith
str_of_is_text (arr vs) s h = ground arith
str_of_is_text (obj fs) s h = ground arith

validate-fresh :
    (now : ℕ) (expected : Option String) (d : DecodedToken) (exp found : Value)
    → (validate now expected d exp found).is_valid ≡ some true
    → (is_expired now exp ≡ false) × (nonce_differs d.type expected found ≡ false)
unfolding validate
validate-fresh now expected d exp found h = ground arith

nonce_same :
    (nonce : String) (found : Value)
    → str_eq nonce "" ≡ false
    → nonce_differs id_token (some nonce) found ≡ false
    → found ≡ str nonce
unfolding nonce_differs
nonce_same nonce found named h = str_of_is_text found nonce (ground (arith, named, h))

failed_not_valid : (d : DecodedToken) → (failed_token d).is_valid ≢ some true
failed_not_valid d h = ground arith

checked :
    (env : Env) (now : ℕ) (nonce part : String) (payload : Value) (d : DecodedToken)
    (exp found : Option Value)
    → str_eq nonce "" ≡ false
    → d.type ≡ id_token
    → decode_part env part ≡ some payload
    → get_prop payload "exp" ≡ exp
    → get_prop payload "nonce" ≡ found
    → (check_payload now (some nonce) d exp found).is_valid ≡ some true
    → Checked env now nonce part
unfolding check_payload
checked env now nonce part payload d none found named kind decoded e f h =
    absurd (failed_not_valid d h)
checked env now nonce part payload d (some exp) none named kind decoded e f h =
    absurd (failed_not_valid d h)
checked env now nonce part payload d (some exp) (some found) named kind decoded e f h =
    let (fresh, same) = validate-fresh now (some nonce) d exp found h in
    record {
      payload = payload;
      decoded = decoded;
      nonce_matches =
          f
          ∙ ap some (
              nonce_same nonce found named
                (subst (λ t. nonce_differs t (some nonce) found ≡ false) kind same));
      exp = exp;
      expires = e;
      fresh = λ n e k. not_passed now n (subst (λ v. is_expired now v ≡ false) e fresh) k;
      not_negative = λ n e. negative now n (subst (λ v. is_expired now v ≡ false) e fresh);
    }

decode_parts-Checked :
    (env : Env) (now : ℕ) (nonce part signature : String) (d : DecodedToken)
    (header payload : Option Value)
    → str_eq nonce "" ≡ false
    → d.type ≡ id_token
    → decode_part env part ≡ payload
    → (decode_parts env now (some nonce) d header payload signature).is_valid ≡ some true
    → Checked env now nonce part
unfolding decode_parts
decode_parts-Checked env now nonce part signature d none payload named kind decoded h =
    absurd (failed_not_valid d h)
decode_parts-Checked env now nonce part signature d (some header) none named kind decoded h =
    absurd (failed_not_valid (record d { header = some header }) h)
decode_parts-Checked env now nonce part signature d (some header) (some payload) named kind decoded
      h =
    checked env now nonce part payload
      (record d { header = some header; payload = some payload; signature = some signature })
      (get_prop payload "exp") (get_prop payload "nonce") named kind decoded refl refl h

-- An ID token of three parts that `decodeJwt` calls valid, while the state holds a non-empty nonce,
-- has a payload that decodes and whose `nonce` is that nonce; and if its `exp` is an integer other
-- than 0, it is positive, and that many seconds are not less than the present time. An `exp` that is
-- 0 or no number is not looked at.
pub decode_jwt_valid :
    (env : Env) (now : ℕ) (nonce token header part signature : String)
    → split b'.' token ≡ header ∷ part ∷ signature ∷ []
    → str_eq nonce "" ≡ false
    → (decode_jwt env now (some nonce) token id_token).is_valid ≡ some true
    → Checked env now nonce part
unfolding decode_jwt decode_split
decode_jwt_valid env now nonce token header part signature parts named h =
    decode_parts-Checked env now nonce part signature (new_token id_token token)
      (decode_part env header) (decode_part env part) named refl refl (rw parts at h)
