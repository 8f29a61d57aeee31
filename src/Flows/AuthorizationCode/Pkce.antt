-- ===== src/Flows/AuthorizationCode/Pkce.antt =====
-- The requests of the authorization code flow, and its proof key (RFC 7636).
use protocol_lens.Prelude.{
  ℕ, suc, ◌+◌, String, from_codes, Bool, true, false, Option, none, some, ◌&&◌, str_eq,
  if◌then◌else◌, ◌≡◌, refl, ap, arith, sym, subst, ◌∙◌,
}
use protocol_lens.Js.Params
use protocol_lens.Js.Params.{Params, get-set, get-set_all}
use protocol_lens.Flow.State.{SecurityParams}
use protocol_lens.Flow.Env.{Env}
use protocol_lens.Flow.Exec.{
  World, ◌>>=◌, ◌>>◌, pure, when, next_call, wait, update_state, set_state, publish, set_csrf_state,
}
use protocol_lens.Flow.Base.{add_event}
use protocol_lens.Flow.Random.{
  base64_url_encode, generate_secure_random, generate_code_verifier, generate_code_challenge,
  challenge_of,
}
use protocol_lens.Flows.Grant.{present, is_present}
use protocol_lens.Flows.Grant.Forms.{set_present-same, set_present-other}
use protocol_lens.Flows.AuthorizationCode.Authorize.{
  CodeConfig, generate_state, generate_pkce, generate_nonce, more_params, generate_security_params,
  set_challenge, set_extra, authorization_params, param_text,
}
use protocol_lens.Flows.AuthorizationCode.{request_body}

-- The extra parameters do not use the name.
abbrev pub ExtraLacks : String → CodeConfig → Type 0
ExtraLacks k c = elim c.config.extra_params [ none ↦ Unit | some extra ↦ Params.get k extra ≡ none ]

get-set_extra :
    (k : String) (extra : Option Params) (ps : Params)
    → elim extra as (λ _. Type 0) [ none ↦ Unit | some e ↦ Params.get k e ≡ none ]
    → Params.get k (set_extra extra ps) ≡ Params.get k ps
get-set_extra k none ps h = refl
get-set_extra k (some extra) ps h = get-set_all k extra ps h

set_challenge-same :
    (b : Bool) (o : Option String) (ps : Params)
    → Params.get "code_challenge" ps ≡ none
    → Params.get "code_challenge" (set_challenge b o ps) ≡ (if b then present o else none)
set_challenge-same false o ps h = h
set_challenge-same true none ps h = h
set_challenge-same true (some s) ps h = ground (
  arith,
  h,
  get-set "code_challenge_method" "code_challenge" "S256" (Params.set "code_challenge" s ps),
  get-set "code_challenge" "code_challenge" s ps,
)

set_challenge-method :
    (b : Bool) (o : Option String) (ps : Params)
    → Params.get "code_challenge_method" ps ≡ none
    → Params.get "code_challenge_method" (set_challenge b o ps)
      ≡ (if b && is_present o then some "S256" else none)
set_challenge-method false o ps h = h
set_challenge-method true none ps h = h
set_challenge-method true (some s) ps h = ground (
  arith,
  h,
  get-set "code_challenge_method" "code_challenge_method" "S256" (Params.set "code_challenge" s ps),
)

set_challenge-other :
    (j : String) (b : Bool) (o : Option String) (ps : Params)
    → str_eq "code_challenge" j ≡ false
    → str_eq "code_challenge_method" j ≡ false
    → Params.get j (set_challenge b o ps) ≡ Params.get j ps
set_challenge-other j false o ps h k = refl
set_challenge-other j true none ps h k = refl
set_challenge-other j true (some s) ps h k = ground (
  arith,
  h,
  k,
  get-set "code_challenge_method" j "S256" (Params.set "code_challenge" s ps),
  get-set "code_challenge" j s ps,
)

-- The authorization URL of a code flow whose extra parameters use none of these names asks for a
-- code, and carries the state of the run, its challenge with the method S256 where PKCE is on and
-- the challenge is not empty (else neither), and its nonce where there is one that is not empty.
pub authorization_request :
    (c : CodeConfig) (p : SecurityParams) (state : String)
    → ExtraLacks "response_type" c
    → ExtraLacks "state" c
    → ExtraLacks "code_challenge" c
    → ExtraLacks "code_challenge_method" c
    → ExtraLacks "nonce" c
    → p.state ≡ some state
    → (Params.get "response_type" (authorization_params c p) ≡ some "code")
      × (Params.get "state" (authorization_params c p) ≡ some state)
      × (Params.get "code_challenge" (authorization_params c p)
          ≡ (if c.use_pkce then present p.code_challenge else none))
      × (Params.get "code_challenge_method" (authorization_params c p)
          ≡ (if c.use_pkce && is_present p.code_challenge then some "S256" else none))
      × (Params.get "nonce" (authorization_params c p) ≡ present p.nonce)
unfolding authorization_params Params.get
authorization_request c p state h1 h2 h3 h4 h5 set = (
  get-set_extra "response_type" c.config.extra_params _ h1
      ∙ set_present-other "nonce" "response_type" p.nonce _ refl
      ∙ set_challenge-other "response_type" c.use_pkce p.code_challenge _ refl refl
      ∙ set_present-other "redirect_uri" "response_type" c.config.redirect_uri _ refl,
  get-set_extra "state" c.config.extra_params _ h2
      ∙ set_present-other "nonce" "state" p.nonce _ refl
      ∙ set_challenge-other "state" c.use_pkce p.code_challenge _ refl refl
      ∙ set_present-other "redirect_uri" "state" c.config.redirect_uri _ refl
      ∙ ap (λ o. some (param_text o)) set,
  get-set_extra "code_challenge" c.config.extra_params _ h3
      ∙ set_present-other "nonce" "code_challenge" p.nonce _ refl
      ∙ set_challenge-same c.use_pkce p.code_challenge _
          (set_present-other "redirect_uri" "code_challenge" c.config.redirect_uri _ refl),
  get-set_extra "code_challenge_method" c.config.extra_params _ h4
      ∙ set_present-other "nonce" "code_challenge_method" p.nonce _ refl
      ∙ set_challenge-method c.use_pkce p.code_challenge _
          (set_present-other "redirect_uri" "code_challenge_method" c.config.redirect_uri _ refl),
  get-set_extra "nonce" c.config.extra_params _ h5
      ∙ set_present-same "nonce" p.nonce _ (
          set_challenge-other "nonce" c.use_pkce p.code_challenge _ refl refl
          ∙ set_present-other "redirect_uri" "nonce" c.config.redirect_uri _ refl),
)

abbrev verifier : CodeConfig → SecurityParams → Option String
verifier c p = if c.use_pkce then p.code_verifier else none

present-if :
    (b : Bool) (o : Option String)
    → present (if b then o else none) ≡ (if b then present o else none)
present-if true o = refl
present-if false o = refl

-- The token request of a code flow carries the code, and the verifier where PKCE is on and the
-- verifier is not empty, the redirect URI and the client secret where they are not empty.
pub token_request :
    (c : CodeConfig) (p : SecurityParams) (code : String)
    → (Params.get "grant_type" (request_body c p code) ≡ some "authorization_code")
      × (Params.get "code" (request_body c p code) ≡ some code)
      × (Params.get "client_id" (request_body c p code) ≡ some c.config.client_id)
      × (Params.get "redirect_uri" (request_body c p code) ≡ present c.config.redirect_uri)
      × (Params.get "code_verifier" (request_body c p code)
          ≡ (if c.use_pkce then present p.code_verifier else none))
      × (Params.get "client_secret" (request_body c p code) ≡ present c.config.client_secret)
unfolding request_body Params.get
token_request c p code = (
  set_present-other "client_secret" "grant_type" c.config.client_secret _ refl
      ∙ set_present-other "code_verifier" "grant_type" (verifier c p) _ refl
      ∙ set_present-other "redirect_uri" "grant_type" c.config.redirect_uri _ refl,
  set_present-other "client_secret" "code" c.config.client_secret _ refl
      ∙ set_present-other "code_verifier" "code" (verifier c p) _ refl
      ∙ set_present-other "redirect_uri" "code" c.config.redirect_uri _ refl,
  set_present-other "client_secret" "client_id" c.config.client_secret _ refl
      ∙ set_present-other "code_verifier" "client_id" (verifier c p) _ refl
      ∙ set_present-other "redirect_uri" "client_id" c.config.redirect_uri _ refl,
  set_present-other "client_secret" "redirect_uri" c.config.client_secret _ refl
      ∙ set_present-other "code_verifier" "redirect_uri" (verifier c p) _ refl
      ∙ set_present-same "redirect_uri" c.config.redirect_uri _ refl,
  set_present-other "client_secret" "code_verifier" c.config.client_secret _ refl
      ∙ set_present-same "code_verifier" (verifier c p) _
          (set_present-other "redirect_uri" "code_verifier" c.config.redirect_uri _ refl)
      ∙ present-if c.use_pkce p.code_verifier,
  set_present-same "client_secret" c.config.client_secret _ (
      set_present-other "code_verifier" "client_secret" (verifier c p) _ refl
      ∙ set_present-other "redirect_uri" "client_secret" c.config.redirect_uri _ refl),
)

-- The verifier and its challenge, of the random bytes of an environment call.
abbrev pub Binds : Env → SecurityParams → ℕ → Type 0
Binds env p call =
    (p.code_verifier ≡ some (from_codes (base64_url_encode (env.random call 32))))
    × (p.code_challenge
        ≡ some (challenge_of env (from_codes (base64_url_encode (env.random call 32)))))

generate_pkce-Binds :
    (env : Env) (w : World) → Binds env (generate_pkce env w).1.state.security_params w.calls
unfolding generate_pkce generate_code_verifier generate_code_challenge challenge_of wait next_call
    update_state set_state publish add_event pure ◌>>=◌
generate_pkce-Binds env w = (refl, refl)

pkce-then-Binds :
    (env : Env) (nonce : Bool) (w : World)
    → Binds env
        ((generate_pkce env >> when nonce (generate_nonce env)) w).1.state.security_params
        w.calls
unfolding generate_pkce generate_code_verifier generate_code_challenge challenge_of wait next_call
    update_state set_state publish add_event pure ◌>>=◌ when generate_nonce generate_secure_random
pkce-then-Binds env true w = (refl, refl)
pkce-then-Binds env false w = (refl, refl)

more_params-Binds :
    (env : Env) (c : CodeConfig) (w : World)
    → c.use_pkce ≡ true
    → Binds env (more_params env c w).1.state.security_params w.calls
unfolding more_params when
more_params-Binds env c w on =
    subst
      (λ b.
        Binds env
          ((when b (generate_pkce env) >> when c.include_nonce (generate_nonce env))
            w).1.state.security_params
          w.calls)
      (sym on) (pkce-then-Binds env c.include_nonce w)

three_calls : (n : ℕ) → suc (suc (suc n)) ≡ n + 3
three_calls n = omega arith

generate_state-calls : (env : Env) (w : World) → (generate_state env w).1.calls ≡ w.calls + 3
unfolding generate_state generate_secure_random set_csrf_state add_event next_call ◌>>=◌ publish
    set_state
generate_state-calls env w = three_calls w.calls

-- With PKCE on, the flow's security parameters end up with a verifier, the encoding of 32 random
-- bytes, and the challenge of that verifier, also when somebody resets the executor while the digest
-- is computed.
pub generate_security_params-Binds :
    (env : Env) (c : CodeConfig) (w : World)
    → c.use_pkce ≡ true
    → Binds env (generate_security_params env c w).1.state.security_params (w.calls + 3)
unfolding generate_security_params ◌>>=◌
generate_security_params-Binds env c w on =
    subst (λ n. Binds env (generate_security_params env c w).1.state.security_params n)
      (generate_state-calls env w) (more_params-Binds env c (generate_state env w).1 on)
