-- ===== src/Flows/Hybrid/Csrf.antt =====
-- CSRF protection of the hybrid flow.
use protocol_lens.Prelude.{
  ℕ, suc, ◌+◌, String, Bool, true, false, Option, none, some, List, ◌≡◌, refl, subst, ◌∙◌, ap,
  arith, if◌then◌else◌,
}
use protocol_lens.Js.Value.{Value, str, get_prop, truthy}
use protocol_lens.Flow.State.{EventText, completed}
use protocol_lens.Flow.Env.{Env, WindowEvent}
use protocol_lens.Flow.Exec.{
  World, Outcome, returned, pure, throw, ◌>>=◌, ◌>>◌, get_state, next_call, set_state, publish,
  update_state, when,
}
use protocol_lens.Flow.Base.{begun, add_event}
use protocol_lens.Flow.Random.{generate_secure_random}
use protocol_lens.Flow.Popup.{same_state}
use protocol_lens.Flow.Timeline.{NoReset, StateGrows-Law}
use protocol_lens.Flow.Inversion.{
  bind-returned, if-returned, or_throw-returned, await_callback-Arrives, str_of_same_state,
  catch-completed,
}
use protocol_lens.Flows.Grant.{guarded}
use protocol_lens.Flows.Hybrid.Authorize.{
  HybridConfig, Callback, uses_pkce, set_fresh, generate_state, generate_pkce,
  generate_security_params, read_callback, with_popup, open_authorization_popup,
}
use protocol_lens.Flows.Hybrid.{
  use_callback, finish, after_params, authorize, attempt, perform, execute, execute_lem, first_step,
}
use protocol_lens.Flows.Hybrid.Steps.{Respects-generate_pkce, Respects-after_params}
use protocol_lens.Flow.Respects.{Respects-when}
use protocol_lens.Flows.Answer.{csrf_state, Answered}

checked :
    (b : Bool) (e : String) (f r : Callback) (w : World)
    → ((if b then throw e else pure f) w).0 ≡ returned r
    → f.state ≡ r.state
unfolding throw pure
checked true e f r w h = absurd (ground arith)
checked false e f r w h = cc

read_callback-state :
    (env : Env) (content : Value) (r : Callback) (w : World)
    → (read_callback env content w).0 ≡ returned r
    → get_prop content "state" ≡ some r.state
unfolding read_callback
read_callback-state env content r w h =
    let (v1, _, h1, _) = bind-returned _ _ w _ h in
    let (v2, _, h2, _) = bind-returned _ _ _ _ h1 in
    let (v3, _, h3, _) = bind-returned _ _ _ _ h2 in
    let (v4, e4, h4, _) = bind-returned _ _ _ _ h3 in
    let (v5, _, h5, _) = bind-returned _ _ _ _ h4 in
    let (v6, _, h6, _) = bind-returned _ _ _ _ h5 in
    or_throw-returned _ _ _ _ e4 ∙ ap some (checked (truthy v5) _ _ _ _ h6)

with_popup-Answered :
    (env : Env) (call : ℕ) (url : String) (o : Option (List WindowEvent)) (r : Callback) (w : World)
    → env.popup call url ≡ o
    → (with_popup env o w).0 ≡ returned r
    → Answered env "oidc_hybrid_callback" r.state
unfolding with_popup throw
with_popup-Answered env call url none r w opened h = absurd (ground arith)
with_popup-Answered env call url (some events) r w opened h =
    let (_, _, h1, _) = bind-returned _ _ w _ h in
    let (content, waited, h2, _) = bind-returned _ _ _ _ h1 in
    record {
      call = call;
      url = url;
      events = events;
      opened = opened;
      content = content;
      arrives = await_callback-Arrives env "oidc_hybrid_callback" events content _ waited;
      carries = read_callback-state env content r _ h2;
    }

open_authorization_popup-Answered :
    (env : Env) (url : String) (r : Callback) (w : World)
    → (open_authorization_popup env url w).0 ≡ returned r
    → Answered env "oidc_hybrid_callback" r.state
unfolding open_authorization_popup
open_authorization_popup-Answered env url r w h =
    let (n, _, h1, _) = bind-returned _ _ w _ h in
    with_popup-Answered env n url (env.popup n url) r _ refl h1

after_params-Answered :
    (env : Env) (c : HybridConfig) (r : Callback) (w : World)
    → (after_params env c w).0 ≡ returned r
    → Answered env "oidc_hybrid_callback" r.state
unfolding after_params
after_params-Answered env c r w h =
    let (_, _, h1, _) = bind-returned _ _ w _ h in
    let (_, _, h2, _) = bind-returned _ _ _ _ h1 in open_authorization_popup-Answered env _ r _ h2

-- The CSRF state that a run sets, which stays until the callback in a run that nobody resets.
generate_state-sets :
    (env : Env) (w : World)
    → (generate_state env w).1.state.security_params.state ≡ some (csrf_state env w.calls)
unfolding generate_state generate_secure_random set_fresh update_state add_event next_call ◌>>=◌
    publish set_state
generate_state-sets env w = refl

kept_by_pkce :
    {env : Env}
    → NoReset env
    → (c : HybridConfig) (w : World)
    → (when (uses_pkce c) (generate_pkce env) w).1.state.security_params.state
      ≡ w.state.security_params.state
kept_by_pkce calm c w =
    let law = StateGrows-Law calm in
    ((Respects-when law (uses_pkce c) _ (Respects-generate_pkce law)).at w).same_state

generate_security_params-sets :
    (env : Env) (c : HybridConfig) (w : World)
    → NoReset env
    → (generate_security_params env c w).1.state.security_params.state
      ≡ some (csrf_state env w.calls)
unfolding generate_security_params ◌>>=◌
generate_security_params-sets env c w calm =
    (kept_by_pkce calm c (generate_state env w).1) ∙ generate_state-sets env w

authorize-keeps :
    (env : Env) (c : HybridConfig) (w : World) (r : Callback)
    → NoReset env
    → (authorize env c w).0 ≡ returned r
    → ((authorize env c w).1.state.security_params.state ≡ some (csrf_state env w.calls))
      × Answered env "oidc_hybrid_callback" r.state
unfolding authorize
authorize-keeps env c w r calm h =
    let (_, _, h1, e1) = bind-returned (generate_security_params env c) _ w _ h in
    let w1 = (generate_security_params env c w).1 in
    (
      ap (λ (v : World). v.state.security_params.state) e1
          ∙ ((Respects-after_params (StateGrows-Law calm) c).at w1).same_state
          ∙ generate_security_params-sets env c w calm,
      after_params-Answered env c r w1 h1,
    )

-- The state check lets only a matching callback through.
use_callback-state :
    (env : Env) (c : HybridConfig) (r : Callback) (w : World) (expected : String)
    → w.state.security_params.state ≡ some expected
    → (use_callback env c r w).0 ≡ returned tt
    → r.state ≡ str expected
unfolding use_callback get_state ◌>>=◌
use_callback-state env c r w expected set h =
    str_of_same_state r.state expected
      (subst (λ o. same_state r.state o ≡ true) set (if-returned _ (finish env c r) _ w h))

attempt-Answered :
    (env : Env) (c : HybridConfig) (w : World)
    → NoReset env
    → (attempt env c w).0 ≡ returned tt
    → Answered env "oidc_hybrid_callback" (str (csrf_state env w.calls))
unfolding attempt
attempt-Answered env c w calm h =
    let (r, h1, h2, _) = bind-returned (authorize env c) _ w _ h in
    let (kept, answered) = authorize-keeps env c w r calm h1 in
    subst (Answered env "oidc_hybrid_callback")
      (use_callback-state env c r (authorize env c w).1 _ kept h2) answered

four_calls : (n : ℕ) → suc (suc (suc (suc n))) ≡ n + 4
four_calls n = omega arith

after_events :
    (env : Env) (c : HybridConfig) (e e' : EventText) (w : World)
    → NoReset env
    → ((add_event env e >> (add_event env e' >> guarded env (attempt env c))) w).0 ≡ returned tt
    → ((add_event env e >> (add_event env e' >> guarded env (attempt env c))) w).1.state.status
      ≡ completed
    → Answered env "oidc_hybrid_callback" (str (csrf_state env (w.calls + 4)))
unfolding guarded ◌>>=◌ add_event next_call set_state publish
after_events env c e e' w calm h done =
    let w1 = (add_event env e w).1 in
    let w2 = (add_event env e' w1).1 in
    subst (λ n. Answered env "oidc_hybrid_callback" (str (csrf_state env n))) (four_calls w.calls)
      (attempt-Answered env c w2 calm (catch-completed env (attempt env c) w2 h done).0)

perform-Answered :
    (env : Env) (c : HybridConfig) (w : World)
    → NoReset env
    → (perform env c w).0 ≡ returned tt
    → (perform env c w).1.state.status ≡ completed
    → Answered env "oidc_hybrid_callback" (str (csrf_state env (w.calls + 4)))
unfolding perform
perform-Answered env c w calm h done = after_events env c _ _ w calm h done

begun_calls : (env : Env) (w : World) → (begun env first_step w).calls + 4 ≡ w.calls + 5
unfolding set_state
begun_calls env w = omega arith

-- In an environment where nobody resets the executor, a run of the hybrid flow ends
-- completed only if the window that it opened posted a callback from the page's own origin, before
-- it was found closed, whose `state` is the random text that this run generated: the hexadecimal
-- digits of the 16 random bytes of its sixth environment call.
pub hybrid_completed_needs_state :
    (env : Env) (c : HybridConfig) (w : World)
    → NoReset env
    → (execute env c w).0 ≡ returned tt
    → (execute env c w).1.state.status ≡ completed
    → Answered env "oidc_hybrid_callback" (str (csrf_state env (w.calls + 5)))
hybrid_completed_needs_state env c w calm h done =
    subst (λ n. Answered env "oidc_hybrid_callback" (str (csrf_state env n))) (begun_calls env w)
      (perform-Answered env c (begun env first_step w) calm
        (subst (λ (p : Outcome (Unit {0}) × World). p.0 ≡ returned tt) (execute_lem env c w) h)
        (subst (λ (p : Outcome (Unit {0}) × World). p.1.state.status ≡ completed)
          (execute_lem env c w) done))
