-- ===== src/Flows/AuthorizationCode/Csrf.antt =====
-- CSRF protection of the authorization code flow.
use protocol_lens.Prelude.{
  ℕ, suc, ◌+◌, String, true, Option, none, some, List, ◌≡◌, refl, subst, ◌∙◌, ap, ◌≢◌, arith,
  Bool-cases, inl, inr, if◌then◌else◌,
}
use protocol_lens.Js.Value.{Value, str, get_prop, truthy}
use protocol_lens.Flow.State.{EventText, completed}
use protocol_lens.Flow.Env.{Env, WindowEvent}
use protocol_lens.Flow.Exec.{
  World, Outcome, returned, pure, throw, ◌>>=◌, ◌>>◌, get_state, next_call, set_state, publish,
  set_csrf_state,
}
use protocol_lens.Flow.Base.{begun, add_event}
use protocol_lens.Flow.Random.{generate_secure_random}
use protocol_lens.Flow.Popup.{same_state}
use protocol_lens.Flow.Timeline.{NoReset, StateGrows-Law}
use protocol_lens.Flow.Inversion.{
  bind-returned, if-returned, or_throw-returned, await_callback-Arrives, str_of_same_state,
  catch-completed,
}
use protocol_lens.Flows.Grant.{guarded}
use protocol_lens.Flows.Answer.{csrf_state, Answered}
use protocol_lens.Flows.AuthorizationCode.Authorize.{
  CodeConfig, generate_state, generate_security_params, deny, read_callback, with_popup,
  open_authorization_popup,
}
use protocol_lens.Flows.AuthorizationCode.{
  use_callback, receive_code, after_params, authorize, attempt, perform, execute, execute_lem,
  first_step,
}
use protocol_lens.Flows.AuthorizationCode.Steps.{Respects-more_params, Respects-after_params}

deny-not_returned :
    (env : Env) (code description : Value) (w : World) (r : Value × Value)
    → (deny env code description w).0 ≢ returned r
unfolding deny ◌>>=◌ add_event
deny-not_returned env code description w r h = ground arith

same_pair :
    {code state : Value} {r : Value × Value} → returned (code, state) ≡ returned r → state ≡ r.1
same_pair h = cc

checked :
    (env : Env) (v code description state : Value) (w : World) (r : Value × Value)
    → ((if truthy v then deny env v description else pure (code, state)) w).0 ≡ returned r
    → state ≡ r.1
unfolding pure
checked env v code description state w r h = elim (Bool-cases (truthy v)) [
  | inl denied ↦ absurd (deny-not_returned env v description w r (rw denied at h))
  | inr fine ↦ same_pair (rw fine at h)
]

read_callback-state :
    (env : Env) (content code state : Value) (w : World)
    → (read_callback env content w).0 ≡ returned (code, state)
    → get_prop content "state" ≡ some state
unfolding read_callback
read_callback-state env content code state w h =
    let (v1, e1, h1, _) = bind-returned _ _ w _ h in
    let (v2, e2, h2, _) = bind-returned _ _ _ _ h1 in
    let (v3, e3, h3, _) = bind-returned _ _ _ _ h2 in
    let (v4, e4, h4, _) = bind-returned _ _ _ _ h3 in
    or_throw-returned _ _ _ _ e2 ∙ ap some (checked env v3 v1 v4 v2 _ _ h4)

with_popup-Answered :
    (env : Env) (call : ℕ) (url : String) (o : Option (List WindowEvent)) (code state : Value)
    (w : World)
    → env.popup call url ≡ o
    → (with_popup env url o w).0 ≡ returned (code, state)
    → Answered env "oauth_callback" state
unfolding with_popup throw
with_popup-Answered env call url none code state w opened h = absurd (ground arith)
with_popup-Answered env call url (some events) code state w opened h =
    let (_, _, h1, _) = bind-returned _ _ w _ h in
    let (content, waited, h2, _) = bind-returned _ _ _ _ h1 in
    record {
      call = call;
      url = url;
      events = events;
      opened = opened;
      content = content;
      arrives = await_callback-Arrives env "oauth_callback" events content _ waited;
      carries = read_callback-state env content code state _ h2;
    }

open_authorization_popup-Answered :
    (env : Env) (url : String) (code state : Value) (w : World)
    → (open_authorization_popup env url w).0 ≡ returned (code, state)
    → Answered env "oauth_callback" state
unfolding open_authorization_popup
open_authorization_popup-Answered env url code state w h =
    let (n, _, h1, _) = bind-returned _ _ w _ h in
    with_popup-Answered env n url (env.popup n url) code state _ refl h1

after_params-Answered :
    (env : Env) (c : CodeConfig) (code state : Value) (w : World)
    → (after_params env c w).0 ≡ returned (code, state)
    → Answered env "oauth_callback" state
unfolding after_params
after_params-Answered env c code state w h =
    let (_, _, h1, _) = bind-returned _ _ w _ h in
    let (_, _, h2, _) = bind-returned _ _ _ _ h1 in
    let (_, _, h3, _) = bind-returned _ _ _ _ h2 in
    open_authorization_popup-Answered env _ code state _ h3

-- The CSRF state that a run sets, which stays until the callback in a run that nobody resets.
generate_state-sets :
    (env : Env) (w : World)
    → (generate_state env w).1.state.security_params.state ≡ some (csrf_state env w.calls)
unfolding generate_state generate_secure_random set_csrf_state add_event next_call ◌>>=◌ publish
    set_state
generate_state-sets env w = refl

generate_security_params-sets :
    (env : Env) (c : CodeConfig) (w : World)
    → NoReset env
    → (generate_security_params env c w).1.state.security_params.state
      ≡ some (csrf_state env w.calls)
unfolding generate_security_params ◌>>=◌
generate_security_params-sets env c w calm =
    ((Respects-more_params (StateGrows-Law calm) c).at (generate_state env w).1).same_state
    ∙ generate_state-sets env w

authorize-keeps :
    (env : Env) (c : CodeConfig) (w : World) (code state : Value)
    → NoReset env
    → (authorize env c w).0 ≡ returned (code, state)
    → ((authorize env c w).1.state.security_params.state ≡ some (csrf_state env w.calls))
      × Answered env "oauth_callback" state
unfolding authorize
authorize-keeps env c w code state calm h =
    let (_, _, h1, e1) = bind-returned (generate_security_params env c) _ w _ h in
    let w1 = (generate_security_params env c w).1 in
    (
      ap (λ (v : World). v.state.security_params.state) e1
          ∙ ((Respects-after_params (StateGrows-Law calm) c).at w1).same_state
          ∙ generate_security_params-sets env c w calm,
      after_params-Answered env c code state w1 h1,
    )

-- The state check lets only a matching callback through.
use_callback-state :
    (env : Env) (c : CodeConfig) (code state : Value) (w : World) (expected : String)
    → w.state.security_params.state ≡ some expected
    → (use_callback env c code state w).0 ≡ returned tt
    → state ≡ str expected
unfolding use_callback get_state ◌>>=◌
use_callback-state env c code state w expected set h = str_of_same_state state expected (
    subst (λ o. same_state state o ≡ true) set
      (if-returned _ (receive_code env c code state) _ w h))

attempt-Answered :
    (env : Env) (c : CodeConfig) (w : World)
    → NoReset env
    → (attempt env c w).0 ≡ returned tt
    → Answered env "oauth_callback" (str (csrf_state env w.calls))
unfolding attempt
attempt-Answered env c w calm h =
    let ((code, state), h1, h2, _) = bind-returned (authorize env c) _ w _ h in
    let (kept, answered) = authorize-keeps env c w code state calm h1 in
    subst (Answered env "oauth_callback")
      (use_callback-state env c code state (authorize env c w).1 _ kept h2) answered

after_event :
    (env : Env) (c : CodeConfig) (e : EventText) (w : World)
    → NoReset env
    → ((add_event env e >> guarded env (attempt env c)) w).0 ≡ returned tt
    → ((add_event env e >> guarded env (attempt env c)) w).1.state.status ≡ completed
    → Answered env "oauth_callback" (str (csrf_state env (suc (suc w.calls))))
unfolding guarded ◌>>=◌ add_event next_call set_state publish
after_event env c e w calm h done =
    attempt-Answered env c (add_event env e w).1 calm
      (catch-completed env (attempt env c) (add_event env e w).1 h done).0

perform-Answered :
    (env : Env) (c : CodeConfig) (w : World)
    → NoReset env
    → (perform env c w).0 ≡ returned tt
    → (perform env c w).1.state.status ≡ completed
    → Answered env "oauth_callback" (str (csrf_state env (suc (suc w.calls))))
unfolding perform
perform-Answered env c w calm h done = after_event env c _ w calm h done

begun_calls : (env : Env) (w : World) → suc (suc (begun env first_step w).calls) ≡ w.calls + 3
unfolding set_state
begun_calls env w = omega arith

-- In an environment where nobody resets the executor, a run of the authorization code flow ends
-- completed only if the window that it opened posted a callback from the page's own origin, before
-- it was found closed, whose `state` is the random text that this run generated: the hexadecimal
-- digits of the 16 random bytes of its fourth environment call.
pub completed_needs_state :
    (env : Env) (c : CodeConfig) (w : World)
    → NoReset env
    → (execute env c w).0 ≡ returned tt
    → (execute env c w).1.state.status ≡ completed
    → Answered env "oauth_callback" (str (csrf_state env (w.calls + 3)))
completed_needs_state env c w calm h done =
    subst (λ n. Answered env "oauth_callback" (str (csrf_state env n))) (begun_calls env w)
      (perform-Answered env c (begun env first_step w) calm
        (subst (λ (p : Outcome (Unit {0}) × World). p.0 ≡ returned tt) (execute_lem env c w) h)
        (subst (λ (p : Outcome (Unit {0}) × World). p.1.state.status ≡ completed)
          (execute_lem env c w) done))
