-- ===== src/Flow/Outcome.antt =====
-- How methods end: which can stay pending, and what a normal return of a flow means.
use protocol_lens.Prelude.{
  ℕ, String, refl, ◌≢◌, Bool, true, false, Option, none, some, if◌then◌else◌, arith,
}
use protocol_lens.Js.Value.{Value}
use protocol_lens.Js.Params.{Params}
use protocol_lens.Flow.State.{FlowState, EventText, HttpRequest, Body, TokenType}
use protocol_lens.Flow.Env.{
  Env, SentRequest, RawResponse, FetchResult, unanswered, failed, responded,
}
use protocol_lens.Flow.Exec.{
  Exec, World, Outcome, returned, thrown, pending, pure, throw, continue, handle, ◌>>=◌, catch,
  or_throw, when, get_state, next_call, update_state, wait, is_aborted,
}
use protocol_lens.Flow.Base.{
  uuid, clock, add_event, add_exchange, settle, fetch, read_body, make_request, throw_response,
}
use protocol_lens.Flow.Tokens.{
  decode, receive_access, receive_id, receive_refresh, process_token_response,
}

-- `m` never stays pending.
pub record Settles {ℓ} {A : Type ℓ} (m : Exec A) : Type ℓ where
  pub at : (w : World) → (m w).0 ≢ pending

module _ {ℓ} {A : Type ℓ} where
  pub Settles-pure : (a : A) → Settles (pure a)
  unfolding pure
  Settles-pure a = record { at = λ w h. ground arith }

  pub Settles-throw : (e : String) → Settles (throw {A = A} e)
  unfolding throw
  Settles-throw e = record { at = λ w h. ground arith }

  pub Settles-or_throw : (e : String) (o : Option A) → Settles (or_throw e o)
  unfolding or_throw
  Settles-or_throw e none = Settles-throw e
  Settles-or_throw e (some a) = Settles-pure a

  pub Settles-if : (b : Bool) (m n : Exec A) → Settles m → Settles n → Settles (if b then m else n)
  Settles-if true m n hm hn = hm
  Settles-if false m n hm hn = hn

module _ {ℓ κ} {A : Type ℓ} {B : Type κ} where
  continued :
      (o : Outcome A) (f : A → Exec B)
      → ((a : A) → Settles (f a))
      → o ≢ pending
      → (w : World) → (continue o f w).0 ≢ pending
  continued (returned a) f hf h w = (hf a).at w
  continued (thrown e) f hf h w = ground arith
  continued pending f hf h w = absurd (h refl)

  pub Settles-bind :
      (m : Exec A) (f : A → Exec B) → Settles m → ((a : A) → Settles (f a)) → Settles (m >>= f)
  unfolding ◌>>=◌
  Settles-bind m f hm hf = record { at = λ w. let (o, w') = m w in continued o f hf (hm.at w) w' }

module _ {ℓ} {A : Type ℓ} where
  handled :
      (o : Outcome A) (h : String → Exec A)
      → ((e : String) → Settles (h e))
      → o ≢ pending
      → (w : World) → (handle o h w).0 ≢ pending
  handled (returned a) h hh p w = λ e. ground arith
  handled (thrown e) h hh p w = (hh e).at w
  handled pending h hh p w = absurd (p refl)

  pub Settles-catch :
      (m : Exec A) (h : String → Exec A)
      → Settles m
      → ((e : String) → Settles (h e))
      → Settles (catch m h)
  unfolding catch
  Settles-catch m h hm hh = record { at = λ w. let (o, w') = m w in handled o h hh (hm.at w) w' }

pub Settles-when : (b : Bool) (m : Exec (Unit {0})) → Settles m → Settles (when b m)
unfolding when
Settles-when true m h = h
Settles-when false m h = Settles-pure tt

pub Settles-get_state : Settles get_state
unfolding get_state
Settles-get_state = record { at = λ w h. ground arith }

pub Settles-next_call : Settles next_call
unfolding next_call
Settles-next_call = record { at = λ w h. ground arith }

pub Settles-is_aborted : Settles is_aborted
unfolding is_aborted
Settles-is_aborted = record { at = λ w h. ground arith }

pub Settles-update_state : (f : FlowState → FlowState) → Settles (update_state f)
unfolding update_state
Settles-update_state f = record { at = λ w h. ground arith }

pub Settles-wait : (env : Env) → Settles (wait env)
unfolding wait
Settles-wait env = record { at = λ w h. ground arith }

pub ruleset settles_rules = (
  Settles-pure, Settles-throw, Settles-or_throw, Settles-if, Settles-bind, Settles-when,
  Settles-get_state, Settles-next_call, Settles-is_aborted, Settles-update_state, Settles-wait,
)

-- Every request is answered or fails.
pub record Answers (env : Env) : Type 0 where
  pub answered : (n : ℕ) (request : SentRequest) → env.fetch n request ≢ unanswered

module _ (env : Env) where
  pub Settles-add_event : (e : EventText) → Settles (add_event env e)
  unfolding add_event uuid clock
  Settles-add_event e = search settles_rules depth 9

  Settles-add_exchange :
      (step : String) (reference : Option String) (request : HttpRequest)
      → Settles (add_exchange env step reference request)
  unfolding add_exchange uuid clock
  Settles-add_exchange step reference request = search settles_rules depth 9

  pub Settles-clock : Settles (clock env)
  unfolding clock
  Settles-clock = search settles_rules

  Settles-settle : (r : FetchResult) → r ≢ unanswered → Settles (settle r)
  Settles-settle unanswered h = absurd (h refl)
  Settles-settle (failed e) h = Settles-throw e
  Settles-settle (responded r) h = Settles-pure r

  Settles-fetch : Answers env → (request : SentRequest) → Settles (fetch env request)
  unfolding fetch
  Settles-fetch answers request = search (settles_rules, Settles-settle, answers.answered) depth 9

  Settles-read_body : (r : RawResponse) → Settles (read_body env r)
  unfolding read_body
  Settles-read_body r = search settles_rules depth 9

  pub Settles-make_request :
      Answers env
      → (method url : String) (headers : Params) (body : Option Body) (step : String)
        (reference : Option String)
      → Settles (make_request env method url headers body step reference)
  unfolding make_request
  Settles-make_request answers method url headers body step reference =
      search
        (
          settles_rules, Settles-add_event, Settles-add_exchange, Settles-clock, Settles-fetch,
          Settles-read_body,
        )
        depth 14 fits 60000

  pub Settles-throw_response {ℓ} :
      {A : Type ℓ} (content : Value) (fallback : String)
      → Settles (throw_response {A = A} env content fallback)
  unfolding throw_response
  Settles-throw_response content fallback = search settles_rules depth 7

  Settles-decode : (token : String) (type : TokenType) → Settles (decode env token type)
  unfolding decode
  Settles-decode token type = search (settles_rules, Settles-clock)

  Settles-receive_access : (o : Option String) → Settles (receive_access env o)
  unfolding receive_access
  Settles-receive_access none = search settles_rules
  Settles-receive_access (some token) = search (settles_rules, Settles-decode, Settles-add_event)

  Settles-receive_id : (o : Option String) → Settles (receive_id env o)
  unfolding receive_id
  Settles-receive_id none = search settles_rules
  Settles-receive_id (some token) = search (settles_rules, Settles-decode, Settles-add_event)

  Settles-receive_refresh : (o : Option String) → Settles (receive_refresh env o)
  unfolding receive_refresh
  Settles-receive_refresh none = search settles_rules
  Settles-receive_refresh (some token) = search (settles_rules, Settles-decode, Settles-add_event)

  pub Settles-process_token_response :
      (response : Value) → Settles (process_token_response env response)
  unfolding process_token_response
  Settles-process_token_response response =
      search (settles_rules, Settles-receive_access, Settles-receive_id, Settles-receive_refresh)
        depth 14 fits 60000

pub ruleset settles_steps = (
  settles_rules, Settles-add_event, Settles-make_request, Settles-throw_response,
  Settles-process_token_response,
)
