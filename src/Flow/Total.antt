-- ===== src/Flow/Total.antt =====
-- Methods that always return (flows/base.ts).
use protocol_lens.Prelude.{String, ◌≡◌, refl, Bool, true, false, Option, none, some, if◌then◌else◌}
use protocol_lens.Js.Value.{Value, undefined, null, bool, num, negsuc, str, obj, arr, get_prop}
use protocol_lens.Flow.State.{EventText, TokenType, FlowState}
use protocol_lens.Flow.Env.{Env}
use protocol_lens.Flow.Exec.{
  Exec, World, Outcome, returned, thrown, pending, pure, handle, continue, ◌>>=◌, catch, or_throw,
  get_state, next_call, update_state, wait,
}
use protocol_lens.Flow.Base.{uuid, clock, add_event}
use protocol_lens.Flow.Tokens.{
  decode, receive_access, receive_id, receive_refresh, process_token_response,
}
use protocol_lens.Flow.Yields.{HasProps}

abbrev pub IsReturned {ℓ} : {A : Type ℓ} → Outcome A → Type 0
IsReturned (returned a) = Unit
IsReturned (thrown e) = ⊥
IsReturned pending = ⊥

pub record Returns {ℓ} {A : Type ℓ} (m : Exec A) : Type ℓ where
  pub at : (w : World) → IsReturned (m w).0

module _ {ℓ} {A : Type ℓ} where
  pub Returns-pure : (a : A) → Returns (pure a)
  unfolding pure
  Returns-pure a = record { at = λ w. tt }

  pub Returns-if : (b : Bool) (m n : Exec A) → Returns m → Returns n → Returns (if b then m else n)
  Returns-if true m n hm hn = hm
  Returns-if false m n hm hn = hn

  handled : (o : Outcome A) (h : String → Exec A) (w : World) → IsReturned o → handle o h w ≡ (o, w)
  handled (returned a) h w r = refl
  handled (thrown e) h w r = absurd r
  handled pending h w r = absurd r

  -- No exception, nothing to catch.
  pub catch-Returns : (m : Exec A) (h : String → Exec A) (w : World) → Returns m → catch m h w ≡ m w
  unfolding catch
  catch-Returns m h w r = let (o, w') = m w in handled o h w' (r.at w)

module _ {ℓ κ} {A : Type ℓ} {B : Type κ} where
  continued :
      (o : Outcome A) (f : A → Exec B)
      → IsReturned o
      → ((a : A) → Returns (f a))
      → (w : World) → IsReturned (continue o f w).0
  continued (returned a) f r h w = (h a).at w
  continued (thrown e) f r h w = absurd r
  continued pending f r h w = absurd r

  pub Returns-bind :
      (m : Exec A) (f : A → Exec B) → Returns m → ((a : A) → Returns (f a)) → Returns (m >>= f)
  unfolding ◌>>=◌
  Returns-bind m f hm h = record { at = λ w. let (o, w') = m w in continued o f (hm.at w) h w' }

pub Returns-get_state : Returns get_state
unfolding get_state
Returns-get_state = record { at = λ w. tt }

pub Returns-next_call : Returns next_call
unfolding next_call
Returns-next_call = record { at = λ w. tt }

pub Returns-wait : (env : Env) → Returns (wait env)
unfolding wait
Returns-wait env = record { at = λ w. tt }

pub Returns-update_state : (f : FlowState → FlowState) → Returns (update_state f)
unfolding update_state
Returns-update_state f = record { at = λ w. tt }

pub Returns-get_prop : (e k : String) (v : Value) → HasProps v → Returns (or_throw e (get_prop v k))
unfolding or_throw get_prop pure
Returns-get_prop e k undefined h = absurd h
Returns-get_prop e k null h = absurd h
Returns-get_prop e k (bool b) h = record { at = λ w. tt }
Returns-get_prop e k (num n) h = record { at = λ w. tt }
Returns-get_prop e k (negsuc n) h = record { at = λ w. tt }
Returns-get_prop e k (str s) h = record { at = λ w. tt }
Returns-get_prop e k (obj fs) h = record { at = λ w. tt }
Returns-get_prop e k (arr vs) h = record { at = λ w. tt }

pub ruleset returns_rules = (
  Returns-pure, Returns-if, Returns-bind, Returns-get_state, Returns-next_call,
  Returns-update_state, Returns-wait,
)

module _ (env : Env) where
  Returns-clock : Returns (clock env)
  unfolding clock
  Returns-clock = search returns_rules

  pub Returns-add_event : (e : EventText) → Returns (add_event env e)
  unfolding add_event uuid
  Returns-add_event e = search (returns_rules, Returns-clock) depth 9

  pub Returns-decode : (token : String) (type : TokenType) → Returns (decode env token type)
  unfolding decode
  Returns-decode token type = search (returns_rules, Returns-clock)

  Returns-receive_access : (o : Option String) → Returns (receive_access env o)
  unfolding receive_access
  Returns-receive_access none = search returns_rules
  Returns-receive_access (some token) = search (returns_rules, Returns-decode, Returns-add_event)

  Returns-receive_id : (o : Option String) → Returns (receive_id env o)
  unfolding receive_id
  Returns-receive_id none = search returns_rules
  Returns-receive_id (some token) = search (returns_rules, Returns-decode, Returns-add_event)

  Returns-receive_refresh : (o : Option String) → Returns (receive_refresh env o)
  unfolding receive_refresh
  Returns-receive_refresh none = search returns_rules
  Returns-receive_refresh (some token) = search (returns_rules, Returns-decode, Returns-add_event)

  pub Returns-process_token_response :
      (response : Value) → HasProps response → Returns (process_token_response env response)
  unfolding process_token_response
  Returns-process_token_response response h =
      search
        (
          returns_rules, Returns-get_prop, Returns-receive_access, Returns-receive_id,
          Returns-receive_refresh,
        )
        depth 14 fits 60000
