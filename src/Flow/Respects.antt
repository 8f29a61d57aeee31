-- ===== src/Flow/Respects.antt =====
-- Relations between the world before a method and the world after it, however it ends. `Law` is
-- what a relation has to satisfy, `Respects` that a method stays in it (flows/base.ts).
use protocol_lens.Prelude.{
  ℕ, suc, String, ◌≡◌, refl, sym, ◌∙◌, append-nil, All, Bool, true, false, Option, none, some, List,
  [], ◌∷◌, ◌++◌, if◌then◌else◌,
}
use protocol_lens.Flow.State.{FlowState, Event, FlowError, Status, SecurityParams}
use protocol_lens.Flow.Env.{Env, WindowEvent, action}
use protocol_lens.Flow.Exec.{
  Exec, World, Outcome, returned, thrown, pending, pure, throw, never, continue, ◌>>=◌, catch,
  handle, or_throw, when, get_state, next_call, set_state, update_state, set_csrf_state, wait,
  is_aborted, act, act_all,
}

abbrev pub Rel : Type 1
Rel = World → World → Type 0

-- A state change that a running flow may make: the run keeps its name and its CSRF state, its
-- timeline only grows, and an error is never taken back.
pub record Grows (s t : FlowState) : Type 0 where
  pub same_id : t.execution_id ≡ s.execution_id
  pub same_flow : t.flow_type ≡ s.flow_type
  pub same_state : t.security_params.state ≡ s.security_params.state
  pub later : List Event
  pub events : t.events ≡ s.events ++ later
  pub error_kept : (e : FlowError) → s.error ≡ some e → (d : FlowError) × (t.error ≡ some d)

abbrev pub Fine : Env → Rel → WindowEvent → Type 0
Fine env R (action a) = (w : World) → R w (act env a w)
Fine env R _ = Unit

-- The steps that the environment takes, and the state changes of a running flow, are in `R`.
pub record Law (env : Env) (R : Rel) : Type 0 where
  pub same : (w : World) → R w w
  pub trans : {u v w : World} → R u v → R v w → R u w
  pub update :
      (f : FlowState → FlowState)
      → ((s : FlowState) → Grows s (f s))
      → (w : World) → R w (set_state f w)
  pub call : (w : World) → R w (record w { calls = suc w.calls })
  pub waited : (n : ℕ) (w : World) → R w (act_all env (env.others n) w)
  pub popup :
      (n : ℕ) (url : String) (events : List WindowEvent)
      → env.popup n url ≡ some events
      → All (Fine env R) events

-- The changes that set the CSRF state, with the other parameters.
pub record StateLaw (R : Rel) : Type 0 where
  pub sets :
      (f : SecurityParams → SecurityParams) (w : World)
      → R w (set_state (λ s. record s { security_params = f s.security_params }) w)

pub record Respects {ℓ} {A : Type ℓ} (R : Rel) (m : Exec A) : Type ℓ where
  pub at : (w : World) → R w (m w).1

module _ {env : Env} {R : Rel} (law : Law env R) where
  module _ {ℓ} {A : Type ℓ} where
    pub Respects-pure : (a : A) → Respects R (pure a)
    unfolding pure
    Respects-pure a = record { at = law.same }

    pub Respects-throw : (message : String) → Respects R (throw {A = A} message)
    unfolding throw
    Respects-throw message = record { at = law.same }

    pub Respects-never : Respects R (never {A = A})
    unfolding never
    Respects-never = record { at = law.same }

    pub Respects-or_throw : (message : String) (o : Option A) → Respects R (or_throw message o)
    unfolding or_throw
    Respects-or_throw message none = Respects-throw message
    Respects-or_throw message (some a) = Respects-pure a

    pub Respects-if :
        (b : Bool) (m n : Exec A) → Respects R m → Respects R n → Respects R (if b then m else n)
    Respects-if true m n hm hn = hm
    Respects-if false m n hm hn = hn

    handled :
        (o : Outcome A) (h : String → Exec A)
        → ((e : String) → Respects R (h e))
        → (w : World) → R w (handle o h w).1
    handled (returned a) h hh w = law.same w
    handled (thrown e) h hh w = (hh e).at w
    handled pending h hh w = law.same w

    pub Respects-catch :
        (m : Exec A) (h : String → Exec A)
        → Respects R m
        → ((e : String) → Respects R (h e))
        → Respects R (catch m h)
    unfolding catch
    Respects-catch m h hm hh = record {
      at = λ w. let (o, w') = m w in law.trans (hm.at w) (handled o h hh w');
    }

  module _ {ℓ κ} {A : Type ℓ} {B : Type κ} where
    continued :
        (o : Outcome A) (f : A → Exec B)
        → ((a : A) → Respects R (f a))
        → (w : World) → R w (continue o f w).1
    continued (returned a) f hf w = (hf a).at w
    continued (thrown e) f hf w = law.same w
    continued pending f hf w = law.same w

    pub Respects-bind :
        (m : Exec A) (f : A → Exec B)
        → Respects R m
        → ((a : A) → Respects R (f a))
        → Respects R (m >>= f)
    unfolding ◌>>=◌
    Respects-bind m f hm hf = record {
      at = λ w. let (o, w') = m w in law.trans (hm.at w) (continued o f hf w');
    }

  pub Respects-when : (b : Bool) (m : Exec (Unit {0})) → Respects R m → Respects R (when b m)
  unfolding when
  Respects-when true m h = h
  Respects-when false m h = Respects-pure tt

  pub Respects-get_state : Respects R get_state
  unfolding get_state
  Respects-get_state = record { at = law.same }

  pub Respects-is_aborted : Respects R is_aborted
  unfolding is_aborted
  Respects-is_aborted = record { at = law.same }

  pub Respects-next_call : Respects R next_call
  unfolding next_call
  Respects-next_call = record { at = law.call }

  pub Respects-update_state :
      (f : FlowState → FlowState) → ((s : FlowState) → Grows s (f s)) → Respects R (update_state f)
  unfolding update_state
  Respects-update_state f grows = record { at = law.update f grows }

  pub Respects-wait : Respects R (wait env)
  unfolding wait
  Respects-wait = record { at = λ w. law.trans (law.call w) (law.waited w.calls _) }

pub Respects-set_csrf_state : {R : Rel} → StateLaw R → (v : String) → Respects R (set_csrf_state v)
unfolding set_csrf_state
Respects-set_csrf_state sets v = record { at = sets.sets (λ p. record p { state = some v }) }

pub Respects-set_params :
    {R : Rel}
    → StateLaw R
    → (f : SecurityParams → SecurityParams)
    → Respects R (update_state (λ s. record s { security_params = f s.security_params }))
unfolding update_state
Respects-set_params sets f = record { at = sets.sets f }

-- Changes that leave the timeline and the error alone, or add an event, or set an error.
pub Grows-same :
    (s t : FlowState)
    → t.execution_id ≡ s.execution_id
    → t.flow_type ≡ s.flow_type
    → t.security_params.state ≡ s.security_params.state
    → t.events ≡ s.events
    → t.error ≡ s.error
    → Grows s t
Grows-same s t id flow state events error = record {
  same_id = id;
  same_flow = flow;
  same_state = state;
  later = [];
  events = events ∙ sym (append-nil s.events);
  error_kept = λ e h. (e, error ∙ h);
}

pub Grows-event : (s : FlowState) (e : Event) → Grows s (record s { events = s.events ++ (e ∷ []) })
Grows-event s e = record {
  same_id = refl;
  same_flow = refl;
  same_state = refl;
  later = e ∷ [];
  events = refl;
  error_kept = λ d h. (d, h);
}

pub Grows-error :
    (s : FlowState) (status : Status) (step : String) (d : FlowError)
    → Grows s (record s { status = status; current_step = step; error = some d })
Grows-error s status step d = record {
  same_id = refl;
  same_flow = refl;
  same_state = refl;
  later = [];
  events = sym (append-nil s.events);
  error_kept = λ e h. (d, refl);
}

pub ruleset respects_rules = (
  Respects-pure, Respects-throw, Respects-never, Respects-or_throw, Respects-if, Respects-catch,
  Respects-bind, Respects-when, Respects-get_state, Respects-is_aborted, Respects-next_call,
  Respects-wait,
)
