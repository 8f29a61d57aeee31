-- ===== src/Flow/Listeners.antt =====
-- What subscribers have seen: the last state that each was called with.
use mathlib.Core.List.{map}
use protocol_lens.Prelude.{
  ℕ, suc, ◌≡◌, refl, true, false, Option, none, some, List, [], ◌∷◌, ◌++◌, arith, ◌==◌,
  if◌then◌else◌, All, ◌⊎◌, inl, inr, Bool-cases, String,
}
use protocol_lens.Flow.State.{FlowState, Status}
use protocol_lens.Flow.Env.{
  Env, UserAction, abort, reset, subscribe, unsubscribe, WindowEvent, message, closed, action,
}
use protocol_lens.Flow.Exec.{
  World, has, publish, set_state, abort_world, reset_world, add_listener, delete_listener,
  subscribe_world, unsubscribe_world, act, act_all, initial_state,
}
use protocol_lens.Flow.Base.{begun, restart}
use protocol_lens.Flow.Respects.{Rel, Law, StateLaw, Fine}

-- The last state that listener `l` was called with.
unfoldable pub last_seen : ℕ → List (ℕ × FlowState) → Option FlowState
last_seen l [] = none
last_seen l ((k, s) ∷ log) = elim (last_seen l log) [
  | none ↦ if k == l then some s else none
  | some t ↦ some t
]

-- Every subscriber was last called with the present state.
abbrev pub InSync : World → Type 0
InSync w = (l : ℕ) → has l w.listeners ≡ true → last_seen l w.delivered ≡ some w.state

last_seen-append :
    (l : ℕ) (log more : List (ℕ × FlowState))
    → last_seen l (log ++ more)
      ≡ elim (last_seen l more) [ none ↦ last_seen l log | some t ↦ some t ]
unfolding last_seen
last_seen-append l [] more = ground arith
last_seen-append l ((k, t) ∷ log) more = ground (arith, last_seen-append l log more)

last_seen-broadcast :
    (l : ℕ) (ls : List ℕ) (s : FlowState)
    → last_seen l (map (λ k. (k, s)) ls) ≡ (if has l ls then some s else none)
unfolding last_seen
last_seen-broadcast l [] s = refl
last_seen-broadcast l (k ∷ ls) s = ground (arith, last_seen-broadcast l ls s)

has-concat : (l k : ℕ) (ls : List ℕ) → has l (ls ++ (k ∷ [])) ≡ true → (k ≡ l) ⊎ (has l ls ≡ true)
has-concat l k [] h = ground arith
has-concat l k (j ∷ ls) h = ground (arith, has-concat l k ls)

-- After a publication every listener has seen the state that is published.
publish-InSync : (w : World) → InSync (publish w)
unfolding publish
publish-InSync w l h = ground (
  arith,
  h,
  last_seen-append l w.delivered (map (λ k. (k, w.state)) w.listeners),
  last_seen-broadcast l w.listeners w.state,
)

has-add_listener :
    (l k : ℕ) (ls : List ℕ) → has l (add_listener k ls) ≡ true → (k ≡ l) ⊎ (has l ls ≡ true)
unfolding add_listener
has-add_listener l k ls h = elim (Bool-cases (has k ls)) [
  | inl old ↦ inr (rw old at h)
  | inr new ↦ has-concat l k ls (rw new at h)
]

has-delete_listener :
    (l k : ℕ) (ls : List ℕ) → has l (delete_listener k ls) ≡ true → has l ls ≡ true
unfolding delete_listener
has-delete_listener l k [] h = h
has-delete_listener l k (j ∷ ls) h = ground (arith, has-delete_listener l k ls)

subscribe-InSync : (k : ℕ) (w : World) → InSync w → InSync (subscribe_world k w)
unfolding subscribe_world last_seen
subscribe-InSync k w h l m = ground (
  arith,
  h l,
  last_seen-append l w.delivered ((k, w.state) ∷ []),
  has-add_listener l k w.listeners m,
)

unsubscribe-InSync : (k : ℕ) (w : World) → InSync w → InSync (unsubscribe_world k w)
unfolding unsubscribe_world
unsubscribe-InSync k w h l m = h l (has-delete_listener l k w.listeners m)

set_state-InSync : (f : FlowState → FlowState) (w : World) → InSync (set_state f w)
unfolding set_state
set_state-InSync f w = publish-InSync (record w { state = f w.state })

abort_world-InSync : (w : World) → InSync (abort_world w)
unfolding abort_world
abort_world-InSync w =
    set_state-InSync (λ s. record s { status = Status.idle })
      (record w { controller = elim w.controller [ none ↦ none | some _ ↦ some true ] })

reset_world-InSync : (env : Env) (w : World) → InSync (reset_world env w)
unfolding reset_world
reset_world-InSync env w = publish-InSync (record (abort_world w) {
  state = initial_state (env.uuid (abort_world w).calls) (some w.flow_type);
  calls = suc (abort_world w).calls;
})

act-InSync : (env : Env) (a : UserAction) (w : World) → InSync w → InSync (act env a w)
unfolding act
act-InSync env abort w h = abort_world-InSync w
act-InSync env reset w h = reset_world-InSync env w
act-InSync env (subscribe k) w h = subscribe-InSync k w h
act-InSync env (unsubscribe k) w h = unsubscribe-InSync k w h

act_all-InSync :
    (env : Env) (as' : List UserAction) (w : World) → InSync w → InSync (act_all env as' w)
unfolding act_all
act_all-InSync env [] w h = h
act_all-InSync env (a ∷ as') w h = act_all-InSync env as' (act env a w) (act-InSync env a w h)

abbrev pub KeepsInSync : Rel
KeepsInSync u v = InSync u → InSync v

Fine-events : (env : Env) (events : List WindowEvent) → All (Fine env KeepsInSync) events
Fine-events env [] = tt
Fine-events env (message origin content ∷ events) = (tt, Fine-events env events)
Fine-events env (closed ∷ events) = (tt, Fine-events env events)
Fine-events env (action a ∷ events) = (act-InSync env a, Fine-events env events)

-- Whatever the environment does, listeners stay in step.
pub KeepsInSync-Law : (env : Env) → Law env KeepsInSync
KeepsInSync-Law env = record {
  same = λ w h. h;
  trans = λ p q h. q (p h);
  update = λ f grows w h. set_state-InSync f w;
  call = λ w h. h;
  waited = λ n w. act_all-InSync env (env.others n) w;
  popup = λ n url events e. Fine-events env events;
}

pub KeepsInSync-StateLaw : StateLaw KeepsInSync
KeepsInSync-StateLaw = record { sets = λ f w h. set_state-InSync _ w }

pub begun-InSync : (env : Env) (step : String) (w : World) → InSync (begun env step w)
begun-InSync env step w =
    set_state-InSync (restart (env.uuid w.calls) w.flow_type step)
      (record w { controller = some false; calls = suc w.calls })
