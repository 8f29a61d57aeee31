-- ===== src/Flow/Watching.antt =====
-- Runs that are only watched: nobody aborts or resets the executor (flows/base.ts).
use protocol_lens.Prelude.{ℕ, ◌≤◌, String, ◌≡◌, refl, ◌∙◌, some, List, [], ◌∷◌, All, arith}
use protocol_lens.Flow.State.{FlowState}
use protocol_lens.Flow.Env.{
  Env, UserAction, abort, reset, subscribe, unsubscribe, WindowEvent, message, closed, action,
}
use protocol_lens.Flow.Exec.{
  World, publish, set_state, subscribe_world, unsubscribe_world, act, act_all,
}
use protocol_lens.Flow.Respects.{Law, Fine}

abbrev pub IsWatching : UserAction → Type 0
IsWatching abort = ⊥
IsWatching reset = ⊥
IsWatching _ = Unit

abbrev pub IsWatchingEvent : WindowEvent → Type 0
IsWatchingEvent (action a) = IsWatching a
IsWatchingEvent _ = Unit

-- Nobody calls `abort` or `reset` while the executor waits.
pub record OnlyWatched (env : Env) : Type 0 where
  pub others : (n : ℕ) → All IsWatching (env.others n)
  pub popup :
      (n : ℕ) (url : String) (events : List WindowEvent)
      → env.popup n url ≡ some events
      → All IsWatchingEvent events

-- The controller is the same, and environment calls are only made, never taken back.
pub record Proceeds (u v : World) : Type 0 where
  pub same_controller : v.controller ≡ u.controller
  pub later : u.calls ≤ v.calls

Proceeds-refl : (w : World) → Proceeds w w
Proceeds-refl w = record { same_controller = refl; later = omega arith }

Proceeds-trans : {u v w : World} → Proceeds u v → Proceeds v w → Proceeds u w
Proceeds-trans p q = record {
  same_controller = q.same_controller ∙ p.same_controller;
  later = let m = p.later in let n = q.later in omega arith;
}

act-Proceeds : (env : Env) (a : UserAction) → IsWatching a → (w : World) → Proceeds w (act env a w)
unfolding act subscribe_world unsubscribe_world
act-Proceeds env abort h w = absurd h
act-Proceeds env reset h w = absurd h
act-Proceeds env (subscribe l) h w = record { same_controller = refl; later = omega arith }
act-Proceeds env (unsubscribe l) h w = record { same_controller = refl; later = omega arith }

act_all-Proceeds :
    (env : Env) (as' : List UserAction)
    → All IsWatching as'
    → (w : World) → Proceeds w (act_all env as' w)
unfolding act_all
act_all-Proceeds env [] h w = Proceeds-refl w
act_all-Proceeds env (a ∷ as') (h, hs) w =
    Proceeds-trans (act-Proceeds env a h w) (act_all-Proceeds env as' hs (act env a w))

Fine-events :
    (env : Env) (events : List WindowEvent)
    → All IsWatchingEvent events
    → All (Fine env Proceeds) events
Fine-events env [] h = tt
Fine-events env (message origin content ∷ events) (_, h) = (tt, Fine-events env events h)
Fine-events env (closed ∷ events) (_, h) = (tt, Fine-events env events h)
Fine-events env (action a ∷ events) (k, h) = (act-Proceeds env a k, Fine-events env events h)

set_state-Proceeds : (f : FlowState → FlowState) (w : World) → Proceeds w (set_state f w)
unfolding set_state publish
set_state-Proceeds f w = record { same_controller = refl; later = omega arith }

pub Proceeds-Law : {env : Env} → OnlyWatched env → Law env Proceeds
Proceeds-Law {env} calm = record {
  same = Proceeds-refl;
  trans = Proceeds-trans;
  update = λ f grows w. set_state-Proceeds f w;
  call = λ w. record { same_controller = refl; later = omega arith };
  waited = λ n w. act_all-Proceeds env (env.others n) (calm.others n) w;
  popup = λ n url events e. Fine-events env events (calm.popup n url events e);
}
