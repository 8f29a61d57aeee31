-- ===== src/Flow/Timeline.antt =====
-- Runs that nobody resets, and what the state at the end of one has to do with that at its start
-- (`FlowExecutorBase` of flows/base.ts).
use protocol_lens.Prelude.{
  ℕ, String, ◌≡◌, refl, sym, ap, ◌∙◌, some, List, [], ◌∷◌, ◌++◌, append-nil, append_assoc, All,
}
use protocol_lens.Flow.State.{FlowState, Event, FlowError}
use protocol_lens.Flow.Env.{
  Env, UserAction, abort, reset, subscribe, unsubscribe, WindowEvent, message, closed, action,
}
use protocol_lens.Flow.Exec.{
  World, publish, set_state, abort_world, subscribe_world, unsubscribe_world, act, act_all,
}
use protocol_lens.Flow.Respects.{Rel, Law, StateLaw, Grows, Grows-same, Fine}

abbrev pub IsHarmless : UserAction → Type 0
IsHarmless reset = ⊥
IsHarmless _ = Unit

abbrev pub IsHarmlessEvent : WindowEvent → Type 0
IsHarmlessEvent (action a) = IsHarmless a
IsHarmlessEvent _ = Unit

-- Nobody calls `reset` while the executor waits.
pub record NoReset (env : Env) : Type 0 where
  pub others : (n : ℕ) → All IsHarmless (env.others n)
  pub popup :
      (n : ℕ) (url : String) (events : List WindowEvent)
      → env.popup n url ≡ some events
      → All IsHarmlessEvent events

pub Grows-refl : (s : FlowState) → Grows s s
Grows-refl s = Grows-same s s refl refl refl refl refl

pub Grows-trans : {s t u : FlowState} → Grows s t → Grows t u → Grows s u
Grows-trans {s} {t} {u} p q = record {
  same_id = q.same_id ∙ p.same_id;
  same_flow = q.same_flow ∙ p.same_flow;
  same_state = q.same_state ∙ p.same_state;
  later = p.later ++ q.later;
  events = q.events ∙ ap (λ es. es ++ q.later) p.events ∙ append_assoc s.events p.later q.later;
  error_kept = λ e h. let (d, g) = p.error_kept e h in q.error_kept d g;
}

abbrev pub StateGrows : Rel
StateGrows u v = Grows u.state v.state

set_state-Grows :
    (f : FlowState → FlowState)
    → ((s : FlowState) → Grows s (f s))
    → (w : World) → StateGrows w (set_state f w)
unfolding set_state publish
set_state-Grows f grows w = grows w.state

act-Grows : (env : Env) (a : UserAction) → IsHarmless a → (w : World) → StateGrows w (act env a w)
unfolding act abort_world subscribe_world unsubscribe_world set_state publish
act-Grows env abort h w = Grows-same w.state _ refl refl refl refl refl
act-Grows env reset h w = absurd h
act-Grows env (subscribe l) h w = Grows-refl w.state
act-Grows env (unsubscribe l) h w = Grows-refl w.state

act_all-Grows :
    (env : Env) (as' : List UserAction)
    → All IsHarmless as'
    → (w : World) → StateGrows w (act_all env as' w)
unfolding act_all
act_all-Grows env [] h w = Grows-refl w.state
act_all-Grows env (a ∷ as') (h, hs) w =
    Grows-trans (act-Grows env a h w) (act_all-Grows env as' hs (act env a w))

Fine-events :
    (env : Env) (events : List WindowEvent)
    → All IsHarmlessEvent events
    → All (Fine env StateGrows) events
Fine-events env [] h = tt
Fine-events env (message origin content ∷ events) (_, h) = (tt, Fine-events env events h)
Fine-events env (closed ∷ events) (_, h) = (tt, Fine-events env events h)
Fine-events env (action a ∷ events) (k, h) = (act-Grows env a k, Fine-events env events h)

pub StateGrows-Law : {env : Env} → NoReset env → Law env StateGrows
StateGrows-Law {env} calm = record {
  same = λ w. Grows-refl w.state;
  trans = Grows-trans;
  update = set_state-Grows;
  call = λ w. Grows-refl w.state;
  waited = λ n w. act_all-Grows env (env.others n) (calm.others n) w;
  popup = λ n url events e. Fine-events env events (calm.popup n url events e);
}

-- `Grows` without the CSRF state, which a flow sets once.
pub record Continues (s t : FlowState) : Type 0 where
  pub same_id : t.execution_id ≡ s.execution_id
  pub same_flow : t.flow_type ≡ s.flow_type
  pub later : List Event
  pub events : t.events ≡ s.events ++ later
  pub error_kept : (e : FlowError) → s.error ≡ some e → (d : FlowError) × (t.error ≡ some d)

pub Continues-Grows : {s t : FlowState} → Grows s t → Continues s t
Continues-Grows g = record {
  same_id = g.same_id;
  same_flow = g.same_flow;
  later = g.later;
  events = g.events;
  error_kept = g.error_kept;
}

pub Continues-trans : {s t u : FlowState} → Continues s t → Continues t u → Continues s u
Continues-trans {s} {t} {u} p q = record {
  same_id = q.same_id ∙ p.same_id;
  same_flow = q.same_flow ∙ p.same_flow;
  later = p.later ++ q.later;
  events = q.events ∙ ap (λ es. es ++ q.later) p.events ∙ append_assoc s.events p.later q.later;
  error_kept = λ e h. let (d, g) = p.error_kept e h in q.error_kept d g;
}

abbrev pub StateContinues : Rel
StateContinues u v = Continues u.state v.state

Fine-weaken :
    (env : Env) (events : List WindowEvent)
    → All (Fine env StateGrows) events
    → All (Fine env StateContinues) events
Fine-weaken env [] h = tt
Fine-weaken env (message origin content ∷ events) (_, h) = (tt, Fine-weaken env events h)
Fine-weaken env (closed ∷ events) (_, h) = (tt, Fine-weaken env events h)
Fine-weaken env (action a ∷ events) (k, h) = (λ w. Continues-Grows (k w), Fine-weaken env events h)

pub StateContinues-Law : {env : Env} → NoReset env → Law env StateContinues
StateContinues-Law {env} calm =
    let law = StateGrows-Law calm in
    record {
      same = λ w. Continues-Grows (Grows-refl w.state);
      trans = Continues-trans;
      update = λ f grows w. Continues-Grows (law.update f grows w);
      call = λ w. Continues-Grows (Grows-refl w.state);
      waited = λ n w. Continues-Grows (law.waited n w);
      popup = λ n url events e. Fine-weaken env events (law.popup n url events e);
    }

pub StateContinues-StateLaw : StateLaw StateContinues
unfolding set_state publish
StateContinues-StateLaw = record {
  sets = λ f w. record {
    same_id = refl;
    same_flow = refl;
    later = [];
    events = sym (append-nil w.state.events);
    error_kept = λ e h. (e, h);
  };
}
