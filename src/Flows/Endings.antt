-- ===== src/Flows/Endings.antt =====
-- The end of a run inside the frame of `execute`, told from the end of its `try` block: completed, or
-- failed with the message that the block threw.
use protocol_lens.Prelude.{String, ◌≡◌, refl, ◌≢◌, Bool, true, false, some, if◌then◌else◌}
use protocol_lens.Flow.State.{completed, error, EventText}
use protocol_lens.Flow.Env.{Env}
use protocol_lens.Flow.Exec.{
  Exec, World, Outcome, ◌>>◌, returned, thrown, pending, throw, continue, handle, ◌>>=◌, catch,
  update_state,
}
use protocol_lens.Flow.Base.{add_event, fail}
use protocol_lens.Flow.Outcome.{Settles}
use protocol_lens.Flows.Grant.{guarded, complete}

-- `body` is how the `try` block ended, and the world is that after `execute`: a block that returned
-- leaves the status `completed`, one that threw the status `error` with the message that it threw,
-- and one that waits for ever keeps `execute` waiting.
abbrev pub Reports : (body run : Outcome (Unit {0})) → World → Type 0
Reports (returned _) (returned _) w = w.state.status ≡ completed
Reports (thrown e) (returned _) w =
    (w.state.status ≡ error)
    × (w.state.error ≡ some (record { code = "execution_error"; description = e }))
Reports pending pending w = Unit
Reports _ _ w = ⊥

-- The second world is the first after the addition of events.
pub data Announced (env : Env) : World → World → Type 0 where
  now : (w : World) → Announced env w w
  announced :
      (e : EventText) (w v : World) → Announced env (add_event env e w).1 v → Announced env w v

-- What the `try` block does where it starts, after some events, is what the run reports.
abbrev pub Reported : Env → (body : Exec (Unit {0})) → World → Outcome (Unit {0}) × World → Type 0
Reported env body start run = (v : World) × Announced env start v × Reports (body v).0 run.0 run.1

-- The same for a run that returns.
abbrev pub Returned : Env → (body : Exec (Unit {0})) → World → Outcome (Unit {0}) × World → Type 0
Returned env body start run = Reported env body start run × (run.0 ≡ returned tt)

abbrev IsCompletedIf {ℓ} : {A : Type ℓ} → Outcome A → World → Type 0
IsCompletedIf (returned a) w = w.state.status ≡ completed
IsCompletedIf (thrown e) w = Unit
IsCompletedIf pending w = Unit

-- Wherever `m` returns, the status is completed.
pub record Completes {ℓ} {A : Type ℓ} (m : Exec A) : Type ℓ where
  pub at : (w : World) → IsCompletedIf (m w).0 (m w).1

pub Completes-throw {ℓ} : {A : Type ℓ} (e : String) → Completes (throw {A = A} e)
unfolding throw
Completes-throw e = record { at = λ w. tt }

pub Completes-if {ℓ} :
    {A : Type ℓ} (b : Bool) (m n : Exec A)
    → Completes m
    → Completes n
    → Completes (if b then m else n)
Completes-if true m n hm hn = hm
Completes-if false m n hm hn = hn

module _ {ℓ κ} {A : Type ℓ} {B : Type κ} where
  continued :
      (o : Outcome A) (f : A → Exec B)
      → ((a : A) → Completes (f a))
      → (w : World) → IsCompletedIf (continue o f w).0 (continue o f w).1
  continued (returned a) f hf w = (hf a).at w
  continued (thrown e) f hf w = tt
  continued pending f hf w = tt

  pub Completes-bind :
      (m : Exec A) (f : A → Exec B) → ((a : A) → Completes (f a)) → Completes (m >>= f)
  unfolding ◌>>=◌
  Completes-bind m f hf = record { at = λ w. let (o, w') = m w in continued o f hf w' }

pub Completes-complete :
    (env : Env) (step title description reference : String)
    → Completes (complete env step title description reference)
unfolding complete ◌>>=◌ add_event update_state
Completes-complete env step title description reference = record { at = λ w. refl }

pub ruleset completes_rules = (Completes-throw, Completes-if, Completes-bind, Completes-complete)

handled :
    (env : Env) (o : Outcome (Unit {0})) (w : World)
    → IsCompletedIf o w
    → Reports o (handle o (fail env) w).0 (handle o (fail env) w).1
unfolding fail add_event update_state ◌>>=◌
handled env (returned u) w h = h
handled env (thrown e) w h = (refl, refl)
handled env pending w h = tt

returns :
    (body run : Outcome (Unit {0})) (w : World)
    → body ≢ pending
    → Reports body run w
    → run ≡ returned tt
returns (returned u) (returned v) w h r = refl
returns (returned u) (thrown e) w h r = absurd r
returns (returned u) pending w h r = absurd r
returns (thrown d) (returned v) w h r = refl
returns (thrown d) (thrown e) w h r = absurd r
returns (thrown d) pending w h r = absurd r
returns pending run w h r = absurd (h refl)

module _ (env : Env) where
  -- A run that reports what `body` does, and one that returns too.
  pub record MayEnd (body m : Exec (Unit {0})) : Type 0 where
    pub at : (w : World) → Reported env body w (m w)

  pub record Ends (body m : Exec (Unit {0})) : Type 0 where
    pub at : (w : World) → Returned env body w (m w)

  pub MayEnd-guarded : (m : Exec (Unit {0})) → Completes m → MayEnd m (guarded env m)
  unfolding guarded catch
  MayEnd-guarded m h = record {
    at = λ w. (w, now w, (let (o, w') = m w in handled env o w' (h.at w)));
  }

  pub Ends-guarded : (m : Exec (Unit {0})) → Completes m → Settles m → Ends m (guarded env m)
  Ends-guarded m h settles = record {
    at = λ w.
        let (v, a, r) = (MayEnd-guarded m h).at w in
        ((v, a, r), returns (m v).0 _ _ (settles.at v) r);
  }

  pub MayEnd-after :
      (e : EventText) (body m : Exec (Unit {0}))
      → MayEnd body m
      → MayEnd body (add_event env e >> m)
  unfolding add_event ◌>>=◌
  MayEnd-after e body m h = record {
    at = λ w. let (v, a, r) = h.at (add_event env e w).1 in (v, announced e w v a, r);
  }

  pub Ends-after :
      (e : EventText) (body m : Exec (Unit {0})) → Ends body m → Ends body (add_event env e >> m)
  unfolding add_event ◌>>=◌
  Ends-after e body m h = record {
    at = λ w.
        let ((v, a, r), back) = h.at (add_event env e w).1 in ((v, announced e w v a, r), back);
  }

pub ruleset ends_rules = (Ends-guarded, MayEnd-guarded, Ends-after, MayEnd-after)
