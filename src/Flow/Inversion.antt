-- ===== src/Flow/Inversion.antt =====
-- What a normal return says of the steps before it.
use protocol_lens.Prelude.{
  String, ◌≡◌, refl, ◌⊎◌, inl, inr, Bool, true, false, Option, none, some, List, [], ◌∷◌,
  if◌then◌else◌, arith, Bool-cases, ap,
}
use protocol_lens.Js.Value.{Value, str, undefined, null, bool, num, negsuc, arr, obj}
use protocol_lens.Flow.State.{completed}
use protocol_lens.Flow.Env.{Env, WindowEvent, message, closed, action}
use protocol_lens.Flow.Exec.{
  Exec, World, Outcome, returned, thrown, pending, pure, throw, continue, handle, ◌>>=◌, catch,
  or_throw, update_state, act,
}
use protocol_lens.Flow.Base.{add_event, fail}
use protocol_lens.Flow.Popup.{is_callback, await_callback, same_state}
use text.Mathlib.TextEquality.{eq_iff}

module _ {ℓ κ} {A : Type ℓ} {B : Type κ} where
  continued :
      (o : Outcome A) (f : A → Exec B) (w : World) (b : B)
      → (continue o f w).0 ≡ returned b
      → (a : A) × (o ≡ returned a) × ((f a w).0 ≡ returned b) × ((continue o f w).1 ≡ (f a w).1)
  continued (returned a) f w b h = (a, refl, h, refl)
  continued (thrown e) f w b h = absurd (ground arith)
  continued pending f w b h = absurd (ground arith)

  pub bind-returned :
      (m : Exec A) (f : A → Exec B) (w : World) (b : B)
      → ((m >>= f) w).0 ≡ returned b
      → (a : A) × ((m w).0 ≡ returned a)
        × ((f a (m w).1).0 ≡ returned b)
        × (((m >>= f) w).1 ≡ (f a (m w).1).1)
  unfolding ◌>>=◌
  bind-returned m f w b h = continued (m w).0 f (m w).1 b h

pub or_throw-returned {ℓ} :
    {A : Type ℓ} (e : String) (o : Option A) (w : World) (a : A)
    → (or_throw e o w).0 ≡ returned a
    → o ≡ some a
unfolding or_throw throw pure
or_throw-returned e none w a h = absurd (ground arith)
or_throw-returned e (some b) w a h = ground arith

-- A callback reached the executor: an own message of the right type, before the window was found
-- closed.
abbrev pub Arrives : Env → String → Value → List WindowEvent → Type 0
Arrives env kind content [] = ⊥
Arrives env kind content (message origin v ∷ rest) =
    ((is_callback env kind origin v ≡ true) × (v ≡ content)) ⊎ Arrives env kind content rest
Arrives env kind content (closed ∷ rest) = ⊥
Arrives env kind content (action a ∷ rest) = Arrives env kind content rest

pub await_callback-Arrives :
    (env : Env) (kind : String) (events : List WindowEvent) (content : Value) (w : World)
    → (await_callback env kind events w).0 ≡ returned content
    → Arrives env kind content events
unfolding await_callback ◌>>=◌
await_callback-Arrives env kind [] content w h = absurd (ground arith)
await_callback-Arrives env kind (message origin v ∷ rest) content w h =
    elim (Bool-cases (is_callback env kind origin v)) [
      | inl own ↦ inl (own, ground arith)
      | inr other ↦ inr (await_callback-Arrives env kind rest content w (ground arith))
    ]
await_callback-Arrives env kind (closed ∷ rest) content w h = absurd (ground arith)
await_callback-Arrives env kind (action a ∷ rest) content w h =
    await_callback-Arrives env kind rest content (act env a w) h

pub str_of_same_state : (v : Value) (s : String) → same_state v (some s) ≡ true → v ≡ str s
unfolding same_state
str_of_same_state (str t) s h = ap str ((eq_iff t s).0 h)
str_of_same_state undefined s h = absurd (ground arith)
str_of_same_state null s h = absurd (ground arith)
str_of_same_state (bool b) s h = absurd (ground arith)
str_of_same_state (num n) s h = absurd (ground arith)
str_of_same_state (negsuc n) s h = absurd (ground arith)
str_of_same_state (arr xs) s h = absurd (ground arith)
str_of_same_state (obj fs) s h = absurd (ground arith)

handled_completed :
    (env : Env) (o : Outcome (Unit {0})) (w : World)
    → (handle o (fail env) w).0 ≡ returned tt
    → (handle o (fail env) w).1.state.status ≡ completed
    → (o ≡ returned tt) × (w ≡ (handle o (fail env) w).1)
unfolding fail add_event update_state ◌>>=◌
handled_completed env (returned u) w h c = (refl, refl)
handled_completed env (thrown e) w h c = absurd (ground arith)
handled_completed env pending w h c = absurd (ground arith)

-- The frame of `execute` leaves the status completed only where its body returns.
pub catch-completed :
    (env : Env) (m : Exec (Unit {0})) (w : World)
    → (catch m (fail env) w).0 ≡ returned tt
    → (catch m (fail env) w).1.state.status ≡ completed
    → ((m w).0 ≡ returned tt) × ((m w).1 ≡ (catch m (fail env) w).1)
unfolding catch
catch-completed env m w h c = handled_completed env (m w).0 (m w).1 h c

-- A test whose failure throws has passed where the code returns.
pub if-returned :
    (b : Bool) (m : Exec (Unit {0})) (e : String) (w : World)
    → ((if b then m else throw e) w).0 ≡ returned tt
    → b ≡ true
unfolding throw
if-returned true m e w h = refl
if-returned false m e w h = absurd (ground arith)
