-- ===== src/Hooks/Session/Limit.antt =====
-- The limit on the events of a session (hooks.ts).
use protocol_lens.Prelude.{
  ℕ, zero, suc, ◌+◌, ◌≤◌, String, codes, Option, none, some, List, [], ◌∷◌, take, length, ◌≡◌, refl,
  ap, ◌∙◌, arith, Bool-cases, inl, inr,
}
use protocol_lens.Js.Value.{Value}
use protocol_lens.Flow.Env.{Env}
use protocol_lens.Hooks.Session.{
  Session, has_members, read_event, next_index, receive, handle_message, handle_all,
}

module _ {ℓ} {A : Type ℓ} where
  take-take : (n : ℕ) (xs : List A) → take n (take n xs) ≡ take n xs
  take-take zero xs = refl
  take-take (suc n) [] = refl
  take-take (suc n) (x ∷ xs) = ap (◌∷◌ x) (take-take n xs)

  take-cons : (n : ℕ) (x : A) (xs : List A) → take n (x ∷ take n xs) ≡ take n (x ∷ xs)
  take-cons zero x xs = refl
  take-cons (suc n) x xs = ap (◌∷◌ x) (take-shorter n xs)
    where
      take-shorter : (n : ℕ) (xs : List A) → take n (take (suc n) xs) ≡ take n xs
      take-shorter zero xs = refl
      take-shorter (suc n) [] = refl
      take-shorter (suc n) (x ∷ xs) = ap (◌∷◌ x) (take-shorter n xs)

  length-take : (n : ℕ) (xs : List A) → length (take n xs) ≤ n
  length-take zero xs = omega arith
  length-take (suc n) [] = omega arith
  length-take (suc n) (x ∷ xs) = omega (arith, length-take n xs)

-- The first `n` events of a session.
abbrev pub limited : ℕ → Session → Session
limited n s = record s { events = take n s.events }

receive-limited :
    (env : Env) (id : String) (n : ℕ) (o : Option Value) (s : Session)
    → receive env id (some n) o (limited n s) ≡ limited n (receive env id none o s)
receive-limited env id n none s = refl
receive-limited env id n (some v) s = elim (Bool-cases (has_members v)) [
  | inl good ↦ rw good (
      ap
        (λ es. record {
          events = es;
          current_step_index = next_index env (read_event env id s.calls v) s.current_step_index;
          calls = s.calls + 2;
        })
        (take-cons n (read_event env id s.calls v) s.events))
  | inr bad ↦ rw bad refl
]

-- Keeping `maxEvents` events at every message loses nothing but what is beyond the limit: after any
-- messages the session is the one that keeps every event, cut to its `maxEvents` newest.
pub handle_all-limited :
    (env : Env) (id : String) (n : ℕ) (messages : List String) (s : Session)
    → handle_all env id (some n) messages (limited n s)
      ≡ limited n (handle_all env id none messages s)
unfolding handle_all handle_message
handle_all-limited env id n [] s = refl
handle_all-limited env id n (m ∷ ms) s =
    ap (handle_all env id (some n) ms) (receive-limited env id n (env.parse_json (codes m)) s)
    ∙ handle_all-limited env id n ms (receive env id none (env.parse_json (codes m)) s)
