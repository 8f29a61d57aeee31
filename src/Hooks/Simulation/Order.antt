-- ===== src/Hooks/Simulation/Order.antt =====
-- The order of a simulation's steps (hooks.ts).
use mathlib.Core.List.{map}
use protocol_lens.Prelude.{
  ℕ, zero, suc, ◌+◌, ◌*◌, ◌<◌, ◌≤◌, true, false, some, List, [], ◌∷◌, ◌++◌, length, ◌≡◌, refl, sym,
  ap, ◌∙◌, arith, All, All-append, subst,
}
use protocol_lens.Hooks.Simulation.{
  FlowStep, StepEvent, StepTimer, Simulation, step_timer, step_timers, restarted, start_simulation,
  contains, add_step, remove_fired, remove_ending, fire_step, fire_ending, earliest, first_ending,
  fire_of, fire_next, fire_timers,
}

contains-above : (n : ℕ) (ms : List ℕ) → All (λ m. m < n) ms → contains n ms ≡ false
contains-above n [] h = refl
contains-above n (m ∷ ms) (h, hs) = ground (arith, h, contains-above n ms hs)

-- The indices below `n`, in order and newest first.
abbrev pub upto : ℕ → List ℕ
upto zero = []
upto (suc n) = upto n ++ (n ∷ [])

abbrev pub downfrom : ℕ → List ℕ
downfrom zero = []
downfrom (suc n) = n ∷ downfrom n

weaken : (n : ℕ) (ms : List ℕ) → All (λ m. m < n) ms → All (λ m. m < suc n) ms
weaken n [] h = tt
weaken n (m ∷ ms) (h, hs) = (omega (arith, h), weaken n ms hs)

upto-below : (n : ℕ) → All (λ m. m < n) (upto n)
upto-below zero = tt
upto-below (suc n) =
    All-append (λ m. m < suc n) (upto n) (n ∷ []) (weaken n (upto n) (upto-below n))
      (omega arith, tt)

add_step-upto : (n : ℕ) → add_step n (upto n) ≡ upto (suc n)
unfolding add_step
add_step-upto n = rw (contains-above n (upto n) (upto-below n)) refl

remove_fired-first : (t : StepTimer) (ts : List StepTimer) → remove_fired t.index (t ∷ ts) ≡ ts
unfolding remove_fired
remove_fired-first t ts = ground arith

remove_ending-only : (e : ℕ) → remove_ending e (e ∷ []) ≡ []
unfolding remove_ending
remove_ending-only e = ground arith

-- No timer of the list is due before the time `d`.
earliest-due :
    (d : ℕ) (t : StepTimer) (ts : List StepTimer)
    → d ≤ t.due
    → All (λ u. d ≤ u.due) ts
    → d ≤ (earliest t ts).due
unfolding earliest
earliest-due d t [] h hs = h
earliest-due d t (u ∷ us) h (k, ks) = ground (arith, h, earliest-due d u us k ks)

earliest-first :
    (t : StepTimer) (ts : List StepTimer) → All (λ u. t.due ≤ u.due) ts → earliest t ts ≡ t
unfolding earliest
earliest-first t [] h = refl
earliest-first t (u ∷ us) (k, ks) = ground (arith, earliest-due t.due u us k ks)

fire_next-step :
    (duration : ℕ → ℕ) (t : StepTimer) (ts : List StepTimer) (s : Simulation)
    → s.timeouts ≡ t ∷ ts
    → s.endings ≡ []
    → All (λ u. t.due ≤ u.due) ts
    → fire_next duration s ≡ fire_step (duration t.index) t s
unfolding fire_next
fire_next-step duration t ts s timers none_left h =
    ap (λ ts'. fire_of duration ts' s.endings s) timers
    ∙ ap (λ es. fire_of duration (t ∷ ts) es s) none_left
    ∙ ap (λ u. fire_step (duration u.index) u s) (earliest-first t ts h)

fire_next-ending :
    (duration : ℕ → ℕ) (e : ℕ) (s : Simulation)
    → s.timeouts ≡ []
    → s.endings ≡ e ∷ []
    → fire_next duration s ≡ fire_ending e s
unfolding fire_next first_ending
fire_next-ending duration e s timers one = rw (timers, one) refl

module _ (speed now count : ℕ) where
  step_timers-due :
      (k d : ℕ) (rest : List FlowStep)
      → d ≤ now + suc k * speed
      → All (λ u. d ≤ u.due) (step_timers speed now count k rest)
  unfolding step_timers
  step_timers-due k d [] h = tt
  step_timers-due k d (step ∷ rest) h = (h, step_timers-due (suc k) d rest (omega (arith, h)))

  -- While the steps from `k` on are still to come.
  record IsAt (k : ℕ) (rest : List FlowStep) (s : Simulation) : Type 0 where
    running : s.is_simulating ≡ true
    timers : s.timeouts ≡ step_timers speed now count k rest
    completed : s.completed_steps ≡ upto k
    shown : map (λ (e : StepEvent). e.step) s.events ≡ downfrom k

  fire_step-IsAt :
      (duration k : ℕ) (step : FlowStep) (rest : List FlowStep) (s : Simulation)
      → IsAt k (step ∷ rest) s
      → IsAt (suc k) rest (fire_step duration (step_timer speed now count k step) s)
  unfolding fire_step step_timers
  fire_step-IsAt duration k step rest s a = record {
    running = a.running;
    timers =
        ap (remove_fired k) a.timers
        ∙ remove_fired-first (step_timer speed now count k step)
            (step_timers speed now count (suc k) rest);
    completed = ap (add_step k) a.completed ∙ add_step-upto k;
    shown = ap (◌∷◌ k) a.shown;
  }

  -- Only the last step sets an ending.
  fire_step-last :
      (duration k : ℕ) (step : FlowStep) (s : Simulation)
      → suc k ≡ count
      → s.endings ≡ []
      → (fire_step duration (step_timer speed now count k step) s).endings
        ≡ (now + count * speed + 500) ∷ []
  unfolding fire_step
  fire_step-last duration k step s last none_left = rw (sym last, none_left) (ground arith)

  fire_step-earlier :
      (duration k : ℕ) (step : FlowStep) (s : Simulation)
      → suc k < count
      → (fire_step duration (step_timer speed now count k step) s).endings ≡ s.endings
  unfolding fire_step
  fire_step-earlier duration k step s h = ground (arith, h)

  next-fire_step :
      (duration : ℕ → ℕ) (k : ℕ) (step : FlowStep) (rest : List FlowStep) (s : Simulation)
      → IsAt k (step ∷ rest) s
      → s.endings ≡ []
      → fire_next duration s ≡ fire_step (duration k) (step_timer speed now count k step) s
  unfolding step_timers
  next-fire_step duration k step rest s a none_left =
      fire_next-step duration (step_timer speed now count k step)
        (step_timers speed now count (suc k) rest) s a.timers none_left
        (step_timers-due (suc k) (now + suc k * speed) rest (omega arith))

  abbrev IsShown : ℕ → Simulation → Type 0
  IsShown k s = IsAt k [] s × (s.endings ≡ (now + count * speed + 500) ∷ [])

  fire_timers-IsShown :
      (duration : ℕ → ℕ) (k : ℕ) (step : FlowStep) (rest : List FlowStep) (s : Simulation)
      → IsAt k (step ∷ rest) s
      → s.endings ≡ []
      → suc k + length rest ≡ count
      → IsShown count (fire_timers duration (suc (length rest)) s)
  unfolding fire_timers
  fire_timers-IsShown duration k step [] s a none_left h =
      rw (next-fire_step duration k step [] s a none_left) (
        subst (λ n. IsAt n [] (fire_step (duration k) (step_timer speed now count k step) s))
            (omega (arith, h)) (fire_step-IsAt (duration k) k step [] s a),
        fire_step-last (duration k) k step s (omega (arith, h)) none_left,
      )
  fire_timers-IsShown duration k step (next ∷ rest) s a none_left h =
      subst (λ v. IsShown count (fire_timers duration (suc (length rest)) v))
        (sym (next-fire_step duration k step (next ∷ rest) s a none_left))
        (fire_timers-IsShown duration (suc k) next rest _
          (fire_step-IsAt (duration k) k step (next ∷ rest) s a)
          (fire_step-earlier (duration k) k step s (omega (arith, h)) ∙ none_left)
          (omega (arith, h)))

-- A simulation of a flow with steps that is started while no timer of an earlier one is left, and
-- that nobody stops: its timers, fired in the order in which they are due, show every step once and
-- in the order of the flow, whatever the speed; it is running until then, and one more timer, due
-- 500 ms after the last step, ends it, with no timer left.
pub simulation-ends :
    (duration : ℕ → ℕ) (speed now : ℕ) (step : FlowStep) (rest : List FlowStep) (s : Simulation)
    → s.is_simulating ≡ false
    → s.endings ≡ []
    → let count = length (step ∷ rest) in
      let shown = fire_timers duration count (start_simulation speed now (some (step ∷ rest)) s) in
      (shown.is_simulating ≡ true)
      × (shown.completed_steps ≡ upto count)
      × (map (λ (e : StepEvent). e.step) shown.events ≡ downfrom count)
      × (shown.endings ≡ (now + count * speed + 500) ∷ [])
      × ((fire_next duration shown).is_simulating ≡ false)
      × ((fire_next duration shown).timeouts ≡ [])
      × ((fire_next duration shown).endings ≡ [])
unfolding start_simulation fire_ending step_timers
simulation-ends duration speed now step rest s idle none_left = rw idle (
    let count = length (step ∷ rest) in
    let start = restarted speed now (step ∷ rest) s.endings in
    let shown = fire_timers duration count start in
    let (a, one) =
      fire_timers-IsShown speed now count duration 0 step rest start
        (record { running = refl; timers = refl; completed = refl; shown = refl }) none_left
        (omega arith) in
    let last = fire_next-ending duration (now + count * speed + 500) shown a.timers one in
    (
      a.running,
      a.completed,
      a.shown,
      one,
      ap (λ t. t.is_simulating) last,
      ap (λ t. t.timeouts) last ∙ a.timers,
      ap (λ t. t.endings) last
          ∙ ap (remove_ending (now + count * speed + 500)) one
          ∙ remove_ending-only (now + count * speed + 500),
    ))
