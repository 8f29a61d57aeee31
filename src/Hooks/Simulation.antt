-- ===== src/Hooks/Simulation.antt =====
-- `useFlowSimulation` of hooks.ts: the steps of a flow, shown one after the other by timers. The
-- timers that have not fired are kept in the order they were set; those that end a simulation are
-- apart, since the hook keeps no reference to them.
pub mod Order
use protocol_lens.Prelude.{
  ℕ, zero, suc, ◌+◌, String, Bool, true, false, Option, none, some, List, [], ◌∷◌, ◌++◌, length,
  ◌==◌, ◌*◌, leb, if◌then◌else◌,
}

pub record FlowStep : Type 0 where
  pub id : String
  pub name : String
  pub description : String
  pub sender : String
  pub receiver : String
  pub type : String

-- The members of a simulated event that depend on its step; `duration` is random.
pub record StepEvent : Type 0 where
  pub title : String
  pub description : String
  pub step_id : String
  pub step : ℕ
  pub sender : String
  pub receiver : String
  pub type : String
  pub duration : ℕ

-- A timer that shows a step at the time `due`; its function holds the step and the number of steps.
pub record StepTimer : Type 0 where
  pub index : ℕ
  pub due : ℕ
  pub count : ℕ
  pub step : FlowStep

-- `endings` are the times at which the timers that end a simulation are due.
pub record Simulation : Type 0 where
  pub is_simulating : Bool
  pub current_step_index : Option ℕ
  pub completed_steps : List ℕ
  pub events : List StepEvent
  pub timeouts : List StepTimer
  pub endings : List ℕ

abbrev pub initial_simulation : Simulation
initial_simulation = record {
  is_simulating = false;
  current_step_index = none;
  completed_steps = [];
  events = [];
  timeouts = [];
  endings = [];
}

-- `setTimeout(…, (index + 1) * speed)` at the time `now`
abbrev pub step_timer : (speed now count index : ℕ) → FlowStep → StepTimer
step_timer speed now count index step = record {
  index = index;
  due = now + suc index * speed;
  count = count;
  step = step;
}

-- The timers of the steps from `index` on.
unfoldable pub step_timers : (speed now count index : ℕ) → List FlowStep → List StepTimer
step_timers speed now count index [] = []
step_timers speed now count index (step ∷ steps) =
    step_timer speed now count index step ∷ step_timers speed now count (suc index) steps

-- The state that `startSimulation` sets up, with a timer for each step.
abbrev pub restarted : (speed now : ℕ) → List FlowStep → List ℕ → Simulation
restarted speed now steps endings = record {
  is_simulating = true;
  current_step_index = none;
  completed_steps = [];
  events = [];
  timeouts = step_timers speed now (length steps) 0 steps;
  endings = endings;
}

-- `startSimulation`, at the time `now`
unfoldable pub start_simulation : (speed now : ℕ) → Option (List FlowStep) → Simulation → Simulation
unfolding step_timers
start_simulation speed now none s = s
start_simulation speed now (some steps) s =
    if s.is_simulating then s else restarted speed now steps s.endings

-- `stopSimulation`
unfoldable pub stop_simulation : Simulation → Simulation
stop_simulation s = record s { timeouts = []; is_simulating = false }

-- `resetSimulation`
unfoldable pub reset_simulation : Simulation → Simulation
unfolding stop_simulation
reset_simulation s = record (stop_simulation s) {
  current_step_index = none;
  completed_steps = [];
  events = [];
}

abbrev contains : ℕ → List ℕ → Bool
contains n [] = false
contains n (m ∷ ms) = if m == n then true else contains n ms

-- `new Set([...prev, index])`
unfoldable pub add_step : ℕ → List ℕ → List ℕ
add_step n ms = if contains n ms then ms else ms ++ (n ∷ [])

unfoldable pub remove_fired : ℕ → List StepTimer → List StepTimer
remove_fired n [] = []
remove_fired n (t ∷ ts) = let rest = remove_fired n ts in if t.index == n then ts else t ∷ rest

unfoldable pub remove_ending : ℕ → List ℕ → List ℕ
remove_ending n [] = []
remove_ending n (e ∷ es) = let rest = remove_ending n es in if e == n then es else e ∷ rest

abbrev pub step_event : (duration index : ℕ) → FlowStep → StepEvent
step_event duration index step = record {
  title = step.name;
  description = step.description;
  step_id = step.id;
  step = index;
  sender = step.sender;
  receiver = step.receiver;
  type = step.type;
  duration = duration;
}

-- The timer of a step fires; that of the last step sets the timer that ends the simulation.
unfoldable pub fire_step : (duration : ℕ) → StepTimer → Simulation → Simulation
unfolding add_step remove_fired
fire_step duration t s = record s {
  events = step_event duration t.index t.step ∷ s.events;
  current_step_index = some t.index;
  completed_steps = add_step t.index s.completed_steps;
  timeouts = remove_fired t.index s.timeouts;
  endings = if suc t.index == t.count then s.endings ++ ((t.due + 500) ∷ []) else s.endings;
}

-- A timer that ends a simulation fires.
unfoldable pub fire_ending : ℕ → Simulation → Simulation
unfolding remove_ending
fire_ending due s = record s { is_simulating = false; endings = remove_ending due s.endings }

-- The timer that is due first, and of several the one that was set first.
unfoldable pub earliest : StepTimer → List StepTimer → StepTimer
earliest t [] = t
earliest t (u ∷ us) = let later = earliest u us in if leb t.due later.due then t else later

unfoldable pub first_ending : ℕ → List ℕ → ℕ
first_ending e [] = e
first_ending e (d ∷ ds) = let later = first_ending d ds in if leb e later then e else later

abbrev fire_first : (duration : ℕ) → StepTimer → ℕ → Simulation → Simulation
fire_first duration t e s = if leb t.due e then fire_step duration t s else fire_ending e s

-- The page's next timer fires: the one that is due first. Where a step and an ending are due at once,
-- the step is taken first.
abbrev pub fire_of : (ℕ → ℕ) → List StepTimer → List ℕ → Simulation → Simulation
fire_of duration [] [] s = s
fire_of duration [] (e ∷ es) s = fire_ending (first_ending e es) s
fire_of duration (t ∷ ts) [] s =
    let first = earliest t ts in fire_step (duration first.index) first s
fire_of duration (t ∷ ts) (e ∷ es) s =
    let first = earliest t ts in fire_first (duration first.index) first (first_ending e es) s

unfoldable pub fire_next : (duration : ℕ → ℕ) → Simulation → Simulation
unfolding fire_step fire_ending earliest first_ending
fire_next duration s = fire_of duration s.timeouts s.endings s

-- `n` timers fire, in the order that they are due; the durations are drawn by index.
unfoldable pub fire_timers : (duration : ℕ → ℕ) → ℕ → Simulation → Simulation
unfolding fire_next
fire_timers duration zero s = s
fire_timers duration (suc n) s = fire_timers duration n (fire_next duration s)
