-- ===== src/Hooks/Socket.antt =====
-- `useWebSocket` of frontend/src/hooks/useWebSocket.ts, with fixed options: the sockets that it has
-- made, the one that it refers to, and its reconnection timers. The caller's callbacks are left out.
pub mod Runs
pub mod Bound
pub mod Calls
pub mod Agreement
use text.Mathlib.Text
use protocol_lens.Prelude.{
  ℕ, zero, suc, String, Bool, true, false, ◌&&◌, Option, none, some, List, [], ◌∷◌, ◌++◌, length,
  ltb, ◌==◌, concat, if◌then◌else◌,
}
use protocol_lens.Flows.Grant.{present}

-- `readyState`
pub data Phase : Type 0 where
  connecting opened closing closed : Phase

pub record SocketOptions : Type 0 where
  pub url : Option String
  pub reconnect : Bool
  pub max_reconnect_attempts : ℕ

-- `window.location`, and whether the `WebSocket` constructor takes a URL.
pub record Page : Type 0 where
  pub is_secure : Bool
  pub host : String
  pub accepts : String → Bool

-- Sockets are named by their place in `sockets`; `timers` are those that have not fired, and `sent`
-- is what was handed to a socket.
pub record Hook : Type 0 where
  pub sockets : List Phase
  pub current : Option ℕ
  pub reconnect_attempts : ℕ
  pub timers : List ℕ
  pub next_timer : ℕ
  pub last_timer : Option ℕ
  pub connected : Bool
  pub last_message : Option String
  pub sent : List (ℕ × String)

abbrev pub initial_hook : Hook
initial_hook = record {
  sockets = [];
  current = none;
  reconnect_attempts = 0;
  timers = [];
  next_timer = 0;
  last_timer = none;
  connected = false;
  last_message = none;
  sent = [];
}

unfoldable pub phase_at : ℕ → List Phase → Option Phase
phase_at i [] = none
phase_at zero (p ∷ ps) = some p
phase_at (suc i) (p ∷ ps) = phase_at i ps

unfoldable pub set_phase : ℕ → Phase → List Phase → List Phase
set_phase i q [] = []
set_phase zero q (p ∷ ps) = q ∷ ps
set_phase (suc i) q (p ∷ ps) = p ∷ set_phase i q ps

abbrev pub is_open_phase : Option Phase → Bool
is_open_phase (some opened) = true
is_open_phase _ = false

abbrev pub open_at : Option ℕ → List Phase → Bool
open_at none ps = false
open_at (some i) ps = is_open_phase (phase_at i ps)

-- `wsRef.current?.readyState === WebSocket.OPEN`
unfoldable pub is_open : Hook → Bool
unfolding phase_at
is_open h = open_at h.current h.sockets

unfoldable pub full_url : Page → String → String
unfolding concat
full_url p url =
    if Text.starts_with url "/"
    then concat ((if p.is_secure then "wss:" else "ws:") ∷ "//" ∷ p.host ∷ url ∷ [])
    else url

-- `wsRef.current = new WebSocket(…)`
abbrev pub new_socket : Hook → Hook
new_socket h = record h {
  sockets = h.sockets ++ (connecting ∷ []);
  current = some (length h.sockets);
}

abbrev pub connect_to : Page → Option String → Hook → Hook
connect_to p none h = h
connect_to p (some url) h =
    if is_open h then h else if p.accepts (full_url p url) then new_socket h else h

-- `connect`; what the constructor throws is only logged.
unfoldable pub connect : SocketOptions → Page → Hook → Hook
unfolding is_open full_url
connect o p h = connect_to p (present o.url) h

-- `onopen` of socket `i`
unfoldable pub on_open : ℕ → Hook → Hook
unfolding set_phase
on_open i h = record h {
  sockets = set_phase i opened h.sockets;
  connected = true;
  reconnect_attempts = 0;
}

-- `onclose` of socket `i`
unfoldable pub on_close : SocketOptions → ℕ → Hook → Hook
unfolding set_phase
on_close o i h =
    let again = o.reconnect && ltb h.reconnect_attempts o.max_reconnect_attempts in
    record h {
      sockets = set_phase i closed h.sockets;
      connected = false;
      timers = if again then h.next_timer ∷ h.timers else h.timers;
      last_timer = if again then some h.next_timer else h.last_timer;
      next_timer = if again then suc h.next_timer else h.next_timer;
    }

abbrev pub has_timer : ℕ → List ℕ → Bool
has_timer t [] = false
has_timer t (u ∷ us) = if u == t then true else has_timer t us

unfoldable pub remove_timer : ℕ → List ℕ → List ℕ
remove_timer t [] = []
remove_timer t (u ∷ us) = let rest = remove_timer t us in if u == t then us else u ∷ rest

-- Timer `t` fires.
unfoldable pub on_timer : SocketOptions → Page → ℕ → Hook → Hook
unfolding remove_timer connect
on_timer o p t h =
    connect o p
      (record h { timers = remove_timer t h.timers; reconnect_attempts = suc h.reconnect_attempts })

-- `onmessage`
unfoldable pub on_message : String → Hook → Hook
on_message m h = record h { last_message = some m }

abbrev clear_timer : Option ℕ → List ℕ → List ℕ
clear_timer none ts = ts
clear_timer (some t) ts = remove_timer t ts

-- `close()` of a socket that is connecting or open.
abbrev pub closing_phase : Option Phase → Option Phase
closing_phase none = none
closing_phase (some connecting) = some closing
closing_phase (some opened) = some closing
closing_phase (some p) = some p

abbrev pub close_socket : Option ℕ → List Phase → List Phase
close_socket none ps = ps
close_socket (some i) ps = elim (closing_phase (phase_at i ps)) [
  | none ↦ ps
  | some p ↦ set_phase i p ps
]

-- `disconnect`: only the last timer is cleared, and the handlers of the socket stay.
unfoldable pub disconnect : Hook → Hook
unfolding remove_timer phase_at set_phase
disconnect h = record h {
  timers = clear_timer h.last_timer h.timers;
  sockets = close_socket h.current h.sockets;
  current = none;
  connected = false;
}

abbrev pub send_to : Option ℕ → Bool → String → Hook → Hook
send_to none up m h = h
send_to (some i) true m h = record h { sent = h.sent ++ ((i, m) ∷ []) }
send_to (some i) false m h = h

-- `send`
unfoldable pub send : String → Hook → Hook
unfolding is_open
send m h = send_to h.current (is_open h) m h
