-- ===== src/Hooks/Socket/Calls.antt =====
-- What a call of `disconnect` of frontend/src/hooks/useWebSocket.ts leaves behind.
use protocol_lens.Prelude.{
  ℕ, suc, ◌<◌, String, true, false, ◌&&◌, Option, none, some, List, [], ◌∷◌, length, ltb, ◌≡◌, refl,
  ap, ◌∙◌, arith, length-append,
}
use protocol_lens.Flows.Grant.{present}
use protocol_lens.Hooks.Socket.{
  SocketOptions, Page, Hook, Phase, connecting, opened, closed, phase_at, set_phase, is_open,
  full_url, closing_phase, close_socket, new_socket, connect, on_close, on_timer, remove_timer,
  disconnect,
}
use protocol_lens.Hooks.Socket.Bound.{length-set_phase}

length-close_socket : (c : Option ℕ) (ps : List Phase) → length (close_socket c ps) ≡ length ps
length-close_socket none ps = refl
length-close_socket (some i) ps = kept (closing_phase (phase_at i ps))
  where
    kept :
        (q : Option Phase) → length (elim q [ none ↦ ps | some r ↦ set_phase i r ps ]) ≡ length ps
    kept none = refl
    kept (some r) = length-set_phase i r ps

-- `connect` with a URL that the page accepts and no open socket.
connect-new_socket :
    (o : SocketOptions) (p : Page) (h : Hook) (url : String)
    → present o.url ≡ some url
    → p.accepts (full_url p url) ≡ true
    → is_open h ≡ false
    → connect o p h ≡ new_socket h
unfolding connect
connect-new_socket o p h url u a down = rw (u, down, a) refl

-- The state after the close event of socket `i` has started a timer and the timer has fired.
timed_out : SocketOptions → ℕ → Hook → Hook
timed_out o i h = record (on_close o i h) {
  timers = remove_timer h.next_timer (on_close o i h).timers;
  reconnect_attempts = suc h.reconnect_attempts;
}

allowed :
    (o : SocketOptions) (a : ℕ)
    → o.reconnect ≡ true
    → a < o.max_reconnect_attempts
    → (o.reconnect && ltb a o.max_reconnect_attempts) ≡ true
allowed o a r l = ground (arith, r, l)

-- Where reconnection is on, attempts are left and the page accepts the URL, a `disconnect` of an
-- open socket does not end the connection: the close event that follows starts a timer, and the
-- timer makes a new socket.
pub disconnect-reconnects :
    (o : SocketOptions) (p : Page) (h : Hook) (i : ℕ) (url : String)
    → h.current ≡ some i
    → phase_at i h.sockets ≡ some opened
    → present o.url ≡ some url
    → p.accepts (full_url p url) ≡ true
    → o.reconnect ≡ true
    → h.reconnect_attempts < o.max_reconnect_attempts
    → let again = on_timer o p h.next_timer (on_close o i (disconnect h)) in
      ((on_close o i (disconnect h)).last_timer ≡ some h.next_timer)
      × (length again.sockets ≡ suc (length h.sockets))
      × (again.current ≡ some (length h.sockets))
unfolding on_timer on_close disconnect is_open timed_out
disconnect-reconnects o p h i url c e u a r l =
    let same =
      length-set_phase i closed (close_socket h.current h.sockets)
      ∙ length-close_socket h.current h.sockets in
    let made = connect-new_socket o p (timed_out o i (disconnect h)) url u a refl in
    let again = allowed o h.reconnect_attempts r l in
    (
      rw again refl,
      ap (λ (k : Hook). length k.sockets) made
          ∙ length-append _ (connecting ∷ [])
          ∙ omega (arith, same),
      ap (λ (k : Hook). k.current) made ∙ ap some same,
    )
