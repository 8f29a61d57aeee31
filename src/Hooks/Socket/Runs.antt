-- ===== src/Hooks/Socket/Runs.antt =====
-- What happens to a mounted `useWebSocket` while its caller does not call `connect` or `disconnect`
-- (frontend/src/hooks/useWebSocket.ts).
use protocol_lens.Prelude.{ℕ, suc, String, true, some, ◌≡◌, ◌≢◌}
use protocol_lens.Hooks.Socket.{
  SocketOptions, Page, Hook, Phase, connecting, opened, closing, closed, initial_hook, phase_at,
  set_phase, has_timer, connect, on_open, on_close, on_timer, on_message, send,
}

-- `Run o p h n`: the hook can be in the state `h` after its sockets have opened `n` times.
pub data Run (o : SocketOptions) (p : Page) : Hook → ℕ → Type 0 where
  mounted : Run o p (connect o p initial_hook) 0
  opens :
      (h : Hook) (n i : ℕ)
      → Run o p h n
      → phase_at i h.sockets ≡ some connecting
      → Run o p (on_open i h) (suc n)
  closes :
      (h : Hook) (n i : ℕ) (q : Phase)
      → Run o p h n
      → phase_at i h.sockets ≡ some q
      → q ≢ closed
      → Run o p (on_close o i h) n
  -- The server starts the closing handshake: no handler runs before `onclose`.
  server_closes :
      (h : Hook) (n i : ℕ)
      → Run o p h n
      → phase_at i h.sockets ≡ some opened
      → Run o p (record h { sockets = set_phase i closing h.sockets }) n
  fired :
      (h : Hook) (n t : ℕ)
      → Run o p h n
      → has_timer t h.timers ≡ true
      → Run o p (on_timer o p t h) n
  received :
      (h : Hook) (n i : ℕ) (m : String)
      → Run o p h n
      → phase_at i h.sockets ≡ some opened
      → Run o p (on_message m h) n
  sends : (h : Hook) (n : ℕ) (m : String) → Run o p h n → Run o p (send m h) n
