-- ===== src/Hooks/Socket/Bound.antt =====
-- How often `useWebSocket` reconnects.
use protocol_lens.Prelude.{
  ℕ, zero, suc, ◌+◌, ◌*◌, ◌≤◌, String, Bool, true, false, Option, none, some, List, [], ◌∷◌, ◌++◌,
  length, ◌≡◌, ◌≢◌, refl, inl, inr, arith, Bool-cases, length-append,
}
use protocol_lens.Flows.Grant.{present}
use protocol_lens.Hooks.Socket.{
  SocketOptions, Page, Hook, Phase, connecting, opened, closing, closed, initial_hook, phase_at,
  set_phase, is_open, full_url, has_timer, remove_timer, connect_to, connect, on_open, on_close,
  on_timer, on_message, send_to, send,
}
use protocol_lens.Hooks.Socket.Runs.{
  Run, mounted, opens, closes, server_closes, fired, received, sends,
}

-- The sockets that are not closed.
abbrev pub live : List Phase → ℕ
live [] = 0
live (closed ∷ ps) = live ps
live (_ ∷ ps) = suc (live ps)

live-append : (ps : List Phase) → live (ps ++ (connecting ∷ [])) ≡ suc (live ps)
live-append [] = refl
live-append (connecting ∷ ps) = omega (arith, live-append ps)
live-append (opened ∷ ps) = omega (arith, live-append ps)
live-append (closing ∷ ps) = omega (arith, live-append ps)
live-append (closed ∷ ps) = live-append ps

live-opened :
    (i : ℕ) (ps : List Phase)
    → phase_at i ps ≡ some connecting
    → (live (set_phase i opened ps) ≡ live ps) × (1 ≤ live ps)
unfolding phase_at set_phase
live-opened i [] h = absurd (ground arith)
live-opened zero (p ∷ ps) h = ground (arith, h)
live-opened (suc i) (p ∷ ps) h = ground (arith, live-opened i ps h)

live-closing :
    (i : ℕ) (ps : List Phase)
    → phase_at i ps ≡ some opened
    → live (set_phase i closing ps) ≡ live ps
unfolding phase_at set_phase
live-closing i [] h = absurd (ground arith)
live-closing zero (p ∷ ps) h = ground (arith, h)
live-closing (suc i) (p ∷ ps) h = ground (arith, live-closing i ps h)

live-close :
    (i : ℕ) (q : Phase) (ps : List Phase)
    → phase_at i ps ≡ some q
    → q ≢ closed
    → suc (live (set_phase i closed ps)) ≡ live ps
unfolding phase_at set_phase
live-close i q [] h k = absurd (ground arith)
live-close zero q (p ∷ ps) h k = ground (arith, h, k)
live-close (suc i) q (p ∷ ps) h k = ground (arith, live-close i q ps h k)

pub length-set_phase : (i : ℕ) (q : Phase) (ps : List Phase) → length (set_phase i q ps) ≡ length ps
unfolding set_phase
length-set_phase i q [] = refl
length-set_phase zero q (p ∷ ps) = refl
length-set_phase (suc i) q (p ∷ ps) = omega (arith, length-set_phase i q ps)

length-remove_timer :
    (t : ℕ) (ts : List ℕ) → has_timer t ts ≡ true → suc (length (remove_timer t ts)) ≡ length ts
unfolding remove_timer
length-remove_timer t [] h = absurd (ground arith)
length-remove_timer t (u ∷ us) h = ground (arith, h, length-remove_timer t us)

-- One socket or timer is alive at most, a timer waits only while attempts are left, and the sockets
-- are counted by the attempts since the last time one opens.
pub record IsBounded (o : SocketOptions) (h : Hook) (n : ℕ) : Type 0 where
  pub one : live h.sockets + length h.timers ≤ 1
  pub left : h.reconnect_attempts + length h.timers ≤ o.max_reconnect_attempts
  pub made : length h.sockets ≤ h.reconnect_attempts + n * o.max_reconnect_attempts + 1

module _ (o : SocketOptions) (p : Page) where
  -- A call of `connect` while no socket or timer is alive.
  connect_to-IsBounded :
      (url : Option String) (h : Hook) (n : ℕ)
      → live h.sockets + length h.timers ≡ 0
      → h.reconnect_attempts ≤ o.max_reconnect_attempts
      → length h.sockets ≤ h.reconnect_attempts + n * o.max_reconnect_attempts
      → IsBounded o (connect_to p url h) n
  connect_to-IsBounded none h n idle left made = record {
    one = omega arith;
    left = omega arith;
    made = omega arith;
  }
  connect_to-IsBounded (some url) h n idle left made = elim (Bool-cases (is_open h)) [
    | inl up ↦ rw up (record { one = omega arith; left = omega arith; made = omega arith })
    | inr down ↦ elim (Bool-cases (p.accepts (full_url p url))) [
      | inl taken ↦
          rw (down, taken)
            (record {
              one = omega (arith, live-append h.sockets);
              left = omega arith;
              made = omega (arith, length-append h.sockets (connecting ∷ []));
            })
      | inr refused ↦
          rw (down, refused) (record { one = omega arith; left = omega arith; made = omega arith })
    ]
  ]

  mounted-IsBounded : IsBounded o (connect o p initial_hook) 0
  unfolding connect
  mounted-IsBounded =
      connect_to-IsBounded (present o.url) initial_hook 0 refl (omega arith) (omega arith)

  on_open-IsBounded :
      (h : Hook) (n i : ℕ)
      → IsBounded o h n
      → phase_at i h.sockets ≡ some connecting
      → IsBounded o (on_open i h) (suc n)
  unfolding on_open
  on_open-IsBounded h n i b e =
      let (same, some_live) = live-opened i h.sockets e in
      let one = b.one in
      let left = b.left in
      let made = b.made in
      record {
        one = omega (arith, same);
        left = omega arith;
        made = omega (arith, length-set_phase i opened h.sockets);
      }

  on_close-IsBounded :
      (h : Hook) (n i : ℕ) (q : Phase)
      → IsBounded o h n
      → phase_at i h.sockets ≡ some q
      → q ≢ closed
      → IsBounded o (on_close o i h) n
  unfolding on_close
  on_close-IsBounded h n i q b e live_one =
      let fewer = live-close i q h.sockets e live_one in
      let same = length-set_phase i closed h.sockets in
      let one = b.one in
      let left = b.left in
      let made = b.made in
      record {
        one = ground (arith, fewer, one);
        left = ground (arith, fewer, one, left);
        made = ground (arith, same, made);
      }

  closing-IsBounded :
      (h : Hook) (n i : ℕ)
      → IsBounded o h n
      → phase_at i h.sockets ≡ some opened
      → IsBounded o (record h { sockets = set_phase i closing h.sockets }) n
  closing-IsBounded h n i b e =
      let one = b.one in
      let made = b.made in
      record {
        one = omega (arith, live-closing i h.sockets e);
        left = b.left;
        made = omega (arith, length-set_phase i closing h.sockets);
      }

  on_timer-IsBounded :
      (h : Hook) (n t : ℕ)
      → IsBounded o h n
      → has_timer t h.timers ≡ true
      → IsBounded o (on_timer o p t h) n
  unfolding on_timer connect
  on_timer-IsBounded h n t b e =
      let fewer = length-remove_timer t h.timers e in
      let one = b.one in
      let left = b.left in
      let made = b.made in
      connect_to-IsBounded (present o.url) _ n (omega arith) (omega arith) (omega arith)

  send_to-IsBounded :
      (c : Option ℕ) (up : Bool) (h : Hook) (n : ℕ) (m : String)
      → IsBounded o h n
      → IsBounded o (send_to c up m h) n
  send_to-IsBounded none up h n m b = b
  send_to-IsBounded (some i) true h n m b = record { one = b.one; left = b.left; made = b.made }
  send_to-IsBounded (some i) false h n m b = b

  send-IsBounded : (h : Hook) (n : ℕ) (m : String) → IsBounded o h n → IsBounded o (send m h) n
  unfolding send
  send-IsBounded h n m b = send_to-IsBounded h.current (is_open h) h n m b

  on_message-IsBounded :
      (h : Hook) (n : ℕ) (m : String) → IsBounded o h n → IsBounded o (on_message m h) n
  unfolding on_message
  on_message-IsBounded h n m b = record { one = b.one; left = b.left; made = b.made }

  pub Run-IsBounded : (h : Hook) (n : ℕ) → Run o p h n → IsBounded o h n
  Run-IsBounded _ _ mounted = mounted-IsBounded
  Run-IsBounded _ _ (opens h n i r e) = on_open-IsBounded h n i (Run-IsBounded h n r) e
  Run-IsBounded _ _ (closes h n i q r e k) = on_close-IsBounded h n i q (Run-IsBounded h n r) e k
  Run-IsBounded _ _ (server_closes h n i r e) = closing-IsBounded h n i (Run-IsBounded h n r) e
  Run-IsBounded _ _ (fired h n t r e) = on_timer-IsBounded h n t (Run-IsBounded h n r) e
  Run-IsBounded _ _ (received h n i m r e) = on_message-IsBounded h n m (Run-IsBounded h n r)
  Run-IsBounded _ _ (sends h n m r) = send-IsBounded h n m (Run-IsBounded h n r)

-- While the caller does not call `connect` or `disconnect`, a mounted hook whose sockets have opened
-- `n` times has made at most `(n + 1) * maxReconnectAttempts + 1` sockets, has at most one socket or
-- reconnection timer alive, and counts at most `maxReconnectAttempts` attempts.
pub reconnects_bounded :
    (o : SocketOptions) (p : Page) (h : Hook) (n : ℕ)
    → Run o p h n
    → (length h.sockets ≤ (n + 1) * o.max_reconnect_attempts + 1)
      × (live h.sockets + length h.timers ≤ 1)
      × (h.reconnect_attempts ≤ o.max_reconnect_attempts)
reconnects_bounded o p h n r =
    let b = Run-IsBounded o p h n r in
    let made = b.made in let left = b.left in (omega arith, b.one, omega arith)
