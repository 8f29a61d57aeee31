-- ===== src/Hooks/Socket/Agreement.antt =====
-- The flag `connected` of frontend/src/hooks/useWebSocket.ts, while the caller does not call
-- `connect` or `disconnect`.
use protocol_lens.Prelude.{
  ℕ, zero, suc, ◌≤◌, String, Bool, true, false, Option, none, some, List, [], ◌∷◌, ◌++◌, length,
  ◌≡◌, ◌≢◌, refl, sym, ap, ◌∙◌, arith, ◌⊎◌, inl, inr, Bool-cases,
}
use protocol_lens.Flows.Grant.{present}
use protocol_lens.Hooks.Socket.{
  SocketOptions, Page, Hook, Phase, connecting, opened, closing, closed, initial_hook, phase_at,
  set_phase, is_open, full_url, has_timer, connect_to, new_socket, connect, on_open, on_close,
  on_timer, on_message, send_to, send,
}
use protocol_lens.Hooks.Socket.Runs.{
  Run, mounted, opens, closes, server_closes, fired, received, sends,
}
use protocol_lens.Hooks.Socket.Bound.{live, IsBounded, Run-IsBounded}

phase_at-set_phase :
    (i j : ℕ) (q r : Phase) (ps : List Phase)
    → phase_at j (set_phase i q ps) ≡ some r
    → ((j ≡ i) × (r ≡ q)) ⊎ ((j ≢ i) × (phase_at j ps ≡ some r))
unfolding phase_at set_phase
phase_at-set_phase i j q r [] h = absurd (ground arith)
phase_at-set_phase zero zero q r (p ∷ ps) h = inl (refl, ground (arith, h))
phase_at-set_phase zero (suc j) q r (p ∷ ps) h = inr ((λ e. absurd (ground arith)), h)
phase_at-set_phase (suc i) zero q r (p ∷ ps) h = inr ((λ e. absurd (ground arith)), h)
phase_at-set_phase (suc i) (suc j) q r (p ∷ ps) h = elim (phase_at-set_phase i j q r ps h) [
  | inl (e, k) ↦ inl (ap suc e, k)
  | inr (d, k) ↦ inr ((λ e. d (omega arith)), k)
]

phase_at-set :
    (i : ℕ) (q r : Phase) (ps : List Phase)
    → phase_at i ps ≡ some r
    → phase_at i (set_phase i q ps) ≡ some q
unfolding phase_at set_phase
phase_at-set i q r [] h = absurd (ground arith)
phase_at-set zero q r (p ∷ ps) h = refl
phase_at-set (suc i) q r (p ∷ ps) h = phase_at-set i q r ps h

phase_at-append :
    (j : ℕ) (r q : Phase) (ps : List Phase)
    → phase_at j (ps ++ (q ∷ [])) ≡ some r
    → (phase_at j ps ≡ some r) ⊎ ((j ≡ length ps) × (r ≡ q))
unfolding phase_at
phase_at-append zero r q [] h = inr (refl, ground (arith, h))
phase_at-append (suc j) r q [] h = absurd (ground arith)
phase_at-append zero r q (p ∷ ps) h = inl h
phase_at-append (suc j) r q (p ∷ ps) h = elim (phase_at-append j r q ps h) [
  | inl old ↦ inl old
  | inr (e, k) ↦ inr (ap suc e, k)
]

phase_at-last : (q : Phase) (ps : List Phase) → phase_at (length ps) (ps ++ (q ∷ [])) ≡ some q
unfolding phase_at
phase_at-last q [] = refl
phase_at-last q (p ∷ ps) = phase_at-last q ps

live-none :
    (j : ℕ) (r : Phase) (ps : List Phase) → live ps ≡ 0 → phase_at j ps ≡ some r → r ≡ closed
unfolding phase_at
live-none j r [] h e = absurd (ground arith)
live-none zero r (p ∷ ps) h e = ground (arith, h, e)
live-none (suc j) r (p ∷ ps) h e = live-none j r ps (ground (arith, h)) e

-- Open, or closing: `onopen` has run and `onclose` has not.
abbrev pub is_up_phase : Option Phase → Bool
is_up_phase (some opened) = true
is_up_phase (some closing) = true
is_up_phase _ = false

abbrev pub up_at : Option ℕ → List Phase → Bool
up_at none ps = false
up_at (some i) ps = is_up_phase (phase_at i ps)

-- Only the socket that the hook refers to may be other than closed, and `connected` says whether it
-- is open or closing.
record IsAgreeing (h : Hook) : Type 0 where
  only : (j : ℕ) (r : Phase) → phase_at j h.sockets ≡ some r → r ≢ closed → h.current ≡ some j
  agrees : h.connected ≡ up_at h.current h.sockets

up_at-some :
    (c : Option ℕ) (i : ℕ) (r : Phase) (ps : List Phase)
    → c ≡ some i
    → phase_at i ps ≡ some r
    → up_at c ps ≡ is_up_phase (some r)
up_at-some c i r ps e k = rw (e, k) refl

closed_at : (o : Option Phase) → ((r : Phase) → o ≡ some r → r ≡ closed) → is_up_phase o ≡ false
closed_at none h = refl
closed_at (some r) h = rw (h r refl) refl

up_at-live : (c : Option ℕ) (ps : List Phase) → live ps ≡ 0 → up_at c ps ≡ false
up_at-live none ps h = refl
up_at-live (some i) ps h = closed_at (phase_at i ps) (λ r. live-none i r ps h)

new_socket-IsAgreeing : (h : Hook) → live h.sockets ≡ 0 → IsAgreeing h → IsAgreeing (new_socket h)
unfolding is_open
new_socket-IsAgreeing h idle a = record {
  only = λ j r e k. elim (phase_at-append j r connecting h.sockets e) [
    | inl old ↦ absurd (k (live-none j r h.sockets idle old))
    | inr (last, new) ↦ ap some (sym last)
  ];
  agrees =
      a.agrees
      ∙ up_at-live h.current h.sockets idle
      ∙ sym
          (up_at-some _ (length h.sockets) connecting _ refl (phase_at-last connecting h.sockets));
}

connect_to-IsAgreeing :
    (p : Page) (url : Option String) (h : Hook)
    → live h.sockets ≡ 0
    → IsAgreeing h
    → IsAgreeing (connect_to p url h)
connect_to-IsAgreeing p none h idle a = a
connect_to-IsAgreeing p (some url) h idle a = elim (Bool-cases (is_open h)) [
  | inl up ↦ rw up a
  | inr down ↦ elim (Bool-cases (p.accepts (full_url p url))) [
    | inl taken ↦ rw (down, taken) (new_socket-IsAgreeing h idle a)
    | inr refused ↦ rw (down, refused) a
  ]
]

module _ (o : SocketOptions) (p : Page) where
  on_open-IsAgreeing :
      (h : Hook) (i : ℕ)
      → IsAgreeing h
      → phase_at i h.sockets ≡ some connecting
      → IsAgreeing (on_open i h)
  unfolding on_open is_open
  on_open-IsAgreeing h i a e =
      let here = a.only i connecting e (λ k. absurd (ground (arith, k))) in
      record {
        only = λ j r k d. elim (phase_at-set_phase i j opened r h.sockets k) [
          | inl (same, _) ↦ here ∙ ap some (sym same)
          | inr (_, old) ↦ a.only j r old d
        ];
        agrees =
            sym
              (up_at-some h.current i opened _ here (phase_at-set i opened connecting h.sockets e));
      }

  on_close-IsAgreeing :
      (h : Hook) (i : ℕ) (q : Phase)
      → IsAgreeing h
      → phase_at i h.sockets ≡ some q
      → q ≢ closed
      → IsAgreeing (on_close o i h)
  unfolding on_close is_open
  on_close-IsAgreeing h i q a e d = record {
    only = λ j r k live_one. elim (phase_at-set_phase i j closed r h.sockets k) [
      | inl (_, gone) ↦ absurd (live_one gone)
      | inr (_, old) ↦ a.only j r old live_one
    ];
    agrees =
        sym
          (up_at-some h.current i closed _ (a.only i q e d) (phase_at-set i closed q h.sockets e));
  }

  closing-IsAgreeing :
      (h : Hook) (i : ℕ)
      → IsAgreeing h
      → phase_at i h.sockets ≡ some opened
      → IsAgreeing (record h { sockets = set_phase i closing h.sockets })
  closing-IsAgreeing h i a e =
      let here = a.only i opened e (λ k. absurd (ground (arith, k))) in
      record {
        only = λ j r k d. elim (phase_at-set_phase i j closing r h.sockets k) [
          | inl (same, _) ↦ here ∙ ap some (sym same)
          | inr (_, old) ↦ a.only j r old d
        ];
        agrees =
            a.agrees
            ∙ up_at-some h.current i opened h.sockets here e
            ∙ sym
                (up_at-some h.current i closing _ here (phase_at-set i closing opened h.sockets e));
      }

  on_timer-IsAgreeing :
      (h : Hook) (n t : ℕ)
      → IsBounded o h n
      → has_timer t h.timers ≡ true
      → IsAgreeing h
      → IsAgreeing (on_timer o p t h)
  unfolding on_timer connect is_open
  on_timer-IsAgreeing h n t b e a =
      let one = b.one in
      connect_to-IsAgreeing p (present o.url) _ (ground (arith, one, some_timer t h.timers e))
        (record { only = a.only; agrees = a.agrees })
    where
      some_timer : (t : ℕ) (ts : List ℕ) → has_timer t ts ≡ true → 1 ≤ length ts
      some_timer t [] e = absurd (ground arith)
      some_timer t (u ∷ us) e = omega arith

  send_to-IsAgreeing :
      (c : Option ℕ) (up : Bool) (h : Hook) (m : String)
      → IsAgreeing h
      → IsAgreeing (send_to c up m h)
  unfolding is_open
  send_to-IsAgreeing none up h m a = a
  send_to-IsAgreeing (some i) true h m a = record { only = a.only; agrees = a.agrees }
  send_to-IsAgreeing (some i) false h m a = a

  Run-IsAgreeing : (h : Hook) (n : ℕ) → Run o p h n → IsAgreeing h
  unfolding connect is_open on_message send
  Run-IsAgreeing _ _ mounted = connect_to-IsAgreeing p (present o.url) initial_hook refl (record {
    only = λ j r e k. absurd (ground (arith, live-none j r [] refl e, k));
    agrees = refl;
  })
  Run-IsAgreeing _ _ (opens h n i r e) = on_open-IsAgreeing h i (Run-IsAgreeing h n r) e
  Run-IsAgreeing _ _ (closes h n i q r e k) = on_close-IsAgreeing h i q (Run-IsAgreeing h n r) e k
  Run-IsAgreeing _ _ (server_closes h n i r e) = closing-IsAgreeing h i (Run-IsAgreeing h n r) e
  Run-IsAgreeing _ _ (fired h n t r e) =
      on_timer-IsAgreeing h n t (Run-IsBounded o p h n r) e (Run-IsAgreeing h n r)
  Run-IsAgreeing _ _ (received h n i m r e) =
      let a = Run-IsAgreeing h n r in record { only = a.only; agrees = a.agrees }
  Run-IsAgreeing _ _ (sends h n m r) =
      send_to-IsAgreeing h.current (is_open h) h m (Run-IsAgreeing h n r)

-- While the caller does not call `connect` or `disconnect`, a mounted hook reports `connected`
-- exactly if the socket that it refers to is open or closing: also while the server has started to
-- close it, when `send` sends nothing.
pub connected-agrees :
    (o : SocketOptions) (p : Page) (h : Hook) (n : ℕ)
    → Run o p h n
    → h.connected ≡ up_at h.current h.sockets
connected-agrees o p h n r = (Run-IsAgreeing o p h n r).agrees
